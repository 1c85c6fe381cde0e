-- ===== src/Server/Durability.antt =====
-- Durability: what the file of the log holds while requests are served, and what a restart recovers.
use becomeasystemsengineer.Prelude.{
  ℕ, ◌+◌, ◌≤◌, ◌<◌, ◌≡◌, ◌≢◌, refl, ◌⊎◌, inl, inr, Bool, true, false, Option, some, List, [], ◌∷◌,
  ◌++◌, arith, length, take, All, All-append, ap, ◌∙◌, sym, if◌then◌else◌,
}
use becomeasystemsengineer.Prelude.Bytes.{Bytes, codes}
use becomeasystemsengineer.Posix.{Posix}
use becomeasystemsengineer.UniqueFd.{no_fd, owning}
use becomeasystemsengineer.Store.{KvStore, empty_store, erase}
use becomeasystemsengineer.Store
use becomeasystemsengineer.Protocol.Frame.{header_size, default_max_payload, frame}
use becomeasystemsengineer.Protocol.Command.{
  Command, ping, stats, get, del, set, ParseResult, command, parse_error, parse_command,
}
use becomeasystemsengineer.Protocol.Command.RoundTrip.{print}
use becomeasystemsengineer.Protocol.Command.Parsed.{Fits, parse_command-Fits}
use becomeasystemsengineer.Wal.{Wal, append_record, append_set, append_del}
use becomeasystemsengineer.Wal.Log.{
  IsRecord, log_bytes, log_bytes-append, perform, replay, replay-append,
}
use becomeasystemsengineer.Wal.Appending.{
  AppendFile, kept_whole, stopped, append_record-Appended, append_record-stopped,
}
use becomeasystemsengineer.Server.{
  Server, PoolCounts, execute, visit, del_after, set_after, wal_failure, stats_reply, get_reply,
}

module _ (p : Posix) (fd : ℕ) (file : AppendFile p fd) (fuel : ℕ) where
  open file use {taken, signals}

  -- The log is open and the file holds exactly the mutations that made the store; or an append has
  -- failed, the log takes nothing any more, and behind those mutations stands a part of one frame.
  pub data Durable (srv : Server) (s : p.Os) : Type 0 where
    live :
        (log : List Command)
        → All IsRecord log
        → srv.store ≡ replay log empty_store
        → srv.wal.path ≢ []
        → srv.wal.fd ≡ owning fd
        → taken s ≡ log_bytes log
        → header_size + default_max_payload + signals s < fuel
        → Durable srv s
    halted :
        (log : List Command) (c : Command) (k : ℕ)
        → All IsRecord log
        → IsRecord c
        → srv.store ≡ replay log empty_store
        → srv.wal.path ≢ []
        → srv.wal.fd ≡ no_fd
        → taken s ≡ log_bytes log ++ take k (frame (print c))
        → k ≤ length (frame (print c))
        → Durable srv s

  -- The outcome of a mutation `c`: it is in the file and in the store, or it is refused, the store is
  -- as it was, and the log has stopped.
  abbrev Mutated : Server → p.Os → Command → Option (Bytes × Server × p.Os) → Type 0
  Mutated srv s c out =
      (reply : Bytes) × (srv' : Server) × (s' : p.Os) × (out ≡ some (reply, srv', s'))
      × Durable srv' s'
      × (((reply ≢ wal_failure) × (srv'.store ≡ perform c srv.store))
          ⊎ ((reply ≡ wal_failure) × (srv'.store ≡ srv.store) × (srv'.wal.fd ≡ no_fd)))

  All-snoc :
      (log : List Command) (c : Command)
      → All IsRecord log
      → IsRecord c
      → All IsRecord (log ++ c ∷ [])
  All-snoc log c rs r = All-append IsRecord log (c ∷ []) rs (r, tt)

  -- The append of the record of `c`, on a server whose log is open or has stopped.
  data Logged (srv : Server) (s : p.Os) (c : Command) (out : Option (Bool × Wal × p.Os))
      : Type 0 where
    written :
        (s' : p.Os)
        → out ≡ some (true, srv.wal, s')
        → Durable (record { store = perform c srv.store; wal = srv.wal }) s'
        → Logged srv s c out
    refused :
        (w : Wal) (s' : p.Os)
        → out ≡ some (false, w, s')
        → w.fd ≡ no_fd
        → Durable (record { store = srv.store; wal = w }) s'
        → Logged srv s c out

  append-Logged :
      (srv : Server) (c : Command) (s : p.Os)
      → IsRecord c
      → Durable srv s
      → Logged srv s c (append_record p fuel srv.wal (print c) s)
  append-Logged srv c s r (live log rs e named owned t h) =
      elim (append_record-Appended p fd file fuel srv.wal (print c) s named owned
        (omega (arith, r.small)) (omega (arith, r.small))) [
          | kept_whole s' out t' g ↦ written s' out (
              live (log ++ c ∷ []) (All-snoc log c rs r)
                (ap (perform c) e ∙ sym (replay-append log c empty_store)) named owned
                (t' ∙ ap (λ (x : Bytes). x ++ frame (print c)) t ∙ sym (log_bytes-append log c))
                (omega arith))
          | stopped s' k out t' kl ↦
              refused (record srv.wal { fd = no_fd }) s' out refl
                (halted log c k rs r e named refl
                  (t' ∙ ap (λ (x : Bytes). x ++ take k (frame (print c))) t) kl)
        ]
  append-Logged srv c s r (halted log d k rs rd e named closed t kl) =
      refused srv.wal s (append_record-stopped p fuel srv.wal (print c) s named closed) closed
        (halted log d k rs rd e named closed t kl)

  set-Mutated :
      (counts : PoolCounts) (srv : Server) (key value : Bytes) (s : p.Os)
      → IsRecord (set key value)
      → Durable srv s
      → Mutated srv s (set key value) (visit p fuel srv counts (command (set key value)) s)
  set-Mutated counts srv key value s r d = elim (append-Logged srv (set key value) s r d) [
    | written s' out d' ↦ (
      codes "OK",
      record { store = Store.set key value srv.store; wal = srv.wal },
      s',
      unfold append_set in ap (set_after p srv key value) out,
      d',
      inl ((λ e. cc), refl),
    )
    | refused w s' out closed d' ↦ (
      wal_failure,
      record srv { wal = w },
      s',
      unfold append_set in ap (set_after p srv key value) out,
      d',
      inr (refl, refl, closed),
    )
  ]

  del_reply-ne :
      (erased : Bool) → (if erased then codes "DELETED" else codes "NOT_FOUND") ≢ wal_failure
  del_reply-ne true e = cc
  del_reply-ne false e = cc

  del-Mutated :
      (counts : PoolCounts) (srv : Server) (key : Bytes) (s : p.Os)
      → IsRecord (del key)
      → Durable srv s
      → Mutated srv s (del key) (visit p fuel srv counts (command (del key)) s)
  del-Mutated counts srv key s r d = elim (append-Logged srv (del key) s r d) [
    | written s' out d' ↦ (
      if (erase key srv.store).0 then codes "DELETED" else codes "NOT_FOUND",
      record { store = (erase key srv.store).1; wal = srv.wal },
      s',
      unfold append_del in ap (del_after p srv key) out,
      d',
      inl (del_reply-ne (erase key srv.store).0, refl),
    )
    | refused w s' out closed d' ↦ (
      wal_failure,
      record srv { wal = w },
      s',
      unfold append_del in ap (del_after p srv key) out,
      d',
      inr (refl, refl, closed),
    )
  ]

  -- What a parsed request does to the store.
  abbrev pub effect : ParseResult → KvStore → KvStore
  effect (parse_error message) store = store
  effect (command c) store = perform c store

  -- The outcome of a request: it is done, or it is refused because of the log.
  abbrev pub Executed : Server → Bytes → Option (Bytes × Server × p.Os) → Type 0
  Executed srv request out =
      (reply : Bytes) × (srv' : Server) × (s' : p.Os) × (out ≡ some (reply, srv', s'))
      × Durable srv' s'
      × ((srv'.store ≡ effect (parse_command request) srv.store)
          ⊎ ((reply ≡ wal_failure) × (srv'.store ≡ srv.store) × (srv'.wal.fd ≡ no_fd)))

  Mutated-Executed :
      (srv : Server) (c : Command) (request : Bytes) (s : p.Os)
      (out : Option (Bytes × Server × p.Os))
      → parse_command request ≡ command c
      → Mutated srv s c out
      → Executed srv request out
  Mutated-Executed srv c request s out e (reply, srv', s', q, d, inl (ne, done)) =
      (reply, srv', s', q, d, inl (done ∙ ap (λ (r : ParseResult). effect r srv.store) (sym e)))
  Mutated-Executed srv c request s out e (reply, srv', s', q, d, inr kept) =
      (reply, srv', s', q, d, inr kept)

  -- A request of at most the payload limit, on a server whose file holds the mutations of its store,
  -- returns a reply within the fuel, and the file still holds the mutations of the store. The store
  -- is changed as the parsed request says, or the reply is "ERR WAL failure", the store is as it was
  -- and the log is closed.
  pub execute-Executed :
      (counts : PoolCounts) (srv : Server) (request : Bytes) (s : p.Os)
      → length request ≤ default_max_payload
      → Durable srv s
      → Executed srv request (execute p fuel srv counts request s)
  unfolding execute
  execute-Executed counts srv request s small d =
      of_result (parse_command request) refl (parse_command-Fits request)
    where
      of_result :
          (r : ParseResult)
          → parse_command request ≡ r
          → Fits (length request) r
          → Executed srv request (visit p fuel srv counts (parse_command request) s)
      of_result (parse_error message) e f = (
        codes "ERR " ++ codes message,
        srv,
        s,
        ap (λ (r : ParseResult). visit p fuel srv counts r s) e,
        d,
        inl (ap (λ (r : ParseResult). effect r srv.store) (sym e)),
      )
      of_result (command ping) e f = (
        codes "PONG",
        srv,
        s,
        ap (λ (r : ParseResult). visit p fuel srv counts r s) e,
        d,
        inl (ap (λ (r : ParseResult). effect r srv.store) (sym e)),
      )
      of_result (command stats) e f = (
        stats_reply srv counts,
        srv,
        s,
        ap (λ (r : ParseResult). visit p fuel srv counts r s) e,
        d,
        inl (ap (λ (r : ParseResult). effect r srv.store) (sym e)),
      )
      of_result (command (get key)) e f = (
        get_reply (Store.get key srv.store),
        srv,
        s,
        ap (λ (r : ParseResult). visit p fuel srv counts r s) e,
        d,
        inl (ap (λ (r : ParseResult). effect r srv.store) (sym e)),
      )
      of_result (command (del key)) e (well, fits) = Mutated-Executed srv (del key) request s _ e (
          rw e (
            del-Mutated counts srv key s
              (record { well_formed = well; mutation = tt; small = omega arith }) d))
      of_result (command (set key value)) e (well, fits) =
          Mutated-Executed srv (set key value) request s _ e (
            rw e (
              set-Mutated counts srv key value s
                (record { well_formed = well; mutation = tt; small = omega arith }) d))
