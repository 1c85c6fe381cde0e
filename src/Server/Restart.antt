-- ===== src/Server/Restart.antt =====
-- A restart: what `recover` makes of the file that served requests have left.
use becomeasystemsengineer.Prelude.{
  ℕ, ◌+◌, ◌≤◌, ◌<◌, ◌≡◌, ◌≢◌, refl, ◌⊎◌, inl, inr, Bool, true, Option, none, some, List, [], ◌∷◌,
  ◌++◌, arith, length, length-append, take, All, ap, ◌∙◌, sym, append-nil, All-append, some_inj,
  subst,
}
use native.Mathlib.Decide.{dec_lt}
use becomeasystemsengineer.Prelude.Bytes.{Bytes}
use becomeasystemsengineer.Posix.{Posix, returns}
use becomeasystemsengineer.UniqueFd.{no_fd, owning}
use becomeasystemsengineer.Store.{KvStore, empty_store}
use becomeasystemsengineer.Protocol.Frame.{
  header_size, default_max_payload, frame, network_length, length-network_length,
}
use becomeasystemsengineer.Protocol.Command.{Command}
use becomeasystemsengineer.Protocol.Command.RoundTrip.{print}
use becomeasystemsengineer.Wal.{Wal, recover}
use becomeasystemsengineer.Wal.Log.{
  IsRecord, IsTorn, log_bytes, log_bytes-append, perform, replay, replay-append, take-frame-IsTorn,
}
use becomeasystemsengineer.Wal.LogFile.{LogFile}
use becomeasystemsengineer.Wal.Recovering.{recover-replay}
use becomeasystemsengineer.Wal.Appending.{AppendFile, take-all}
use becomeasystemsengineer.Server.{Server, PoolCounts, execute}
use becomeasystemsengineer.Server.Durability.{Durable, live, halted, execute-Executed}

-- A server whose log has just been created and opened.
abbrev pub fresh_server : ℕ → Bytes → Server
fresh_server fd path = record { store = empty_store; wal = record { path = path; fd = owning fd } }

module _ (p : Posix) where
  abbrev reply_then :
      Bytes → Option (List Bytes × Server × p.Os) → Option (List Bytes × Server × p.Os)
  reply_then reply none = none
  reply_then reply (some (replies, srv, s)) = some (reply ∷ replies, srv, s)

  -- Requests one after the other, and their replies.
  unfoldable pub serve :
      ℕ → PoolCounts → Server → List Bytes → p.Os → Option (List Bytes × Server × p.Os)
  serve fuel counts srv [] s = some ([], srv, s)
  serve fuel counts srv (request ∷ requests) s = elim (execute p fuel srv counts request s) [
    | none ↦ none
    | some (reply, srv', s') ↦ reply_then reply (serve fuel counts srv' requests s')
  ]

  serve-execute :
      (fuel : ℕ) (counts : PoolCounts) (srv srv' : Server) (request reply : Bytes)
      → (requests : List Bytes) (s s' : p.Os)
      → execute p fuel srv counts request s ≡ some (reply, srv', s')
      → serve fuel counts srv (request ∷ requests) s
        ≡ reply_then reply (serve fuel counts srv' requests s')
  unfolding serve
  serve-execute fuel counts srv srv' request reply requests s s' e = ground (arith, e)

module _ (p : Posix) (fd : ℕ) (file : AppendFile p fd) (fuel : ℕ) where
  abbrev pub Served : Option (List Bytes × Server × p.Os) → Type 0
  Served out =
      (replies : List Bytes) × (srv : Server) × (s : p.Os) × (out ≡ some (replies, srv, s))
      × Durable p fd file fuel srv s

  -- On a server whose file holds the mutations of its store, requests of at most the payload limit,
  -- however many, are all answered within the fuel, and the file holds the mutations of the store
  -- that they leave.
  pub serve-Served :
      (counts : PoolCounts) (srv : Server) (requests : List Bytes) (s : p.Os)
      → All (λ request. length request ≤ default_max_payload) requests
      → Durable p fd file fuel srv s
      → Served (serve p fuel counts srv requests s)
  unfolding serve
  serve-Served counts srv [] s small d = ([], srv, s, refl, d)
  serve-Served counts srv (request ∷ requests) s (small, rest) d =
      let (reply, srv', s', e, d', _) =
        execute-Executed p fd file fuel counts srv request s small d in
      let (replies, srv'', s'', e', d'') = serve-Served counts srv' requests s' rest d' in
      (
        reply ∷ replies,
        srv'',
        s'',
        serve-execute p fuel counts srv srv' request reply requests s s' e
            ∙ ap (reply_then p reply) e',
        d'',
      )

  -- The log of a `Durable` state, and what stands behind it in the file: nothing, a torn tail, or the
  -- whole frame of the mutation that was refused when the log stopped.
  abbrev pub Remembered : Server → p.Os → Type 0
  Remembered srv s =
      (log : List Command) × (torn : Bytes) × (file.taken s ≡ log_bytes log ++ torn)
      × All IsRecord log
      × IsTorn torn
      × ((replay log empty_store ≡ srv.store)
          ⊎ ((srv.wal.fd ≡ no_fd)
              × ((c : Command) × IsRecord c × (replay log empty_store ≡ perform c srv.store))))

  nothing-IsTorn : IsTorn []
  nothing-IsTorn = inl (omega arith)

  Durable-Remembered : (srv : Server) (s : p.Os) → Durable p fd file fuel srv s → Remembered srv s
  Durable-Remembered srv s (live log rs e named owned t h) =
      (log, [], t ∙ sym (append-nil (log_bytes log)), rs, nothing-IsTorn, inl (sym e))
  Durable-Remembered srv s (halted log c k rs r e named closed t kl) =
      elim (dec_lt k (length (frame (print c)))) [
        | yes lt ↦ (
          log,
          take k (frame (print c)),
          t,
          rs,
          take-frame-IsTorn (print c) k r.small lt,
          inl (sym e),
        )
        | no ge ↦
            let whole : k ≡ length (frame (print c)) = omega arith in
            (
              log ++ c ∷ [],
              [],
              t
                  ∙ ap (◌++◌ (log_bytes log)) (take-all p fd file (frame (print c)) k whole)
                  ∙ sym (log_bytes-append log c)
                  ∙ sym (append-nil (log_bytes (log ++ c ∷ []))),
              All-append IsRecord log (c ∷ []) rs (r, tt),
              nothing-IsTorn,
              inr (closed, (c, r, replay-append log c empty_store ∙ ap (perform c) (sym e))),
            )
      ]

  length-log_bytes : (log : List Command) → length log ≤ length (log_bytes log)
  length-log_bytes [] = omega arith
  length-log_bytes (c ∷ log) = omega (
    arith,
    length-log_bytes log,
    length-append (frame (print c)) (log_bytes log),
    length-append (network_length (length (print c))) (print c),
    length-network_length (length (print c)),
  )

-- The process is started again on the file that is left behind, which is read through the descriptor
-- `fd'` of a world `s'`.
module _ (p : Posix) (fd : ℕ) (file : AppendFile p fd) (fuel : ℕ) (fd' : ℕ) (file' : LogFile p fd')
    (w : Wal) (rounds fuel' : ℕ) where
  abbrev pub Restored : Server → Option (Bool × KvStore × p.Os) → Type 0
  Restored srv out =
      (store : KvStore) × (s : p.Os) × (out ≡ some (true, store, s))
      × ((store ≡ srv.store)
          ⊎ ((srv.wal.fd ≡ no_fd) × ((c : Command) × IsRecord c × (store ≡ perform c srv.store))))

  Durable-Restored :
      (srv : Server) (s s' s'' : p.Os)
      → Durable p fd file fuel srv s
      → w.path ≢ []
      → p.open_rdwr w.path s' ≡ (returns fd', s'')
      → file'.content s'' ≡ file.taken s
      → file'.unread s'' ≡ file.taken s
      → length (file.taken s) < rounds
      → header_size + default_max_payload + file'.signals s'' + 1 < fuel'
      → Restored srv (recover p rounds fuel' w empty_store s')
  Durable-Restored srv s s' s'' d named opened content unread k h =
      let (log, torn, t, rs, tail, kept) = Durable-Remembered p fd file fuel srv s d in
      let (s3, e, _) =
        recover-replay p fd' file' fuel' w log torn rounds empty_store s' s'' named opened
          (content ∙ t) (unread ∙ t) rs tail
          (omega (
            arith,
            ap length t,
            length-append (log_bytes log) torn,
            length-log_bytes p fd file fuel log,
          ))
          h in
      (replay log empty_store, p.close fd' s3, e, kept)

  -- Requests of at most the payload limit, however many, were served in a row by a server that
  -- started with an empty store, an empty file and an open log. If then the process is started again
  -- with the bytes that the file holds, and reading and repairing the file meet no error but
  -- interruptions, `recover` reports success and yields exactly the store that was served; only if an
  -- append failed, and with it the log was closed, it may be the store after one more mutation. The
  -- fuel is above the payload limit, the header and the signals that interrupt, and the rounds are
  -- above the bytes of the file.
  pub serve_restores :
      (counts : PoolCounts) (path : Bytes) (requests replies : List Bytes) (srv : Server)
      → (s s1 s' s'' : p.Os) → path ≢ []
      → file.taken s ≡ []
      → header_size + default_max_payload + file.signals s < fuel
      → All (λ request. length request ≤ default_max_payload) requests
      → serve p fuel counts (fresh_server fd path) requests s ≡ some (replies, srv, s1)
      → w.path ≢ []
      → p.open_rdwr w.path s' ≡ (returns fd', s'')
      → file'.content s'' ≡ file.taken s1
      → file'.unread s'' ≡ file.taken s1
      → length (file.taken s1) < rounds
      → header_size + default_max_payload + file'.signals s'' + 1 < fuel'
      → Restored srv (recover p rounds fuel' w empty_store s')
  serve_restores counts path requests replies srv s s1 s' s'' named clean h small e =
      let (replies', srv', s1', e', d) =
        serve-Served p fd file fuel counts (fresh_server fd path) requests s small
          (live [] tt refl named refl clean h) in
      let same_end : (replies', srv', s1') ≡ (replies, srv, s1) = some_inj (sym e' ∙ e) in
      Durable-Restored srv s1 s' s''
        (subst (λ (x : List Bytes × Server × p.Os). Durable p fd file fuel x.1 x.2) same_end d)
