-- ===== src/Wal/Recovering.antt =====
-- Recovery: `Wal::recover` on a file that holds a log and, after a crash, a torn tail.
use becomeasystemsengineer.Prelude.{
  ℕ, zero, suc, ◌+◌, ◌≤◌, ◌<◌, ◌≡◌, refl, inl, inr, Bool, true, Option, some, List, [], ◌∷◌, ◌++◌,
  arith, length, length-append, take, All, ap, ap₂, append_assoc, ◌∙◌, sym, append-nil, ◌≢◌,
}
use becomeasystemsengineer.Prelude.Bytes.{Bytes}
use becomeasystemsengineer.Posix.{Posix, returns}
use becomeasystemsengineer.Store.{KvStore}
use becomeasystemsengineer.Protocol.Frame.{
  header_size, default_max_payload, network_length, frame, length-network_length,
  host_length-network_length,
}
use becomeasystemsengineer.Protocol.Io.Reading.{read_exact-whole, read_exact-short}
use becomeasystemsengineer.Protocol.Command.{Command, ping, stats, get, del, parse_command}
use becomeasystemsengineer.Protocol.Command.RoundTrip.{is_empty-ne-nil, print, parse_command-print}
use becomeasystemsengineer.Wal.{Wal, recover_loop, recover, apply_record}
use becomeasystemsengineer.Wal.Log.{IsRecord, IsTorn, log_bytes, perform, replay}
use becomeasystemsengineer.Wal.LogFile.{
  LogFile, repair_torn_tail-Ends, content-read_exact, round_record, round_end_of_log,
  round_torn_header, round_torn_payload,
}

take-length : (xs ys : Bytes) → take (length xs) (xs ++ ys) ≡ xs
take-length [] ys = refl
take-length (x ∷ xs) ys = ap (λ (t : Bytes). x ∷ t) (take-length xs ys)

apply-perform :
    (p : Posix) (c : Command) (store : KvStore)
    → IsRecord c
    → apply_record p (parse_command (print c)) store ≡ some (perform c store)
apply-perform p ping store r = absurd r.mutation
apply-perform p stats store r = absurd r.mutation
apply-perform p (get key) store r = absurd r.mutation
apply-perform p (del key) store r = rw (parse_command-print (del key) r.well_formed)
apply-perform p (Command.set key value) store r =
    rw (parse_command-print (Command.set key value) r.well_formed)

module _ (p : Posix) (fd : ℕ) (file : LogFile p fd) (fuel : ℕ) where
  open file use {stream, unread, signals, content, reads_well, lseek_lem}

  abbrev Recovers : Option (Bool × KvStore × p.Os) → KvStore → Bytes → Type 0
  Recovers out store bytes = (s' : p.Os) × (out ≡ some (true, store, s')) × (content s' ≡ bytes)

  abbrev Enough : p.Os → Type 0
  Enough s = header_size + default_max_payload + signals s + 1 < fuel

  -- The end of the log: nothing follows, or what follows is cut off.
  recover-torn :
      (rounds complete_size : ℕ) (store : KvStore) (before torn : Bytes) (s : p.Os)
      → content s ≡ before ++ torn
      → unread s ≡ torn
      → complete_size ≡ length before
      → IsTorn torn
      → Enough s
      → Recovers (recover_loop p (suc rounds) fuel fd complete_size store s) store before
  recover-torn rounds complete_size store before [] s c u size t h =
      let (s1, e1, _, g1) =
        read_exact-short p fd stream reads_well fuel header_size 0 [] [] s u (omega arith)
          (omega arith) in
      (
        s1,
        round_end_of_log p rounds fuel fd complete_size store s s1 s1 s1 [] [] e1,
        content-read_exact p fd file fuel header_size 0 [] s _ _ s1 e1 ∙ c ∙ append-nil before,
      )
  recover-torn rounds complete_size store before (b ∷ torn) s c u size (inl short) h =
      let (s1, e1, _, g1) =
        read_exact-short p fd stream reads_well fuel header_size 0 [] (b ∷ torn) s u (omega arith)
          (omega arith) in
      let kept = content-read_exact p fd file fuel header_size 0 [] s _ _ s1 e1 in
      let (s2, e2, c2, _) = repair_torn_tail-Ends p fd file fuel complete_size s1 (omega arith) in
      (
        s2,
        round_torn_header p rounds fuel fd complete_size store s s1 s2 s2 _ [] _ (omega arith) e1
            e2,
        c2 ∙ ap₂ take size (kept ∙ c) ∙ take-length before (b ∷ torn),
      )
  recover-torn rounds complete_size store before (b ∷ torn) s c u size
        (inr (n, part, e, short, small)) h =
      let (s1, e1, u1, g1) =
        read_exact-whole p fd stream reads_well fuel header_size 0 [] (network_length n) part s
          (u ∙ e) (omega (arith, length-network_length n))
          (omega (arith, length-network_length n)) in
      let (s2, e2, _, g2) =
        read_exact-short p fd stream reads_well fuel n 0 [] part s1 u1 (omega arith)
          (omega arith) in
      let kept =
        content-read_exact p fd file fuel n 0 [] s1 _ _ s2 e2
        ∙ content-read_exact p fd file fuel header_size 0 [] s _ _ s1 e1 in
      let (s3, e3, c3, _) = repair_torn_tail-Ends p fd file fuel complete_size s2 (omega arith) in
      (
        s3,
        round_torn_payload p rounds fuel fd complete_size store s s1 s2 s3 (network_length n) part n
            _ e1 (host_length-network_length n (omega arith)) small e2 e3,
        c3 ∙ ap₂ take size (kept ∙ c) ∙ take-length before (b ∷ torn),
      )

  -- One record: the file is as it was, and what is unread begins behind the record.
  recover-record :
      (rounds complete_size : ℕ) (store : KvStore) (before rest : Bytes) (c : Command) (s : p.Os)
      → content s ≡ before ++ (frame (print c) ++ rest)
      → unread s ≡ frame (print c) ++ rest
      → IsRecord c
      → Enough s
      → (m : ℕ) × (s' : p.Os) × (recover_loop p (suc rounds) fuel fd complete_size store s
          ≡ recover_loop p rounds fuel fd m (perform c store) s')
        × (content s' ≡ content s)
        × (unread s' ≡ rest)
        × (m ≡ length (before ++ frame (print c)))
        × (signals s' ≤ signals s)
  recover-record rounds complete_size store before rest c s con u r h =
      let text : Bytes = print c in
      let n : ℕ = length text in
      let small : n ≤ default_max_payload = r.small in
      let (s1, e1, u1, g1) =
        read_exact-whole p fd stream reads_well fuel header_size 0 [] (network_length n)
          (text ++ rest) s (u ∙ append_assoc (network_length n) text rest)
          (omega (arith, length-network_length n)) (omega (arith, length-network_length n)) in
      let (s2, e2, u2, g2) =
        read_exact-whole p fd stream reads_well fuel n 0 [] text rest s1 u1 (omega arith)
          (omega arith) in
      let (m, s3, e3, pos, u3, c3, g3) = lseek_lem s2 in
      let kept : content s2 ≡ content s =
        content-read_exact p fd file fuel n 0 [] s1 _ _ s2 e2
        ∙ content-read_exact p fd file fuel header_size 0 [] s _ _ s1 e1 in
      (
        m,
        s3,
        round_record p rounds fuel fd complete_size store s s1 s2 s3 (network_length n) text n m
            (perform c store) e1 (host_length-network_length n (omega arith)) small e2
            (apply-perform p c store r) e3,
        c3 ∙ kept,
        u3 ∙ u2,
        omega (
          arith,
          pos,
          ap length (kept ∙ con),
          ap length u2,
          length-append before (frame text ++ rest),
          length-append (frame text) rest,
          length-append before (frame text),
        ),
        omega arith,
      )

  recover_loop-log :
      (log : List Command) (rounds complete_size : ℕ) (store : KvStore) (before torn : Bytes)
      (s : p.Os)
      → content s ≡ before ++ (log_bytes log ++ torn)
      → unread s ≡ log_bytes log ++ torn
      → complete_size ≡ length before
      → All IsRecord log
      → IsTorn torn
      → length log < rounds
      → Enough s
      → Recovers
          (recover_loop p rounds fuel fd complete_size store s)
          (replay log store)
          (before ++ log_bytes log)
  recover_loop-log log zero complete_size store before torn s c u size rs t k h =
      absurd (omega arith)
  recover_loop-log [] (suc rounds) complete_size store before torn s c u size rs t k h =
      let (s', e, c') = recover-torn rounds complete_size store before torn s c u size t h in
      (s', e, c' ∙ sym (append-nil before))
  recover_loop-log (d ∷ log) (suc rounds) complete_size store before torn s c u size (r, rs) t k h =
      let (m, s', e, c', u', size', g) =
        recover-record rounds complete_size store before (log_bytes log ++ torn) d s
          (c ∙ ap (◌++◌ before) (append_assoc (frame (print d)) (log_bytes log) torn))
          (u ∙ append_assoc (frame (print d)) (log_bytes log) torn) r h in
      let next = before ++ frame (print d) in
      let (s'', e'', c'') =
        recover_loop-log log rounds m (perform d store) next torn s'
          (c'
            ∙ c
            ∙ ap (◌++◌ before) (append_assoc (frame (print d)) (log_bytes log) torn)
            ∙ sym (append_assoc before (frame (print d)) (log_bytes log ++ torn)))
          u' size' rs t (omega arith) (omega arith) in
      (s'', e ∙ e'', c'' ∙ append_assoc before (frame (print d)) (log_bytes log))

  -- The file holds a log and, where a write was cut off, a torn tail. Recovery replays exactly the
  -- log into the store, cuts the tail off, and reports success, given more rounds than records and
  -- fuel above the payload limit, the header and the signals that interrupt.
  pub recover-replay :
      (w : Wal) (log : List Command) (torn : Bytes) (rounds : ℕ) (store : KvStore) (s s' : p.Os)
      → w.path ≢ []
      → p.open_rdwr w.path s ≡ (returns fd, s')
      → content s' ≡ log_bytes log ++ torn
      → unread s' ≡ log_bytes log ++ torn
      → All IsRecord log
      → IsTorn torn
      → length log < rounds
      → Enough s'
      → (s'' : p.Os) × (recover p rounds fuel w store s
          ≡ some (true, replay log store, p.close fd s''))
        × (content s'' ≡ log_bytes log)
  unfolding recover
  recover-replay w log torn rounds store s s' named opened c u rs t k h =
      let (s'', e, c'') = recover_loop-log log rounds 0 store [] torn s' c u refl rs t k h in
      (s'', ground (arith, is_empty-ne-nil w.path named), c'')
