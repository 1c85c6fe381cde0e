-- ===== src/Wal/LogFile.antt =====
-- The file of the log as `Wal::recover` uses it: its laws, its repair, and the rounds of the loop.
use becomeasystemsengineer.Prelude.{
  ℕ, zero, suc, ◌+◌, ◌-◌, ◌≤◌, ◌<◌, ◌≡◌, refl, ◌⊎◌, inl, inr, Bool, true, Option, some, [], ◌∷◌,
  arith, length, take, ap, ◌∙◌, sym, ◌==◌, Bool-cases, some_inj, ==_iff,
}
use native.Mathlib.Decide.{dec_lt}
use becomeasystemsengineer.Prelude.Bytes.{Bytes}
use becomeasystemsengineer.Posix.{Posix, Reply, returns, fails, eintr, Stream, ReadsWell}
use becomeasystemsengineer.Store.{KvStore}
use becomeasystemsengineer.Protocol.Frame.{header_size, default_max_payload, host_length}
use becomeasystemsengineer.Protocol.Io.{ok, eof, IoResult, io, read_exact}
use becomeasystemsengineer.Protocol.Io.Reading.{
  round_done, round_some, round_end, round_interrupted, round_failed,
}
use becomeasystemsengineer.Protocol.Command.{parse_command}
use becomeasystemsengineer.Wal.{
  truncate_file, sync_file, repair_torn_tail, recover_loop, apply_record,
}

-- A file that is read from its start, is truncated and synced. `content` are its bytes.
pub record LogFile (p : Posix) (fd : ℕ) : Type 0 where
  pub stream : Stream p fd
  pub open stream use *
  pub content : p.Os → Bytes
  pub reads_well : ReadsWell p fd
  pub content-read :
      (n : ℕ) (r : Reply Bytes) (s s' : p.Os) → p.read fd n s ≡ (r, s') → content s' ≡ content s
  -- the offset is what has been read
  pub lseek_lem :
      (s : p.Os)
      → (n : ℕ) × (s' : p.Os) × (p.lseek fd s ≡ (returns n, s'))
        × (n + length (unread s) ≡ length (content s))
        × (unread s' ≡ unread s)
        × (content s' ≡ content s)
        × (signals s' ≤ signals s)
  pub ftruncate_lem :
      (n : ℕ) (s : p.Os)
      → ((s' : p.Os) × (p.ftruncate fd n s ≡ (returns tt, s'))
          × (content s' ≡ take n (content s))
          × (signals s' ≤ signals s))
        ⊎ ((s' : p.Os) × (p.ftruncate fd n s ≡ (fails eintr, s'))
            × (content s' ≡ content s)
            × (signals s' < signals s))
  pub fsync_lem :
      (s : p.Os)
      → ((s' : p.Os) × (p.fsync fd s ≡ (returns tt, s'))
          × (content s' ≡ content s)
          × (signals s' ≤ signals s))
        ⊎ ((s' : p.Os) × (p.fsync fd s ≡ (fails eintr, s'))
            × (content s' ≡ content s)
            × (signals s' < signals s))

module _ (p : Posix) (fd : ℕ) (file : LogFile p fd) where
  open file use {
    stream, unread, signals, content, reads_well, content-read, lseek_lem, ftruncate_lem, fsync_lem,
  }

  abbrev pub Ends : Option (Bool × p.Os) → Bytes → p.Os → Type 0
  Ends out bytes s =
      (s' : p.Os) × (out ≡ some (true, s')) × (content s' ≡ bytes) × (signals s' ≤ signals s)

  sync_done :
      (fuel : ℕ) (s s' : p.Os)
      → p.fsync fd s ≡ (returns tt, s')
      → sync_file p (suc fuel) fd s ≡ some (true, s')
  unfolding sync_file
  sync_done fuel s s' e = ground arith

  sync_again :
      (fuel : ℕ) (s s' : p.Os)
      → p.fsync fd s ≡ (fails eintr, s')
      → sync_file p (suc fuel) fd s ≡ sync_file p fuel fd s'
  unfolding sync_file
  sync_again fuel s s' e = ground arith

  truncate_done :
      (fuel n : ℕ) (s s' : p.Os)
      → p.ftruncate fd n s ≡ (returns tt, s')
      → truncate_file p (suc fuel) fd n s ≡ some (true, s')
  unfolding truncate_file
  truncate_done fuel n s s' e = ground arith

  truncate_again :
      (fuel n : ℕ) (s s' : p.Os)
      → p.ftruncate fd n s ≡ (fails eintr, s')
      → truncate_file p (suc fuel) fd n s ≡ truncate_file p fuel fd n s'
  unfolding truncate_file
  truncate_again fuel n s s' e = ground arith

  pub sync_file-Ends :
      (fuel : ℕ) (s : p.Os) → signals s < fuel → Ends (sync_file p fuel fd s) (content s) s
  sync_file-Ends zero s h = absurd (omega arith)
  sync_file-Ends (suc fuel) s h = elim (fsync_lem s) [
    | inl (s', e, c, g) ↦ (s', sync_done fuel s s' e, c, g)
    | inr (s', e, c, g) ↦
        let (s'', e', c', g') = sync_file-Ends fuel s' (omega arith) in
        (s'', sync_again fuel s s' e ∙ e', c' ∙ c, omega arith)
  ]

  truncate_file-Ends :
      (fuel n : ℕ) (s : p.Os)
      → signals s < fuel
      → Ends (truncate_file p fuel fd n s) (take n (content s)) s
  truncate_file-Ends zero n s h = absurd (omega arith)
  truncate_file-Ends (suc fuel) n s h = elim (ftruncate_lem n s) [
    | inl (s', e, c, g) ↦ (s', truncate_done fuel n s s' e, c, g)
    | inr (s', e, c, g) ↦
        let (s'', e', c', g') = truncate_file-Ends fuel n s' (omega arith) in
        (s'', truncate_again fuel n s s' e ∙ e', c' ∙ ap (take n) c, omega arith)
  ]

  pub repair_torn_tail-Ends :
      (fuel n : ℕ) (s : p.Os)
      → signals s < fuel
      → Ends (repair_torn_tail p fuel fd n s) (take n (content s)) s
  unfolding repair_torn_tail
  repair_torn_tail-Ends fuel n s h =
      let (s1, e1, c1, g1) = truncate_file-Ends fuel n s h in
      let (s2, e2, c2, g2) = sync_file-Ends fuel s1 (omega arith) in
      (s2, rw e1 e2, c2 ∙ c1, omega arith)

  same_os :
      {A : Option (IoResult × Bytes × p.Os)} {x y : IoResult × Bytes × p.Os}
      → A ≡ some x
      → A ≡ some y
      → x.2 ≡ y.2
  same_os e q = ap (λ (x : IoResult × Bytes × p.Os). x.2) (some_inj (sym e ∙ q))

  -- Reading leaves the file as it is.
  pub content-read_exact :
      (fuel size offset : ℕ) (output : Bytes) (s : p.Os) (r : IoResult) (bytes : Bytes) (s' : p.Os)
      → read_exact p fuel fd size offset output s ≡ some (r, bytes, s')
      → content s' ≡ content s
  content-read_exact zero size offset output s r bytes s' e = unfold read_exact in cc
  content-read_exact (suc fuel) size offset output s r bytes s' e = elim (dec_lt offset size) [
    | no ge ↦
        ap content (sym (same_os (round_done p fuel fd size offset output s s (omega arith)) e))
    | yes lt ↦
        of_reply lt (p.read fd (size - offset) s).0 (p.read fd (size - offset) s).1 refl
          (λ offset' output' s1 e1. content-read_exact fuel size offset' output' s1 r bytes s' e1)
  ]
    where
      of_reply :
          offset < size
          → (reply : Reply Bytes) (s1 : p.Os) → p.read fd (size - offset) s ≡ (reply, s1)
          → ((offset' : ℕ) (output' : Bytes) (s2 : p.Os)
              → read_exact p fuel fd size offset' output' s2 ≡ some (r, bytes, s')
              → content s' ≡ content s2)
          → content s' ≡ content s
      of_reply lt (returns []) s1 q ih =
          ap content (sym (same_os (round_end p fuel fd size offset output s s1 lt q) e))
          ∙ content-read _ _ s s1 q
      of_reply lt (returns (b ∷ bs)) s1 q ih =
          ih _ _ s1 (sym (round_some p fuel fd size offset output s s1 b bs lt q) ∙ e)
          ∙ content-read _ _ s s1 q
      of_reply lt (fails errno) s1 q ih = elim (Bool-cases (errno == eintr)) [
        | inl i ↦
            let q' : p.read fd (size - offset) s ≡ (fails eintr, s1) =
              rw ((==_iff errno eintr).0 i) at q in
            ih _ _ s1 (sym (round_interrupted p fuel fd size offset output s s1 lt q') ∙ e)
            ∙ content-read _ _ s s1 q
        | inr n ↦
            ap content
              (sym (same_os (round_failed p fuel fd size offset output s s1 errno lt q n) e))
            ∙ content-read _ _ s s1 q
      ]

-- The rounds of the recovery loop.
module _ (p : Posix) (rounds fuel fd complete_size : ℕ) (store : KvStore) (s s1 s2 s3 : p.Os)
    (header payload : Bytes) where
  pub round_record :
      (n m : ℕ) (store' : KvStore)
      → read_exact p fuel fd header_size 0 [] s ≡ some (io ok header_size 0, header, s1)
      → host_length header ≡ n
      → n ≤ default_max_payload
      → read_exact p fuel fd n 0 [] s1 ≡ some (io ok n 0, payload, s2)
      → apply_record p (parse_command payload) store ≡ some store'
      → p.lseek fd s2 ≡ (returns m, s3)
      → recover_loop p (suc rounds) fuel fd complete_size store s
        ≡ recover_loop p rounds fuel fd m store' s3
  unfolding recover_loop
  round_record n m store' e1 e2 small e3 e4 e5 = ground arith

  pub round_end_of_log :
      read_exact p fuel fd header_size 0 [] s ≡ some (io eof 0 0, header, s1)
      → recover_loop p (suc rounds) fuel fd complete_size store s ≡ some (true, store, s1)
  unfolding recover_loop
  round_end_of_log e = ground arith

  pub round_torn_header :
      (n : ℕ)
      → 0 < n
      → read_exact p fuel fd header_size 0 [] s ≡ some (io eof n 0, header, s1)
      → repair_torn_tail p fuel fd complete_size s1 ≡ some (true, s2)
      → recover_loop p (suc rounds) fuel fd complete_size store s ≡ some (true, store, s2)
  unfolding recover_loop
  round_torn_header n h e e' = ground arith

  pub round_torn_payload :
      (n m : ℕ)
      → read_exact p fuel fd header_size 0 [] s ≡ some (io ok header_size 0, header, s1)
      → host_length header ≡ n
      → n ≤ default_max_payload
      → read_exact p fuel fd n 0 [] s1 ≡ some (io eof m 0, payload, s2)
      → repair_torn_tail p fuel fd complete_size s2 ≡ some (true, s3)
      → recover_loop p (suc rounds) fuel fd complete_size store s ≡ some (true, store, s3)
  unfolding recover_loop
  round_torn_payload n m e1 e2 small e3 e4 = ground arith
