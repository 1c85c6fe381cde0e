-- ===== src/Wal/Appending.antt =====
-- Appending: `Wal::append_record` writes a whole frame and syncs it, or stops the log for good.
use becomeasystemsengineer.Prelude.{
  length-drop, ℕ, zero, suc, ◌+◌, ◌^◌, ◌≤◌, ◌<◌, ◌≡◌, ◌≢◌, refl, inl, inr, Bool, true, false,
  Option, some, [], ◌∷◌, ◌++◌, arith, length, length-append, take, drop, ap, append_assoc, ◌∙◌, sym,
  append-nil, Bool-cases, ==_iff, ◌==◌,
}
use becomeasystemsengineer.Prelude.Bytes.{Bytes}
use becomeasystemsengineer.Posix.{Posix, Reply, returns, fails, eintr, Sink}
use becomeasystemsengineer.UniqueFd.{UniqueFd, no_fd, owning, reset}
use becomeasystemsengineer.Protocol.Frame.{
  frame, encode_frame-frame, network_length, length-network_length, header_size,
}
use becomeasystemsengineer.Protocol.Command.RoundTrip.{is_empty-ne-nil}
use becomeasystemsengineer.Wal.{
  Wal, write_file_all, sync_file, and_then, append_record, append_result,
}

-- A file that is appended to. Syncing and closing leave its bytes; both may fail.
pub record AppendFile (p : Posix) (fd : ℕ) : Type 0 where
  pub sink : Sink p p.write fd
  pub open sink use *
  pub taken-fsync :
      (r : Reply (Unit {0})) (s s' : p.Os)
      → p.fsync fd s ≡ (r, s')
      → (taken s' ≡ taken s) × (signals s' ≤ signals s)
  pub fsync_interrupted : (s s' : p.Os) → p.fsync fd s ≡ (fails eintr, s') → signals s' < signals s
  pub taken-close : (s : p.Os) → taken (p.close fd s) ≡ taken s

module _ (p : Posix) (fd : ℕ) (file : AppendFile p fd) where
  open file use {
    taken, signals, write_some, write_failed, write_interrupted, taken-fsync, fsync_interrupted,
    taken-close,
  }

  -- Some of the bytes were appended, and all of them if the result is true.
  abbrev Writes : Option (Bool × p.Os) → Bytes → p.Os → Type 0
  Writes out bytes s =
      (done : Bool) × (s' : p.Os) × (k : ℕ) × (out ≡ some (done, s'))
      × (taken s' ≡ taken s ++ take k bytes)
      × (k ≤ length bytes)
      × (done ≡ true → k ≡ length bytes)
      × (signals s' ≤ signals s)

  take-drop :
      (n k : ℕ) (bs : Bytes) → n ≤ length bs → take n bs ++ take k (drop n bs) ≡ take (n + k) bs
  take-drop zero k bs h = let e : k ≡ 0 + k = omega arith in ap (λ (j : ℕ). take j bs) e
  take-drop (suc n) k [] h = absurd (omega arith)
  take-drop (suc n) k (b ∷ bs) h =
      let e : suc (n + k) ≡ suc n + k = omega arith in
      ap (λ (t : Bytes). b ∷ t) (take-drop n k bs (omega arith)) ∙ ap (λ (j : ℕ). take j (b ∷ bs)) e

  write_file_all-Writes :
      (fuel : ℕ) (bytes : Bytes) (s : p.Os)
      → length bytes + signals s < fuel
      → Writes (write_file_all p fuel fd bytes s) bytes s
  write_file_all-Writes zero bytes s h = absurd (omega arith)
  write_file_all-Writes (suc fuel) [] s h = (
    true,
    s,
    0,
    unfold write_file_all in refl,
    sym (append-nil _),
    omega arith,
    (λ e. refl),
    omega arith,
  )
  write_file_all-Writes (suc fuel) (b ∷ bytes) s h =
      of_reply (p.write fd (b ∷ bytes) s).0 (p.write fd (b ∷ bytes) s).1 refl
        (λ bytes' s'. write_file_all-Writes fuel bytes' s')
    where
      of_reply :
          (r : Reply ℕ) (s' : p.Os)
          → p.write fd (b ∷ bytes) s ≡ (r, s')
          → ((bytes' : Bytes) (s1 : p.Os)
              → length bytes' + signals s1 < fuel
              → Writes (write_file_all p fuel fd bytes' s1) bytes' s1)
          → Writes (write_file_all p (suc fuel) fd (b ∷ bytes) s) (b ∷ bytes) s
      of_reply (returns zero) s' e ih =
          let (l, t, g) = write_some (b ∷ bytes) 0 s s' e in
          (false, s', 0, unfold write_file_all in ground arith, t, omega arith, (λ q. cc), g)
      of_reply (returns (suc n)) s' e ih =
          let (l, t, g) = write_some (b ∷ bytes) (suc n) s s' e in
          let left = length-drop (suc n) (b ∷ bytes) l in
          let (done, s'', k, out, t', kl, all_of, g') =
            ih (drop (suc n) (b ∷ bytes)) s' (omega (arith, left)) in
          (
            done,
            s'',
            suc n + k,
            unfold write_file_all in ground (arith, out),
            t'
                ∙ ap (λ (x : Bytes). x ++ take k (drop (suc n) (b ∷ bytes))) t
                ∙ append_assoc (taken s) (take (suc n) (b ∷ bytes))
                    (take k (drop (suc n) (b ∷ bytes)))
                ∙ ap (◌++◌ (taken s)) (take-drop (suc n) k (b ∷ bytes) l),
            omega (arith, left),
            (λ q. omega (arith, left, all_of q)),
            omega arith,
          )
      of_reply (fails errno) s' e ih =
          let (t, g) = write_failed (b ∷ bytes) errno s s' e in
          elim (Bool-cases (errno == eintr)) [
            | inr other_error ↦ (
              false,
              s',
              0,
              unfold write_file_all in ground arith,
              t ∙ sym (append-nil (taken s)),
              omega arith,
              (λ q. cc),
              g,
            )
            | inl again ↦
                let i : p.write fd (b ∷ bytes) s ≡ (fails eintr, s') =
                  rw ((==_iff errno eintr).0 again) at e in
                let fewer = write_interrupted (b ∷ bytes) s s' i in
                let (done, s'', k, out, t', kl, all_of, g') = ih (b ∷ bytes) s' (omega arith) in
                (
                  done,
                  s'',
                  k,
                  unfold write_file_all in ground (arith, out),
                  t' ∙ ap (λ (x : Bytes). x ++ take k (b ∷ bytes)) t,
                  kl,
                  all_of,
                  omega arith,
                )
          ]

  abbrev Syncs : Option (Bool × p.Os) → p.Os → Type 0
  Syncs out s =
      (done : Bool) × (s' : p.Os) × (out ≡ some (done, s'))
      × (taken s' ≡ taken s)
      × (signals s' ≤ signals s)

  sync_file-Syncs : (fuel : ℕ) (s : p.Os) → signals s < fuel → Syncs (sync_file p fuel fd s) s
  sync_file-Syncs zero s h = absurd (omega arith)
  sync_file-Syncs (suc fuel) s h =
      of_reply (p.fsync fd s).0 (p.fsync fd s).1 refl (λ s'. sync_file-Syncs fuel s')
    where
      of_reply :
          (r : Reply (Unit {0})) (s' : p.Os)
          → p.fsync fd s ≡ (r, s')
          → ((s1 : p.Os) → signals s1 < fuel → Syncs (sync_file p fuel fd s1) s1)
          → Syncs (sync_file p (suc fuel) fd s) s
      of_reply (returns u) s' e ih =
          let (t, g) = taken-fsync (returns u) s s' e in
          (true, s', unfold sync_file in ground arith, t, g)
      of_reply (fails errno) s' e ih =
          let (t, g) = taken-fsync (fails errno) s s' e in
          elim (Bool-cases (errno == eintr)) [
            | inr other_error ↦ (false, s', unfold sync_file in ground arith, t, g)
            | inl again ↦
                let fewer = fsync_interrupted s s' (rw ((==_iff errno eintr).0 again) at e) in
                let (done, s'', out, t', g') = ih s' (omega arith) in
                (done, s'', unfold sync_file in ground (arith, out), t' ∙ t, omega arith)
          ]

  -- The log after an append: the whole frame is in the file and the log goes on, or some part of
  -- it is and the log has stopped.
  pub data Appended (w : Wal) (entry : Bytes) (s : p.Os) (out : Option (Bool × Wal × p.Os))
      : Type 0 where
    kept_whole :
        (s' : p.Os)
        → out ≡ some (true, w, s')
        → taken s' ≡ taken s ++ frame entry
        → signals s' ≤ signals s
        → Appended w entry s out
    stopped :
        (s' : p.Os) (k : ℕ)
        → out ≡ some (false, record w { fd = no_fd }, s')
        → taken s' ≡ taken s ++ take k (frame entry)
        → k ≤ length (frame entry)
        → Appended w entry s out

  pub take-all : (bs : Bytes) (k : ℕ) → k ≡ length bs → take k bs ≡ bs
  take-all [] k e = ap (λ (j : ℕ). take j []) e
  take-all (b ∷ bs) zero e = absurd (omega arith)
  take-all (b ∷ bs) (suc k) e = ap (λ (t : Bytes). b ∷ t) (take-all bs k (omega arith))

  -- An append to an open log returns, given fuel above the bytes of the frame and the signals that
  -- interrupt, and leaves the whole frame in the file or has stopped the log.
  pub append_record-Appended :
      (fuel : ℕ) (w : Wal) (entry : Bytes) (s : p.Os)
      → w.path ≢ []
      → w.fd ≡ owning fd
      → length entry < 2 ^ 32
      → header_size + length entry + signals s < fuel
      → Appended w entry s (append_record p fuel w entry s)
  append_record-Appended fuel w entry s named owned fits h =
      let (done, s1, k, out, t, kl, whole, g) =
        write_file_all-Writes fuel (frame entry) s (omega (arith, size)) in
      after_write done s1 k out t kl whole g
    where
      size : length (frame entry) ≡ header_size + length entry
      size = omega (
        arith,
        length-append (network_length (length entry)) entry,
        length-network_length (length entry),
      )

      starts :
          append_record p fuel w entry s
          ≡ append_result p w
              (and_then p (write_file_all p fuel fd (frame entry) s) (sync_file p fuel fd))
      starts =
          unfold append_record in
          ground (
            arith,
            is_empty-ne-nil w.path named,
            encode_frame-frame entry fits,
            ap (λ (u : UniqueFd). u.fd) owned,
          )

      old_fd : w.fd.fd ≡ some fd
      old_fd = ap (λ (u : UniqueFd). u.fd) owned

      after_sync :
          (done : Bool) (s1 s2 : p.Os) (k : ℕ)
          → write_file_all p fuel fd (frame entry) s ≡ some (true, s1)
          → sync_file p fuel fd s1 ≡ some (done, s2)
          → taken s2 ≡ taken s ++ take k (frame entry)
          → k ≡ length (frame entry)
          → signals s2 ≤ signals s
          → Appended w entry s (append_record p fuel w entry s)
      after_sync true s1 s2 k out out' t whole g =
          kept_whole s2 (starts ∙ ground (arith, out, out'))
            (t ∙ ap (◌++◌ (taken s)) (take-all (frame entry) k whole)) g
      after_sync false s1 s2 k out out' t whole g =
          stopped (p.close fd s2) k (starts ∙ unfold reset in ground (arith, out, out', old_fd))
            (taken-close s2 ∙ t) (omega arith)

      after_write :
          (done : Bool) (s1 : p.Os) (k : ℕ)
          → write_file_all p fuel fd (frame entry) s ≡ some (done, s1)
          → taken s1 ≡ taken s ++ take k (frame entry)
          → k ≤ length (frame entry)
          → (done ≡ true → k ≡ length (frame entry))
          → signals s1 ≤ signals s
          → Appended w entry s (append_record p fuel w entry s)
      after_write false s1 k out t kl whole g =
          stopped (p.close fd s1) k (starts ∙ unfold reset in ground (arith, out, old_fd))
            (taken-close s1 ∙ t) kl
      after_write true s1 k out t kl whole g =
          let (done, s2, out', t', g') = sync_file-Syncs fuel s1 (omega arith) in
          after_sync done s1 s2 k out out' (t' ∙ t) (whole refl) (omega arith)

-- A log that has stopped takes no record any more, and touches nothing.
pub append_record-stopped :
    (p : Posix) (fuel : ℕ) (w : Wal) (entry : Bytes) (s : p.Os)
    → w.path ≢ []
    → w.fd ≡ no_fd
    → append_record p fuel w entry s ≡ some (false, w, s)
unfolding append_record
append_record-stopped p fuel w entry s named closed =
    ground (arith, is_empty-ne-nil w.path named, ap (λ (u : UniqueFd). u.fd) closed)
