-- ===== src/Protocol/Io/Reading.antt =====
-- `read_exact` and `recv_frame` over a stream that is interrupted only finitely often.
use becomeasystemsengineer.Prelude.{
  ℕ, zero, suc, ◌+◌, ◌-◌, ◌≤◌, ◌<◌, ◌≡◌, refl, false, Option, some, [], ◌∷◌, ◌++◌, arith, ◌==◌,
  length, length-append, ap, sym, ◌∙◌, append_assoc, append-nil, ap₂,
}
use becomeasystemsengineer.Prelude.Bytes.{Bytes}
use becomeasystemsengineer.Posix.{Posix, Reply, returns, fails, eintr, Stream, ReadsWell}
use becomeasystemsengineer.Protocol.Io.{ok, eof, IoResult, io, io_failure, read_exact}

-- A prefix that is no longer than another is a prefix of it.
prefix-split :
    (bs u xs rest : Bytes)
    → xs ++ rest ≡ bs ++ u
    → length bs ≤ length xs
    → (ys : Bytes) × (xs ≡ bs ++ ys) × (u ≡ ys ++ rest)
prefix-split [] u xs rest e h = (xs, refl, sym e)
prefix-split (b ∷ bs) u [] rest e h = absurd (omega arith)
prefix-split (b ∷ bs) u (x ∷ xs) rest e h =
    let (ys, f, g) = prefix-split bs u xs rest (cc) (omega arith) in (ys, cc, g)

-- The ways in which a round of `read_exact` goes on.
module _ (p : Posix) (fuel fd size offset : ℕ) (output : Bytes) (s s' : p.Os) where
  pub round_done :
      size ≤ offset
      → read_exact p (suc fuel) fd size offset output s ≡ some (io ok offset 0, output, s)
  unfolding read_exact
  round_done h = ground arith

  pub round_some :
      (b : ℕ) (bs : Bytes)
      → offset < size
      → p.read fd (size - offset) s ≡ (returns (b ∷ bs), s')
      → read_exact p (suc fuel) fd size offset output s
        ≡ read_exact p fuel fd size (offset + length (b ∷ bs)) (output ++ b ∷ bs) s'
  unfolding read_exact
  round_some b bs h e = ground arith

  pub round_end :
      offset < size
      → p.read fd (size - offset) s ≡ (returns [], s')
      → read_exact p (suc fuel) fd size offset output s ≡ some (io eof offset 0, output, s')
  unfolding read_exact
  round_end h e = ground arith

  pub round_interrupted :
      offset < size
      → p.read fd (size - offset) s ≡ (fails eintr, s')
      → read_exact p (suc fuel) fd size offset output s ≡ read_exact p fuel fd size offset output s'
  unfolding read_exact
  round_interrupted h e = ground arith

  pub round_failed :
      (errno : ℕ)
      → offset < size
      → p.read fd (size - offset) s ≡ (fails errno, s')
      → (errno == eintr) ≡ false
      → read_exact p (suc fuel) fd size offset output s ≡ some (io_failure offset errno, output, s')
  unfolding read_exact
  round_failed errno h e n = ground arith

module _ (p : Posix) (fd : ℕ) (stream : Stream p fd) (well : ReadsWell p fd) where
  open p use {Os, read}
  open stream use {unread, signals, read_some, read_end, read_interrupted}

  -- One call of `read` for `n` bytes, `n` not 0.
  data Got (n : ℕ) (s : Os) : Type 0 where
    some_bytes :
        (b : ℕ) (bs : Bytes) (s' : Os)
        → read fd n s ≡ (returns (b ∷ bs), s')
        → unread s ≡ (b ∷ bs) ++ unread s'
        → length (b ∷ bs) ≤ n
        → signals s' ≤ signals s
        → Got n s
    the_end :
        (s' : Os)
        → read fd n s ≡ (returns [], s')
        → unread s ≡ []
        → unread s' ≡ []
        → signals s' ≤ signals s
        → Got n s
    interrupted :
        (s' : Os)
        → read fd n s ≡ (fails eintr, s')
        → unread s' ≡ unread s
        → signals s' < signals s
        → Got n s

  Got-read : (n : ℕ) (s : Os) → 0 < n → Got n s
  Got-read n s pos = of_reply (read fd n s).0 (read fd n s).1 refl
    where
      of_reply : (r : Reply Bytes) (s' : Os) → read fd n s ≡ (r, s') → Got n s
      of_reply (returns []) s' e =
          let (u, _, sig) = read_some n [] s s' pos e in
          let end = read_end n s s' pos e in the_end s' e end (sym u ∙ end) sig
      of_reply (returns (b ∷ bs)) s' e =
          let (u, l, sig) = read_some n (b ∷ bs) s s' pos e in some_bytes b bs s' e u l sig
      of_reply (fails errno) s' e =
          let i : read fd n s ≡ (fails eintr, s') = rw (well n errno s s' e) at e in
          let (u, sig) = read_interrupted n s s' i in interrupted s' i u sig

  abbrev Finished : Option (IoResult × Bytes × Os) → IoResult → Bytes → Bytes → Os → Type 0
  Finished out r output rest s =
      (s' : Os) × (out ≡ some (r, output, s')) × (unread s' ≡ rest) × (signals s' ≤ signals s)

  -- With enough bytes to come the loop reads exactly those that it lacks.
  pub read_exact-whole :
      (fuel size offset : ℕ) (output xs rest : Bytes) (s : Os)
      → unread s ≡ xs ++ rest
      → offset + length xs ≡ size
      → length xs + signals s < fuel
      → Finished (read_exact p fuel fd size offset output s) (io ok size 0) (output ++ xs) rest s
  read_exact-whole zero size offset output xs rest s u e h = absurd (omega arith)
  read_exact-whole (suc fuel) size offset output [] rest s u e h =
      let same_offset : offset ≡ size = omega arith in
      (
        s,
        round_done p fuel fd size offset output s s (omega arith)
            ∙ ap₂ (λ (n : ℕ) (t : Bytes). some (io ok n 0, t, s)) same_offset
                (sym (append-nil output)),
        u,
        omega arith,
      )
  read_exact-whole (suc fuel) size offset output (x ∷ xs) rest s u e h =
      elim (Got-read (size - offset) s (omega arith)) [
        | the_end s' r u' _ _ ↦ absurd (omega (arith, ap length (sym u' ∙ u)))
        | interrupted s' r u' sig ↦
            let (s'', out, v, sig') =
              read_exact-whole fuel size offset output (x ∷ xs) rest s' (u' ∙ u) e (omega arith) in
            (
              s'',
              round_interrupted p fuel fd size offset output s s' (omega arith) r ∙ out,
              v,
              omega arith,
            )
        | some_bytes b bs s' r u' l sig ↦
            let (ys, f, g) =
              prefix-split (b ∷ bs) (unread s') (x ∷ xs) rest (sym u ∙ u') (omega arith) in
            let lengths : length (x ∷ xs) ≡ length (b ∷ bs) + length ys =
              ap length f ∙ length-append (b ∷ bs) ys in
            let (s'', out, v, sig') =
              read_exact-whole fuel size (offset + length (b ∷ bs)) (output ++ b ∷ bs) ys rest s' g
                (omega (arith, lengths)) (omega (arith, lengths)) in
            (
              s'',
              round_some p fuel fd size offset output s s' b bs (omega arith) r
                  ∙ out
                  ∙ ap (λ (t : Bytes). some (io ok size 0, t, s''))
                      (append_assoc output (b ∷ bs) ys ∙ ap (◌++◌ output) (sym f)),
              v,
              omega arith,
            )
      ]

  -- With too few bytes to come the loop reads them all and reports the end of the stream.
  pub read_exact-short :
      (fuel size offset : ℕ) (output xs : Bytes) (s : Os)
      → unread s ≡ xs
      → offset + length xs < size
      → length xs + signals s + 1 < fuel
      → Finished
          (read_exact p fuel fd size offset output s)
          (io eof (offset + length xs) 0)
          (output ++ xs)
          []
          s
  read_exact-short zero size offset output xs s u e h = absurd (omega arith)
  read_exact-short (suc fuel) size offset output xs s u e h =
      elim (Got-read (size - offset) s (omega arith)) [
        | the_end s' r u' v sig ↦
            let empty : xs ≡ [] = sym u ∙ u' in
            (
              s',
              round_end p fuel fd size offset output s s' (omega arith) r
                  ∙ ap₂ (λ (n : ℕ) (t : Bytes). some (io eof n 0, t, s'))
                      (omega (arith, ap length empty))
                      (sym (append-nil output) ∙ ap (◌++◌ output) (sym empty)),
              v,
              sig,
            )
        | interrupted s' r u' sig ↦
            let (s'', out, v, sig') =
              read_exact-short fuel size offset output xs s' (u' ∙ u) e (omega arith) in
            (
              s'',
              round_interrupted p fuel fd size offset output s s' (omega arith) r ∙ out,
              v,
              omega arith,
            )
        | some_bytes b bs s' r u' l sig ↦
            let f : xs ≡ (b ∷ bs) ++ unread s' = sym u ∙ u' in
            let lengths : length xs ≡ length (b ∷ bs) + length (unread s') =
              ap length f ∙ length-append (b ∷ bs) (unread s') in
            let (s'', out, v, sig') =
              read_exact-short fuel size (offset + length (b ∷ bs)) (output ++ b ∷ bs) (unread s')
                s' refl (omega (arith, lengths)) (omega (arith, lengths)) in
            (
              s'',
              round_some p fuel fd size offset output s s' b bs (omega arith) r
                  ∙ out
                  ∙ ap₂ (λ (n : ℕ) (t : Bytes). some (io eof n 0, t, s'')) (omega (arith, lengths))
                      (append_assoc output (b ∷ bs) (unread s') ∙ ap (◌++◌ output) (sym f)),
              v,
              omega arith,
            )
      ]
