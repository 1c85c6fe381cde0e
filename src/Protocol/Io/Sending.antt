-- ===== src/Protocol/Io/Sending.antt =====
-- `write_all` and `send_frame` over a descriptor that takes bytes in pieces.
use becomeasystemsengineer.Prelude.{
  length-drop, ℕ, zero, suc, ◌+◌, ◌^◌, ◌≤◌, ◌<◌, ◌≡◌, refl, Option, some, [], ◌∷◌, ◌++◌, arith,
  length, length-append, ap, sym, ◌∙◌, append_assoc, append-nil, take, drop, take-append-drop,
}
use becomeasystemsengineer.Prelude.Bytes.{Bytes}
use becomeasystemsengineer.Posix.{Posix, Reply, returns, fails, eintr, Sink, WritesWell}
use becomeasystemsengineer.Protocol.Frame.{
  frame, encode_frame-frame, length-network_length, network_length, header_size,
}
use becomeasystemsengineer.Protocol.Io.{ok, IoResult, io, write_all, send_frame}

module _ (p : Posix) (fuel fd offset b : ℕ) (input : Bytes) (s s' : p.Os) where
  round_some :
      (n : ℕ)
      → p.send fd (b ∷ input) s ≡ (returns (suc n), s')
      → write_all p (suc fuel) fd offset (b ∷ input) s
        ≡ write_all p fuel fd (offset + suc n) (drop (suc n) (b ∷ input)) s'
  unfolding write_all
  round_some n e = ground arith

  round_interrupted :
      p.send fd (b ∷ input) s ≡ (fails eintr, s')
      → write_all p (suc fuel) fd offset (b ∷ input) s ≡ write_all p fuel fd offset (b ∷ input) s'
  unfolding write_all
  round_interrupted e = ground arith

module _ (p : Posix) (fd : ℕ) (sink : Sink p p.send fd) (well : WritesWell p p.send fd) where
  open sink use {taken, signals, write_some, write_failed, write_interrupted}
  open well use {write_progress, write_fails}

  abbrev Sends : Option (IoResult × p.Os) → ℕ → Bytes → p.Os → Type 0
  Sends out size bytes s =
      (s' : p.Os) × (out ≡ some (io ok size 0, s'))
      × (taken s' ≡ taken s ++ bytes)
      × (signals s' ≤ signals s)

  data Put (bs : Bytes) (s : p.Os) : Type 0 where
    some_bytes :
        (n : ℕ) (s' : p.Os)
        → p.send fd bs s ≡ (returns (suc n), s')
        → suc n ≤ length bs
        → taken s' ≡ taken s ++ take (suc n) bs
        → signals s' ≤ signals s
        → Put bs s
    interrupted :
        (s' : p.Os)
        → p.send fd bs s ≡ (fails eintr, s')
        → taken s' ≡ taken s
        → signals s' < signals s
        → Put bs s

  Put-send : (b : ℕ) (bs : Bytes) (s : p.Os) → Put (b ∷ bs) s
  Put-send b bs s = of_reply (p.send fd (b ∷ bs) s).0 (p.send fd (b ∷ bs) s).1 refl
    where
      of_reply : (r : Reply ℕ) (s' : p.Os) → p.send fd (b ∷ bs) s ≡ (r, s') → Put (b ∷ bs) s
      of_reply (returns zero) s' e = absurd (omega (arith, write_progress b bs 0 s s' e))
      of_reply (returns (suc n)) s' e =
          let (l, t, g) = write_some (b ∷ bs) (suc n) s s' e in some_bytes n s' e l t g
      of_reply (fails errno) s' e =
          let i : p.send fd (b ∷ bs) s ≡ (fails eintr, s') =
            rw (write_fails (b ∷ bs) errno s s' e) at e in
          let (t, _) = write_failed (b ∷ bs) eintr s s' i in
          interrupted s' i t (write_interrupted (b ∷ bs) s s' i)

  -- The loop hands over all the bytes, in order and once.
  pub write_all-whole :
      (fuel offset : ℕ) (input : Bytes) (s : p.Os)
      → length input + signals s < fuel
      → Sends (write_all p fuel fd offset input s) (offset + length input) input s
  write_all-whole zero offset input s h = absurd (omega arith)
  write_all-whole (suc fuel) offset [] s h = (
    s,
    unfold write_all in ap (λ (n : ℕ). some (io ok n 0, s)) (omega arith),
    sym (append-nil _),
    omega arith,
  )
  write_all-whole (suc fuel) offset (b ∷ input) s h = elim (Put-send b input s) [
    | interrupted s' r t g ↦
        let (s'', out, t', g') = write_all-whole fuel offset (b ∷ input) s' (omega arith) in
        (
          s'',
          round_interrupted p fuel fd offset b input s s' r ∙ out,
          t' ∙ ap (λ (x : Bytes). x ++ b ∷ input) t,
          omega arith,
        )
    | some_bytes n s' r l t g ↦
        let left = length-drop (suc n) (b ∷ input) l in
        let (s'', out, t', g') =
          write_all-whole fuel (offset + suc n) (drop (suc n) (b ∷ input)) s'
            (omega (arith, left)) in
        (
          s'',
          round_some p fuel fd offset b input s s' n r
              ∙ out
              ∙ ap (λ (k : ℕ). some (io ok k 0, s'')) (omega (arith, left)),
          t'
              ∙ ap (λ (x : Bytes). x ++ drop (suc n) (b ∷ input)) t
              ∙ append_assoc (taken s) (take (suc n) (b ∷ input)) (drop (suc n) (b ∷ input))
              ∙ ap (◌++◌ (taken s)) (take-append-drop (suc n) (b ∷ input)),
          omega arith,
        )
  ]

  -- What is sent for a payload that 32 bits can measure is its frame, whole and in order, given fuel
  -- above its bytes and the signals that interrupt, on a descriptor that fails by interruption alone.
  pub send_frame-frame :
      (fuel : ℕ) (payload : Bytes) (s : p.Os)
      → length payload < 2 ^ 32
      → header_size + length payload + signals s < fuel
      → Sends (send_frame p fuel fd payload s) (header_size + length payload) (frame payload) s
  unfolding send_frame
  send_frame-frame fuel payload s fits h =
      let size : length (frame payload) ≡ header_size + length payload = omega (
        arith,
        length-append (network_length (length payload)) payload,
        length-network_length (length payload),
      ) in
      let (s', out, t, g) = write_all-whole fuel 0 (frame payload) s (omega (arith, size)) in
      (
        s',
        rw (encode_frame-frame payload fits, send_frame)
            (out ∙ ap (λ (k : ℕ). some (io ok k 0, s')) (omega (arith, size))),
        t,
        g,
      )
