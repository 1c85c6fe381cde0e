-- ===== src/Sockets/Transfers.antt =====
-- The loops of Protocol.Io on any descriptor: they end, and leave the descriptors of the process as
-- they were, whatever the calls return.
use becomeasystemsengineer.Prelude.{
  ℕ, zero, suc, ◌+◌, ◌-◌, ◌≤◌, ◌<◌, ◌≡◌, refl, inl, inr, true, Option, some, [], ◌∷◌, ◌++◌, ltb,
  ◌==◌, ==_iff, Bool-cases, arith, length, length-drop, length-append, ◌^◌, drop, ap, ◌∙◌,
}
use becomeasystemsengineer.Prelude.Bytes.{Bytes}
use becomeasystemsengineer.Posix.{Posix, Reply, returns, fails, eintr, eio, emsgsize}
use becomeasystemsengineer.Protocol.Frame.{
  header_size, host_length, frame, network_length, length-network_length, encode_frame-frame,
}
use becomeasystemsengineer.Protocol.Io.{
  IoStatus, ok, error, eof, too_large, io, io_failure, IoResult, FrameResult, read_exact, write_all,
  send_frame, recv_frame, is_ok, header_result, payload_result,
}
use becomeasystemsengineer.Sockets.{Sockets, SocketLaws, Calm, Calm-trans, Calm-refl}

module _ (p : Posix) (k : Sockets p) (l : SocketLaws p k) (fd : ℕ) where
  open l use {view, signals, read_lem, read_interrupted, send_lem, send_count, send_interrupted}

  -- The loop ends, and nothing but bytes and signals has changed.
  abbrev pub EndsCalm : {A : Type 0} → Option (A × p.Os) → p.Os → Type 0
  EndsCalm {A} out s = (r : A) × (s' : p.Os) × (out ≡ some (r, s')) × Calm view s s'

  pub write_all-EndsCalm :
      (fuel offset : ℕ) (input : Bytes) (s : p.Os)
      → length input + signals s < fuel
      → EndsCalm (write_all p fuel fd offset input s) s
  write_all-EndsCalm zero offset input s h = absurd (omega arith)
  write_all-EndsCalm (suc fuel) offset [] s h =
      (io ok offset 0, s, unfold write_all in refl, Calm-refl view s)
  write_all-EndsCalm (suc fuel) offset (b ∷ input) s h =
      of_reply (p.send fd (b ∷ input) s).0 (p.send fd (b ∷ input) s).1 refl
        (send_lem fd (b ∷ input) s) (λ offset' input' s'. write_all-EndsCalm fuel offset' input' s')
    where
      of_reply :
          (r : Reply ℕ) (s' : p.Os)
          → p.send fd (b ∷ input) s ≡ (r, s')
          → Calm view s s'
          → ((offset' : ℕ) (input' : Bytes) (s1 : p.Os)
              → length input' + signals s1 < fuel
              → EndsCalm (write_all p fuel fd offset' input' s1) s1)
          → EndsCalm (write_all p (suc fuel) fd offset (b ∷ input) s) s
      of_reply (returns zero) s' e calm ih =
          (io error offset eio, s', unfold write_all in ground (arith, e), calm)
      of_reply (returns (suc n)) s' e calm ih =
          let few = send_count fd (suc n) (b ∷ input) s s' e in
          let left = length-drop (suc n) (b ∷ input) few in
          let less = calm.2 in
          let (r, s'', out, calm') =
            ih (offset + suc n) (drop (suc n) (b ∷ input)) s' (omega (arith, left, less, h)) in
          (r, s'', unfold write_all in ground (arith, e, out), Calm-trans view s s' s'' calm calm')
      of_reply (fails errno) s' e calm ih = elim (Bool-cases (errno == eintr)) [
        | inr other ↦
            (io_failure offset errno, s', unfold write_all in ground (arith, e, other), calm)
        | inl again ↦
            let fewer =
              send_interrupted fd (b ∷ input) s s' (rw ((==_iff errno eintr).0 again) at e) in
            let (r, s'', out, calm') = ih offset (b ∷ input) s' (omega (arith, fewer, h)) in
            (
              r,
              s'',
              unfold write_all in ground (arith, e, again, out),
              Calm-trans view s s' s'' calm calm',
            )
      ]

  -- The loop ends, with some bytes, and nothing but bytes and signals has changed.
  abbrev Reads : Option (IoResult × Bytes × p.Os) → p.Os → Type 0
  Reads out s =
      (r : IoResult) × (bytes : Bytes) × (s' : p.Os) × (out ≡ some (r, bytes, s')) × Calm view s s'

  read_exact-Reads :
      (fuel size offset : ℕ) (output : Bytes) (s : p.Os)
      → size - offset + signals s < fuel
      → Reads (read_exact p fuel fd size offset output s) s
  read_exact-Reads zero size offset output s h = absurd (omega arith)
  read_exact-Reads (suc fuel) size offset output s h = elim (Bool-cases (ltb offset size)) [
    | inr end ↦
        (io ok offset 0, output, s, unfold read_exact in ground (arith, end), Calm-refl view s)
    | inl more ↦
        of_reply more (p.read fd (size - offset) s).0 (p.read fd (size - offset) s).1 refl
          (read_lem fd (size - offset) s)
          (λ offset' output' s'. read_exact-Reads fuel size offset' output' s')
  ]
    where
      of_reply :
          ltb offset size ≡ true
          → (r : Reply Bytes) (s' : p.Os) → p.read fd (size - offset) s ≡ (r, s')
          → Calm view s s'
          → ((offset' : ℕ) (output' : Bytes) (s1 : p.Os)
              → size - offset' + signals s1 < fuel
              → Reads (read_exact p fuel fd size offset' output' s1) s1)
          → Reads (read_exact p (suc fuel) fd size offset output s) s
      of_reply more (returns []) s' e calm ih =
          (io eof offset 0, output, s', unfold read_exact in ground (arith, more, e), calm)
      of_reply more (returns (b ∷ bs)) s' e calm ih =
          let less = calm.2 in
          let below : offset < size = ground (arith, more) in
          let (r, bytes, s'', out, calm') =
            ih (offset + length (b ∷ bs)) (output ++ b ∷ bs) s' (omega (arith, less, h, below)) in
          (
            r,
            bytes,
            s'',
            unfold read_exact in ground (arith, more, e, out),
            Calm-trans view s s' s'' calm calm',
          )
      of_reply more (fails errno) s' e calm ih = elim (Bool-cases (errno == eintr)) [
        | inr other ↦ (
          io_failure offset errno,
          output,
          s',
          unfold read_exact in ground (arith, more, e, other),
          calm,
        )
        | inl again ↦
            let fewer =
              read_interrupted fd (size - offset) s s' (rw ((==_iff errno eintr).0 again) at e) in
            let (r, bytes, s'', out, calm') = ih offset output s' (omega (arith, fewer, h)) in
            (
              r,
              bytes,
              s'',
              unfold read_exact in ground (arith, more, e, again, out),
              Calm-trans view s s' s'' calm calm',
            )
      ]

  pub send_frame-EndsCalm :
      (fuel : ℕ) (payload : Bytes) (s : p.Os)
      → length payload < 2 ^ 32
      → header_size + length payload + signals s < fuel
      → EndsCalm (send_frame p fuel fd payload s) s
  send_frame-EndsCalm fuel payload s fits h =
      let size = length-append (network_length (length payload)) payload in
      let four = length-network_length (length payload) in
      let (r, s', out, calm) =
        write_all-EndsCalm fuel 0 (frame payload) s (omega (arith, size, four, h)) in
      (
        r,
        s',
        let framed = encode_frame-frame payload fits in
            unfold send_frame in ground (arith, framed, out),
        calm,
      )

  abbrev refused : IoStatus → ℕ → FrameResult
  refused status errno = record { status = status; payload = []; error_number = errno }

  payload_end :
      (r : IoResult) (payload : Bytes) (s : p.Os)
      → (r' : FrameResult) × (payload_result p (some (r, payload, s)) ≡ some (r', s))
  payload_end r payload s = elim (Bool-cases (is_ok p r.status)) [
    | inr failed ↦ (refused r.status r.error_number, rw failed refl)
    | inl good ↦ (record { status = ok; payload = payload; error_number = 0 }, rw good refl)
  ]

  pub recv_frame-EndsCalm :
      (fuel max_payload : ℕ) (s : p.Os)
      → header_size + max_payload + signals s < fuel
      → EndsCalm (recv_frame p fuel fd max_payload s) s
  recv_frame-EndsCalm fuel max_payload s h =
      let (r, header, s', out, calm) = read_exact-Reads fuel header_size 0 [] s (omega arith) in
      let less = calm.2 in
      let (r', s'', out', calm') = of_header r header s' (omega (arith, less, h)) in
      (
        r',
        s'',
        unfold recv_frame in (ap (header_result p fuel fd max_payload) out ∙ out'),
        Calm-trans view s s' s'' calm calm',
      )
    where
      of_header :
          (r : IoResult) (header : Bytes) (s1 : p.Os)
          → max_payload + signals s1 < fuel
          → EndsCalm (header_result p fuel fd max_payload (some (r, header, s1))) s1
      of_header r header s1 h1 = elim (Bool-cases (is_ok p r.status)) [
        | inr failed ↦ (refused r.status r.error_number, s1, rw failed refl, Calm-refl view s1)
        | inl good ↦ elim (Bool-cases (ltb max_payload (host_length header))) [
          | inl large ↦ (refused too_large emsgsize, s1, rw (good, large) refl, Calm-refl view s1)
          | inr fits ↦
              let size = host_length header in
              let below : size ≤ max_payload = ground (arith, fits) in
              let (r', payload, s2, out, calm) =
                read_exact-Reads fuel size 0 [] s1 (omega (arith, below, h1)) in
              let (r'', end) = payload_end r' payload s2 in
              (r'', s2, rw (good, fits, out) end, calm)
        ]
      ]
