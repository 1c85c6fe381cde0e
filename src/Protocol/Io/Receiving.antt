-- ===== src/Protocol/Io/Receiving.antt =====
-- `recv_frame` over a stream that is interrupted only finitely often.
use becomeasystemsengineer.Prelude.{
  ℕ, ◌+◌, ◌^◌, ◌≤◌, ◌<◌, ◌≡◌, refl, some, [], ◌++◌, arith, length, ◌∙◌, append_assoc,
}
use becomeasystemsengineer.Prelude.Bytes.{Bytes}
use becomeasystemsengineer.Posix.{Posix, emsgsize, Stream, ReadsWell}
use becomeasystemsengineer.Protocol.Frame.{
  header_size, network_length, frame, host_length-network_length, length-network_length,
}
use becomeasystemsengineer.Protocol.Io.{
  IoStatus, ok, eof, too_large, FrameResult, io, read_exact, recv_frame,
}
use becomeasystemsengineer.Protocol.Io.Reading.{read_exact-whole, read_exact-short}

abbrev pub received : IoStatus → Bytes → ℕ → FrameResult
received status payload errno = record { status = status; payload = payload; error_number = errno }

module _ (p : Posix) (fd : ℕ) (stream : Stream p fd) (well : ReadsWell p fd) where
  open stream use {unread, signals}

  abbrev pub Receives : ℕ → ℕ → p.Os → FrameResult → Bytes → Type 0
  Receives fuel max_payload s r rest =
      (s' : p.Os) × (recv_frame p fuel fd max_payload s ≡ some (r, s'))
      × (unread s' ≡ rest)
      × (signals s' ≤ signals s)

  -- The header is read whole, and what follows depends on it.
  header_read :
      (fuel n : ℕ) (rest : Bytes) (s : p.Os)
      → unread s ≡ network_length n ++ rest
      → header_size + signals s < fuel
      → (s' : p.Os) × (read_exact p fuel fd header_size 0 [] s
          ≡ some (io ok header_size 0, network_length n, s'))
        × (unread s' ≡ rest)
        × (signals s' ≤ signals s)
  header_read fuel n rest s u h =
      read_exact-whole p fd stream well fuel header_size 0 [] (network_length n) rest s u
        (omega (arith, length-network_length n)) (omega (arith, length-network_length n))

  -- A frame within the limit is received whole, given fuel above its bytes and the signals that
  -- interrupt, and nothing behind it is read.
  pub recv_frame-frame :
      (fuel max_payload : ℕ) (payload rest : Bytes) (s : p.Os)
      → unread s ≡ frame payload ++ rest
      → length payload ≤ max_payload
      → length payload < 2 ^ 32
      → header_size + length payload + signals s < fuel
      → Receives fuel max_payload s (received ok payload 0) rest
  unfolding recv_frame
  recv_frame-frame fuel max_payload payload rest s u small fits h =
      let n : ℕ = length payload in
      let (s1, e1, u1, g1) =
        header_read fuel n (payload ++ rest) s (u ∙ append_assoc (network_length n) payload rest)
          (omega arith) in
      let (s2, e2, u2, g2) =
        read_exact-whole p fd stream well fuel n 0 [] payload rest s1 u1 (omega arith)
          (omega arith) in
      (s2, rw (e1, host_length-network_length n fits) (ground (arith, e2)), u2, omega arith)

  -- A length above the limit is refused before anything of the payload is read, given fuel above the
  -- header and the signals that interrupt.
  pub recv_frame-too_large :
      (fuel max_payload n : ℕ) (rest : Bytes) (s : p.Os)
      → unread s ≡ network_length n ++ rest
      → max_payload < n
      → n < 2 ^ 32
      → header_size + signals s < fuel
      → Receives fuel max_payload s (received too_large [] emsgsize) rest
  unfolding recv_frame
  recv_frame-too_large fuel max_payload n rest s u large fits h =
      let (s1, e1, u1, g1) = header_read fuel n rest s u h in
      (s1, rw (e1, host_length-network_length n fits) (ground arith), u1, g1)

  -- A stream that ends within the header, or at once, is the end.
  pub recv_frame-no_header :
      (fuel max_payload : ℕ) (s : p.Os)
      → length (unread s) < header_size
      → header_size + signals s + 1 < fuel
      → Receives fuel max_payload s (received eof [] 0) []
  unfolding recv_frame
  recv_frame-no_header fuel max_payload s short h =
      let (s1, e1, u1, g1) =
        read_exact-short p fd stream well fuel header_size 0 [] (unread s) s refl (omega arith)
          (omega arith) in
      (s1, rw e1, u1, g1)

  -- A stream that ends within the payload is the end, and no part of the payload is delivered, given
  -- fuel above the announced bytes and the signals that interrupt.
  pub recv_frame-torn :
      (fuel max_payload n : ℕ) (part : Bytes) (s : p.Os)
      → unread s ≡ network_length n ++ part
      → length part < n
      → n ≤ max_payload
      → n < 2 ^ 32
      → header_size + n + signals s + 1 < fuel
      → Receives fuel max_payload s (received eof [] 0) []
  unfolding recv_frame
  recv_frame-torn fuel max_payload n part s u short small fits h =
      let (s1, e1, u1, g1) = header_read fuel n part s u (omega arith) in
      let (s2, e2, u2, g2) =
        read_exact-short p fd stream well fuel n 0 [] part s1 u1 (omega arith) (omega arith) in
      (s2, rw (e1, host_length-network_length n fits) (ground (arith, e2)), u2, omega arith)
