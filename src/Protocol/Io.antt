-- ===== src/Protocol/Io.antt =====
-- The blocking I/O of capstone/reference/src/protocol.cpp: read_exact, write_all, recv_frame and
-- send_frame. The loops take fuel, since a call may be interrupted any number of times; `none` is
-- the end of the fuel.
pub mod Reading
pub mod Receiving
pub mod Sending
use becomeasystemsengineer.Prelude.{
  ℕ, zero, suc, ◌+◌, ◌-◌, Bool, true, false, ◌||◌, Option, none, some, List, [], ◌∷◌, ◌++◌, ltb,
  ◌==◌, if◌then◌else◌, length, drop,
}
use becomeasystemsengineer.Prelude.Bytes.{Bytes}
use becomeasystemsengineer.Posix.{
  Posix, Reply, returns, fails, eintr, eio, eagain, ewouldblock, emsgsize,
}
use becomeasystemsengineer.Protocol.Frame.{header_size, host_length, encode_frame}

pub data IoStatus : Type 0 where
  ok eof would_block error too_large malformed : IoStatus

pub record IoResult : Type 0 where
  pub status : IoStatus
  pub bytes : ℕ
  pub error_number : ℕ

pub record FrameResult : Type 0 where
  pub status : IoStatus
  pub payload : Bytes
  pub error_number : ℕ

abbrev pub io : IoStatus → ℕ → ℕ → IoResult
io status bytes error_number = record {
  status = status;
  bytes = bytes;
  error_number = error_number;
}

-- The result for an `errno` that is no interruption.
abbrev pub io_failure : ℕ → ℕ → IoResult
io_failure offset errno =
    if errno == eagain || errno == ewouldblock
    then io would_block offset errno
    else io error offset errno

module _ (p : Posix) where
  open p use {Os, read, send}

  -- `output` are the bytes that the span holds so far.
  unfoldable pub read_exact : ℕ → ℕ → ℕ → ℕ → Bytes → Os → Option (IoResult × Bytes × Os)
  read_exact zero fd size offset output s = none
  read_exact (suc fuel) fd size offset output s = elim (ltb offset size) [
    | false ↦ some (io ok offset 0, output, s)
    | true ↦
        let (reply, s') = read fd (size - offset) s in
        elim reply [
          | returns [] ↦ some (io eof offset 0, output, s')
          | returns (b ∷ bs) ↦
              read_exact fuel fd size (offset + length (b ∷ bs)) (output ++ b ∷ bs) s'
          | fails errno ↦ elim (errno == eintr) [
            | true ↦ read_exact fuel fd size offset output s'
            | false ↦ some (io_failure offset errno, output, s')
          ]
        ]
  ]

  -- `input` are the bytes from `offset` on.
  unfoldable pub write_all : ℕ → ℕ → ℕ → Bytes → Os → Option (IoResult × Os)
  write_all zero fd offset input s = none
  write_all (suc fuel) fd offset [] s = some (io ok offset 0, s)
  write_all (suc fuel) fd offset (b ∷ input) s =
      let (reply, s') = send fd (b ∷ input) s in
      elim reply [
        | returns zero ↦ some (io error offset eio, s')
        | returns (suc count) ↦
            write_all fuel fd (offset + suc count) (drop (suc count) (b ∷ input)) s'
        | fails errno ↦ elim (errno == eintr) [
          | true ↦ write_all fuel fd offset (b ∷ input) s'
          | false ↦ some (io_failure offset errno, s')
        ]
      ]

  abbrev frame_error : IoStatus → ℕ → Os → FrameResult × Os
  frame_error status errno s = (record { status = status; payload = []; error_number = errno }, s)

  abbrev pub is_ok : IoStatus → Bool
  is_ok ok = true
  is_ok _ = false

  -- What follows the read of the payload.
  abbrev pub payload_result : Option (IoResult × Bytes × Os) → Option (FrameResult × Os)
  payload_result none = none
  payload_result (some (r, payload, s)) =
      if is_ok r.status
      then some (record { status = ok; payload = payload; error_number = 0 }, s)
      else some (frame_error r.status r.error_number s)

  -- What follows the read of the header.
  abbrev pub header_result : ℕ → ℕ → ℕ → Option (IoResult × Bytes × Os) → Option (FrameResult × Os)
  header_result fuel fd max_payload none = none
  header_result fuel fd max_payload (some (r, header, s)) =
      let size = host_length header in
      if is_ok r.status
      then if ltb max_payload size
        then some (frame_error too_large emsgsize s)
        else payload_result (read_exact fuel fd size 0 [] s)
      else some (frame_error r.status r.error_number s)

  unfoldable pub recv_frame : ℕ → ℕ → ℕ → Os → Option (FrameResult × Os)
  recv_frame fuel fd max_payload s =
      header_result fuel fd max_payload (read_exact fuel fd header_size 0 [] s)

  -- The payload of a frame that cannot be encoded throws: `none` too.
  unfoldable pub send_frame : ℕ → ℕ → Bytes → Os → Option (IoResult × Os)
  send_frame fuel fd payload s = elim (encode_frame payload) [
    | none ↦ none
    | some bytes ↦ write_all fuel fd 0 bytes s
  ]
