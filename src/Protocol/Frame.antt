-- ===== src/Protocol/Frame.antt =====
-- Frames: `encode_frame` of capstone/reference/src/protocol.cpp and the header that readers decode.
use becomeasystemsengineer.Prelude.{
  ℕ, ◌+◌, ◌-◌, ◌*◌, ◌/◌, ◌%◌, ◌^◌, ◌<◌, ◌≡◌, refl, Option, none, some, [], ◌∷◌, ◌++◌, arith, ltb,
  if◌then◌else◌, length,
}
use becomeasystemsengineer.Prelude.Bytes.{Bytes}

abbrev pub default_max_payload : ℕ
default_max_payload = 64 * 1024

-- `sizeof(std::uint32_t)`
abbrev pub header_size : ℕ
header_size = 4

-- `htonl` and the `memcpy` of its bytes: the most significant byte first.
unfoldable pub network_length : ℕ → Bytes
network_length n = (n / 2 ^ 24 % 256) ∷ (n / 2 ^ 16 % 256) ∷ (n / 2 ^ 8 % 256) ∷ (n % 256) ∷ []

-- `ntohl` of the bytes of a header.
unfoldable pub host_length : Bytes → ℕ
host_length (b0 ∷ b1 ∷ b2 ∷ b3 ∷ []) = b0 * 2 ^ 24 + b1 * 2 ^ 16 + b2 * 2 ^ 8 + b3
host_length _ = 0

-- `none` is the `std::length_error`.
unfoldable pub encode_frame : Bytes → Option Bytes
encode_frame payload =
    if ltb (2 ^ 32 - 1) (length payload)
    then none
    else some (network_length (length payload) ++ payload)

pub host_length-network_length : (n : ℕ) → n < 2 ^ 32 → host_length (network_length n) ≡ n
unfolding host_length network_length
host_length-network_length n h = omega arith

pub length-network_length : (n : ℕ) → length (network_length n) ≡ header_size
unfolding network_length
length-network_length n = refl

-- The frame of a payload that the wire can carry.
abbrev pub frame : Bytes → Bytes
frame payload = network_length (length payload) ++ payload

pub encode_frame-frame :
    (payload : Bytes) → length payload < 2 ^ 32 → encode_frame payload ≡ some (frame payload)
unfolding encode_frame
encode_frame-frame payload h = ground arith
