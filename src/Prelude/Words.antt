-- ===== src/Prelude/Words.antt =====
-- Words of a machine on native numbers.
use Prim.Native.Nat.{ℕ, zero, suc, ◌+◌, ◌*◌, ◌-◌, ◌/◌, ◌%◌, ◌^◌, ◌≤◌, ◌<◌}
use mathlib.Core.Path.{◌≡◌}
use mathlib.Core.Bool.{◌&&◌}
use mathlib.Core.Option.{Option, none, some}
use native.Mathlib.Omega.{arith}
use becomeasystemsengineer.Prelude.Tests.{ltb, leb, if◌then◌else◌}
use becomeasystemsengineer.Prelude.Int.{ℤ, pos, negsuc, pos_part, neg_part}

-- The low bits of `a ^ b`.
unfoldable pub xor : ℕ → ℕ → ℕ → ℕ
xor zero a b = 0
xor (suc bits) a b = (a % 2 + b % 2) % 2 + 2 * xor bits (a / 2) (b / 2)

-- A conversion of 64 bits to a signed type.
abbrev pub to_signed : ℕ → ℤ
to_signed n = if ltb n (2 ^ 63) then pos n else negsuc (2 ^ 64 - 1 - n)

-- The result of a signed operation on 64 bits, which is undefined on overflow.
unfoldable pub in_int64 : ℤ → Option ℤ
in_int64 z = if ltb (pos_part z) (2 ^ 63) && leb (neg_part z) (2 ^ 63) then some z else none

pub in_int64-some : (z : ℤ) → pos_part z < 2 ^ 63 → neg_part z ≤ 2 ^ 63 → in_int64 z ≡ some z
unfolding in_int64
in_int64-some z h h' = ground arith
