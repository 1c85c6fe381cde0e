-- ===== src/Matching/Ingress.antt =====
-- capstone/matching/solution-reference/include/matching/ingress_queue.hpp, the bounded queue that
-- producers and consumers share without a lock. A `std::size_t` is a native number below 2 ^ 64.
-- `Threads` interleaves the callers.
pub mod Capacity
pub mod Threads
use becomeasystemsengineer.Prelude.{
  ℕ, zero, suc, ◌+◌, ◌*◌, ◌-◌, ◌%◌, ◌^◌, Bool, Option, none, some, ltb, ◌==◌, if◌then◌else◌,
}
use becomeasystemsengineer.Prelude.Words.{to_signed}
use becomeasystemsengineer.Prelude.Int.{ℤ, pos, negsuc, ltb_ℤ}

pub record Cell (A : Type 0) : Type 0 where
  pub sequence : ℕ
  pub value : Option A

-- `cells` beyond the capacity are never used.
pub record LockFreeIngress (A : Type 0) : Type 0 where
  pub capacity : ℕ
  pub cells : ℕ → Cell A
  pub enqueue : ℕ
  pub dequeue : ℕ

-- `while (value < requested) value <<= 1U`, with fuel; `none` is its end.
unfoldable pub round_loop : ℕ → ℕ → ℕ → Option ℕ
round_loop zero value requested = none
round_loop (suc fuel) value requested =
    let rest = round_loop fuel (value * 2 % 2 ^ 64) requested in
    if ltb value requested then rest else some value

unfoldable pub round_power_of_two : ℕ → ℕ → Option ℕ
unfolding round_loop
round_power_of_two fuel requested = round_loop fuel 2 requested

-- The constructor, behind the rounding of the capacity.
abbrev pub new_ingress : (A : Type 0) → ℕ → LockFreeIngress A
new_ingress A capacity = record {
  capacity = capacity;
  cells = λ index. record { sequence = index; value = none };
  enqueue = 0;
  dequeue = 0;
}

-- `difference < 0`
abbrev pub is_behind : ℕ → ℕ → Bool
is_behind sequence position = ltb_ℤ (to_signed sequence) (to_signed position)

-- `position & mask_`; the capacity is a power of two.
abbrev pub index_of : {A : Type 0} → LockFreeIngress A → ℕ → ℕ
index_of q position = position % q.capacity
