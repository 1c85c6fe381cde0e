-- ===== src/Matching/MockData.antt =====
-- capstone/matching/solution-reference: include/matching/mock_data.hpp and the generator of
-- src/mock_data.cpp. `none` is a price that does not fit its type, which is undefined.
pub mod Validity
use becomeasystemsengineer.Prelude.{
  ℕ, zero, suc, ◌+◌, ◌*◌, ◌-◌, ◌/◌, ◌%◌, ◌^◌, Option, none, some, List, [], ◌∷◌, ◌==◌,
  if◌then◌else◌,
}
use becomeasystemsengineer.Prelude.Bytes.{Bytes}
use becomeasystemsengineer.Prelude.Int.{ℤ, pos, pos_part, ltb_ℤ, ◌+ℤ◌, ◌-ℤ◌}
use becomeasystemsengineer.Prelude.Words.{xor, to_signed, in_int64}
use becomeasystemsengineer.Matching.Order.{Side, buy, sell, good_till_cancel, Order}

pub record MockDataConfig : Type 0 where
  pub count : ℕ
  pub seed : ℕ
  pub symbol : Bytes
  pub center_price_ticks : ℤ
  pub price_band_ticks : ℤ

-- `Rng`: its first state, and `next`.
unfoldable pub seeded : ℕ → ℕ
seeded seed = if seed == 0 then 1 else seed

unfoldable pub rng_next : ℕ → ℕ
unfolding xor
rng_next state =
    let a = xor 64 state (state * 2 ^ 7 % 2 ^ 64) in
    let b = xor 64 a (a / 2 ^ 9) in xor 64 b (b * 2 ^ 8 % 2 ^ 64)

unfoldable pub band_of : MockDataConfig → ℕ
band_of config =
    if ltb_ℤ (pos 0) config.price_band_ticks then pos_part config.price_band_ticks else 1

abbrev pub shifted : ℤ → Option ℤ → Option ℤ
shifted center none = none
shifted center (some offset) = in_int64 (center +ℤ offset)

-- The price that a random number gives.
unfoldable pub mock_price : ℤ → ℕ → ℕ → Option ℤ
unfolding in_int64
mock_price center band random =
    shifted center (in_int64 (to_signed (random % ((2 * band + 1) % 2 ^ 64)) -ℤ pos band))

abbrev pub mock_order : MockDataConfig → ℕ → ℤ → ℕ → ℕ → Order
mock_order config index price random random' = record {
  id = (index + 1) % 2 ^ 64;
  symbol = config.symbol;
  side = if random % 2 == 0 then buy else sell;
  price_ticks = price;
  quantity = random' % 100 + 1;
  sequence = (index + 1) % 2 ^ 64;
  tif = good_till_cancel;
}

abbrev pub with_order : Option Order → Option (List Order) → Option (List Order)
with_order none rest = none
with_order (some o) none = none
with_order (some o) (some rest) = some (o ∷ rest)

abbrev pub priced : MockDataConfig → ℕ → ℕ → ℕ → Option ℤ → Option Order
priced config index random random' none = none
priced config index random random' (some price) =
    some (mock_order config index price random random')

-- The loop, with the orders that are left.
unfoldable pub generate_loop : MockDataConfig → ℕ → ℕ → ℕ → Option (List Order)
unfolding rng_next mock_price
generate_loop config zero index state = some []
generate_loop config (suc left) index state =
    let first = rng_next state in
    let second = rng_next first in
    let third = rng_next second in
    with_order
      (priced config index second third
        (mock_price config.center_price_ticks (band_of config) first))
      (generate_loop config left (index + 1) third)

unfoldable pub generate_mock_orders : MockDataConfig → Option (List Order)
unfolding seeded generate_loop
generate_mock_orders config = generate_loop config config.count 0 (seeded config.seed)
