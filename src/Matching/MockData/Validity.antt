-- ===== src/Matching/MockData/Validity.antt =====
-- What the generated orders are.
use native.Mathlib.Nat.{mod-lt, mod-eq_of_lt}
use becomeasystemsengineer.Prelude.{
  ℕ, zero, suc, ◌+◌, ◌*◌, ◌-◌, ◌%◌, ◌^◌, ◌≤◌, ◌<◌, ◌≡◌, refl, ap₂, some, List, [], ◌∷◌, arith, ap,
}
use becomeasystemsengineer.Prelude.Int.{ℤ, pos, pos_part, neg_part, ◌+ℤ◌, ◌-ℤ◌, ◌≤ℤ◌, +ℤ_parts}
use becomeasystemsengineer.Prelude.Words.{to_signed, in_int64, in_int64-some}
use becomeasystemsengineer.Matching.Order.{good_till_cancel, Order}
use becomeasystemsengineer.Matching.MockData.{
  MockDataConfig, rng_next, band_of, mock_price, mock_order, with_order, priced, generate_loop,
  generate_mock_orders, seeded,
}

-- The order at an index, as the configuration asks for it.
abbrev pub IsMock : MockDataConfig → ℕ → Order → Type 0
IsMock config index o =
    (o.id ≡ index + 1)
    × (o.sequence ≡ index + 1)
    × (o.symbol ≡ config.symbol)
    × (1 ≤ o.quantity)
    × (o.quantity ≤ 100)
    × (config.center_price_ticks ≤ℤ o.price_ticks +ℤ pos (band_of config))
    × (o.price_ticks ≤ℤ config.center_price_ticks +ℤ pos (band_of config))
    × (o.tif ≡ good_till_cancel)

-- As many orders, from an index on.
abbrev pub AreMock : MockDataConfig → ℕ → ℕ → List Order → Type 0
AreMock config zero index orders = orders ≡ []
AreMock config (suc left) index [] = ⊥
AreMock config (suc left) index (o ∷ orders) =
    IsMock config index o × AreMock config left (index + 1) orders

offset_parts :
    (r band : ℕ)
    → (pos_part (pos r -ℤ pos band) + band ≡ neg_part (pos r -ℤ pos band) + r)
      × (pos_part (pos r -ℤ pos band) ≤ r - band)
      × (neg_part (pos r -ℤ pos band) ≤ band)
unfolding ◌-ℤ◌
offset_parts r band = (ground arith, ground arith, ground arith)

sum_parts :
    (a b : ℤ)
    → (pos_part (a +ℤ b) ≤ pos_part a + pos_part b) × (neg_part (a +ℤ b) ≤ neg_part a + neg_part b)
unfolding ◌+ℤ◌
sum_parts a b = (ground arith, ground arith)

-- A random number gives a price in the band.
mock_price-band :
    (center : ℤ) (band random : ℕ)
    → band < 2 ^ 62
    → pos_part center + band < 2 ^ 63
    → neg_part center + band ≤ 2 ^ 63
    → (price : ℤ) × (mock_price center band random ≡ some price)
      × (center ≤ℤ price +ℤ pos band)
      × (price ≤ℤ center +ℤ pos band)
mock_price-band center band random small high low =
    let modulus : (2 * band + 1) % 2 ^ 64 ≡ 2 * band + 1 = mod-eq_of_lt (omega (arith, small)) in
    let r : ℕ = random % (2 * band + 1) in
    let below : r < 2 * band + 1 = mod-lt random (omega arith) in
    let signed : to_signed r ≡ pos r = ground (arith, below, small) in
    let offset = pos r -ℤ pos band in
    let (balance, above, under) = offset_parts r band in
    let price = center +ℤ offset in
    let (more, less) = sum_parts center offset in
    let sum = +ℤ_parts center offset in
    let fits : in_int64 offset ≡ some offset =
      in_int64-some offset (omega (arith, above, below, small)) (omega (arith, under, small)) in
    let fits' : in_int64 price ≡ some price =
      in_int64-some price (omega (arith, more, above, below, high))
        (omega (arith, less, under, low)) in
    let low_end = +ℤ_parts price (pos band) in
    let high_end = +ℤ_parts center (pos band) in
    (
      price,
      unfold mock_price in rw (modulus, signed, fits) fits',
      omega (arith, sum, low_end, balance),
      omega (arith, sum, high_end, balance, below),
    )

below : (index left : ℕ) → index + suc left < 2 ^ 64 → index + 1 < 2 ^ 64
below index left h = omega (arith, h)

one_on : (index left : ℕ) → index + suc left < 2 ^ 64 → index + 1 + left < 2 ^ 64
one_on index left h = omega (arith, h)

mock_order-IsMock :
    (config : MockDataConfig) (index : ℕ) (price : ℤ) (random random' : ℕ)
    → index + 1 < 2 ^ 64
    → config.center_price_ticks ≤ℤ price +ℤ pos (band_of config)
    → price ≤ℤ config.center_price_ticks +ℤ pos (band_of config)
    → IsMock config index (mock_order config index price random random')
mock_order-IsMock config index price random random' h low_end high_end =
    let numbered : (index + 1) % 2 ^ 64 ≡ index + 1 = mod-eq_of_lt h in
    let few_of : random' % 100 < 100 = mod-lt random' (omega arith) in
    (numbered, numbered, refl, omega arith, omega (arith, few_of), low_end, high_end, refl)

generate_loop-AreMock :
    (config : MockDataConfig) (left index state : ℕ)
    → band_of config < 2 ^ 62
    → pos_part config.center_price_ticks + band_of config < 2 ^ 63
    → neg_part config.center_price_ticks + band_of config ≤ 2 ^ 63
    → index + left < 2 ^ 64
    → (orders : List Order) × (generate_loop config left index state ≡ some orders)
      × AreMock config left index orders
unfolding generate_loop
generate_loop-AreMock config zero index state small high low h = ([], refl, refl)
generate_loop-AreMock config (suc left) index state small high low h =
    let first = rng_next state in
    let second = rng_next first in
    let third = rng_next second in
    let (price, got, low_end, high_end) =
      mock_price-band config.center_price_ticks (band_of config) first small high low in
    let (orders, out, rest) =
      generate_loop-AreMock config left (index + 1) third small high low (one_on index left h) in
    (
      mock_order config index price second third ∷ orders,
      ap₂ with_order (ap (priced config index second third) got) out,
      (
        mock_order-IsMock config index price second third (below index left h) low_end high_end,
        rest,
      ),
    )

-- The generator gives as many orders as were asked for: numbered from 1 in their order, of the
-- symbol, with a quantity from 1 to 100 and a price within the band round the center; if the band is
-- below 2 ^ 62 and no price in it overflows.
pub generate_mock_orders-AreMock :
    (config : MockDataConfig)
    → config.count < 2 ^ 64
    → band_of config < 2 ^ 62
    → pos_part config.center_price_ticks + band_of config < 2 ^ 63
    → neg_part config.center_price_ticks + band_of config ≤ 2 ^ 63
    → (orders : List Order) × (generate_mock_orders config ≡ some orders)
      × AreMock config config.count 0 orders
unfolding generate_mock_orders
generate_mock_orders-AreMock config few small high low =
    generate_loop-AreMock config config.count 0 (seeded config.seed) small high low
      (omega (arith, few))
