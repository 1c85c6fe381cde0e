-- ===== src/Matching/OrderBook/Flat.antt =====
-- The levels of one side of the book and the flat queue that they stand for.
use becomeasystemsengineer.Prelude.{
  ◌<◌, ◌≡◌, ◌≢◌, List, [], ◌∷◌, ◌++◌, true, false, arith, All, All-append, ◌∙◌, ap, sym,
}
use becomeasystemsengineer.Prelude.Int.{ℤ}
use becomeasystemsengineer.Matching.Order.{Side, buy, sell, Order}
use becomeasystemsengineer.Matching.OrderBook.{Level, before, flat}
use becomeasystemsengineer.Matching.OrderBook.Queue.{Sorted}

-- A resting order of a level.
pub record Rests (side : Side) (price : ℤ) (o : Order) : Type 0 where
  pub on_side : o.side ≡ side
  pub at_price : o.price_ticks ≡ price
  pub open_quantity : 0 < o.quantity

-- The levels are strictly in the map's order, none is empty, and each holds orders of its price.
abbrev pub IsSide : Side → List Level → Type 0
IsSide side [] = Unit
IsSide side (level ∷ rest) =
    (level.orders ≢ [])
    × All (Rests side level.price) level.orders
    × All (λ l. before side level.price l.price ≡ true) rest
    × IsSide side rest

-- What holds of each order of each level holds along the flat queue.
All-flat :
    (P : Order → Type 0) (side : Side) (levels : List Level)
    → ((price : ℤ) (o : Order) → Rests side price o → P o)
    → IsSide side levels
    → All P (flat levels)
All-flat P side [] f v = tt
All-flat P side (level ∷ rest) f v =
    All-append P level.orders (flat rest) (each level.orders v.1) (All-flat P side rest f v.3)
  where
    each : (orders : List Order) → All (Rests side level.price) orders → All P orders
    each [] h = tt
    each (o ∷ orders) h = (f level.price o h.0, each orders h.1)

pub flat-open :
    (side : Side) (levels : List Level)
    → IsSide side levels
    → All (λ o. 0 < o.quantity) (flat levels)
flat-open side levels = All-flat (λ o. 0 < o.quantity) side levels (λ p o h. h.open_quantity)

-- The orders of levels behind a price.
pub flat_behind :
    (side : Side) (p : ℤ) (levels : List Level)
    → IsSide side levels
    → All (λ l. before side p l.price ≡ true) levels
    → All (λ o. before side p o.price_ticks ≡ true) (flat levels)
flat_behind side p [] v h = tt
flat_behind side p (level ∷ rest) v h =
    All-append _ level.orders (flat rest) (each level.orders v.1) (flat_behind side p rest v.3 h.1)
  where
    each :
        (orders : List Order)
        → All (Rests side level.price) orders
        → All (λ o. before side p o.price_ticks ≡ true) orders
    each [] k = tt
    each (o ∷ orders) k = (ap (before side p) k.0.at_price ∙ h.0, each orders k.1)

not_before : (side : Side) (p q r : ℤ) → r ≡ p → before side p q ≡ true → before side q r ≡ false
not_before buy p q r e h = ground arith
not_before sell p q r e h = ground arith

pub not_before_same : (side : Side) (p q : ℤ) → p ≡ q → before side p q ≡ false
not_before_same buy p q e = ground arith
not_before_same sell p q e = ground arith

level-Sorted :
    (side : Side) (p : ℤ) (orders queue : List Order)
    → All (Rests side p) orders
    → All (λ o. before side p o.price_ticks ≡ true) queue
    → Sorted side queue
    → Sorted side (orders ++ queue)
level-Sorted side p [] queue h b s = s
level-Sorted side p (o ∷ orders) queue h b s = (
  All-append _ orders queue (equals orders h.1) (behind queue b),
  level-Sorted side p orders queue h.1 b s,
)
  where
    equals :
        (xs : List Order)
        → All (Rests side p) xs
        → All (λ q. before side q.price_ticks o.price_ticks ≡ false) xs
    equals [] k = tt
    equals (x ∷ xs) k = (not_before_same side _ _ (k.0.at_price ∙ sym h.0.at_price), equals xs k.1)

    behind :
        (xs : List Order)
        → All (λ q. before side p q.price_ticks ≡ true) xs
        → All (λ q. before side q.price_ticks o.price_ticks ≡ false) xs
    behind [] k = tt
    behind (x ∷ xs) k = (not_before side p _ _ h.0.at_price k.0, behind xs k.1)

pub flat-Sorted :
    (side : Side) (levels : List Level) → IsSide side levels → Sorted side (flat levels)
flat-Sorted side [] v = tt
flat-Sorted side (level ∷ rest) v =
    level-Sorted side level.price level.orders (flat rest) v.1 (flat_behind side _ rest v.3 v.2)
      (flat-Sorted side rest v.3)
