-- ===== src/Matching/OrderBook/Resting.antt =====
-- `levels[price].orders.push_back(order)` puts an order into the flat queue by price and time.
use becomeasystemsengineer.Prelude.{
  ◌<◌, ◌≡◌, ◌≢◌, refl, List, [], ◌∷◌, ◌++◌, true, false, arith, All, All-append, append_assoc,
  Bool-cases, inl, inr, ◌∙◌, ap, sym, subst,
}
use becomeasystemsengineer.Prelude.Int.{ℤ, eq_of_parts}
use becomeasystemsengineer.Matching.Order.{Side, buy, sell, Order}
use becomeasystemsengineer.Matching.OrderBook.{Level, before, flat, add_order}
use becomeasystemsengineer.Matching.OrderBook.Flat.{Rests, IsSide, flat_behind, not_before_same}
use becomeasystemsengineer.Matching.OrderBook.Queue.{queue_up}

-- Two prices of which neither comes first are one.
same_price : (side : Side) (p q : ℤ) → before side p q ≡ false → before side q p ≡ false → p ≡ q
same_price buy p q h k = eq_of_parts p q (ground arith)
same_price sell p q h k = eq_of_parts p q (ground arith)

before_trans :
    (side : Side) (p q r : ℤ)
    → before side p q ≡ true
    → before side q r ≡ true
    → before side p r ≡ true
before_trans buy p q r h k = ground arith
before_trans sell p q r h k = ground arith

module _ (side : Side) (o : Order) where
  abbrev alone : Level
  alone = record { price = o.price_ticks; orders = o ∷ [] }

  abbrev joined : Level → Level
  joined level = record level { orders = level.orders ++ o ∷ [] }

  -- A new level in front, a place further on, or the end of the level at hand.
  add_order_cases :
      (P : List Level → Type 0) (level : Level) (rest : List Level)
      → (before side o.price_ticks level.price ≡ true → P (alone ∷ level ∷ rest))
      → (before side level.price o.price_ticks ≡ true
          → before side o.price_ticks level.price ≡ false
          → P (level ∷ add_order side o rest))
      → (o.price_ticks ≡ level.price → P (joined level ∷ rest))
      → P (add_order side o (level ∷ rest))
  unfolding add_order
  add_order_cases P level rest front further here =
      elim (Bool-cases (before side o.price_ticks level.price)) [
        | inl f ↦ rw f (front f)
        | inr nf ↦ elim (Bool-cases (before side level.price o.price_ticks)) [
          | inl g ↦ rw (nf, g) (further g nf)
          | inr ng ↦ rw (nf, ng) (here (same_price side _ _ nf ng))
        ]
      ]

  add_order_behind :
      (p : ℤ) (levels : List Level)
      → before side p o.price_ticks ≡ true
      → All (λ l. before side p l.price ≡ true) levels
      → All (λ l. before side p l.price ≡ true) (add_order side o levels)
  add_order_behind p [] h k = unfold add_order in (h, tt)
  add_order_behind p (level ∷ rest) h k =
      add_order_cases (All (λ l. before side p l.price ≡ true)) level rest (λ f. (h, k))
        (λ g ng. (k.0, add_order_behind p rest h k.1)) (λ e. k)

  All-behind :
      (p q : ℤ) (levels : List Level)
      → before side p q ≡ true
      → All (λ l. before side q l.price ≡ true) levels
      → All (λ l. before side p l.price ≡ true) levels
  All-behind p q [] h k = tt
  All-behind p q (level ∷ rest) h k =
      (before_trans side p q level.price h k.0, All-behind p q rest h k.1)

  append-ne-nil : (orders : List Order) → (orders ++ o ∷ []) ≢ []
  append-ne-nil [] e = cc
  append-ne-nil (x ∷ orders) e = cc

  pub add_order-IsSide :
      (levels : List Level)
      → o.side ≡ side
      → 0 < o.quantity
      → IsSide side levels
      → IsSide side (add_order side o levels)
  add_order-IsSide [] e h v =
      unfold add_order in
      ((λ e. cc), (record { on_side = e; at_price = refl; open_quantity = h }, tt), tt, tt)
  add_order-IsSide (level ∷ rest) e h v =
      add_order_cases (IsSide side) level rest
        (λ f. (
          (λ e. cc),
          (record { on_side = e; at_price = refl; open_quantity = h }, tt),
          (f, All-behind o.price_ticks level.price rest f v.2),
          v,
        ))
        (λ g ng. (v.0, v.1, add_order_behind level.price rest g v.2, add_order-IsSide rest e h v.3))
        (λ same. (
          append-ne-nil level.orders,
          All-append _ level.orders (o ∷ []) v.1
              (record { on_side = e; at_price = same; open_quantity = h }, tt),
          v.2,
          v.3,
        ))

  queue_up-front :
      (queue : List Order)
      → All (λ q. before side o.price_ticks q.price_ticks ≡ true) queue
      → queue_up side o queue ≡ o ∷ queue
  unfolding queue_up
  queue_up-front [] h = refl
  queue_up-front (q ∷ queue) h = rw h.0

  queue_up-append :
      (xs ys : List Order)
      → All (λ q. before side o.price_ticks q.price_ticks ≡ false) xs
      → queue_up side o (xs ++ ys) ≡ xs ++ queue_up side o ys
  unfolding queue_up
  queue_up-append [] ys h = refl
  queue_up-append (x ∷ xs) ys h = rw (h.0, queue_up-append xs ys h.1)

  not_ahead_of :
      (p : ℤ) (orders : List Order)
      → before side o.price_ticks p ≡ false
      → All (Rests side p) orders
      → All (λ q. before side o.price_ticks q.price_ticks ≡ false) orders
  not_ahead_of p [] h k = tt
  not_ahead_of p (q ∷ orders) h k =
      (ap (before side o.price_ticks) k.0.at_price ∙ h, not_ahead_of p orders h k.1)

  -- The levels after the insertion are the flat queue with the order queued up by price, and
  -- behind the orders of its own price.
  pub flat-add_order :
      (levels : List Level)
      → IsSide side levels
      → flat (add_order side o levels) ≡ queue_up side o (flat levels)
  flat-add_order [] v = unfold add_order queue_up in refl
  flat-add_order (level ∷ rest) v =
      add_order_cases (λ levels. flat levels ≡ queue_up side o (flat (level ∷ rest))) level rest
        (λ f. sym (
          queue_up-front (flat (level ∷ rest)) (
            flat_behind side o.price_ticks (level ∷ rest) v
              (f, All-behind o.price_ticks level.price rest f v.2))))
        (λ g ng. rw (
          queue_up-append level.orders (flat rest) (not_ahead_of level.price level.orders ng v.1),
          flat-add_order rest v.3,
        ))
        (λ same. rw (
          queue_up-append level.orders (flat rest)
              (not_ahead_of level.price level.orders (not_before_same side _ _ same) v.1),
          queue_up-front (flat rest) (
              flat_behind side o.price_ticks rest v.3
                (subst (λ p. All (λ l. before side p l.price ≡ true) rest) (sym same) v.2)),
          append_assoc,
        ))
