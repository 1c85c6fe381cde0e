-- ===== src/Matching/OrderBook/Cancelling.antt =====
-- What `OrderBook::cancel` does to a well-formed book.
use becomeasystemsengineer.Prelude.{
  ℕ, ◌+◌, ◌-◌, ◌<◌, ◌≡◌, refl, List, [], ◌∷◌, ◌++◌, true, false, arith, if◌then◌else◌, All, Option,
  none, some, ◌==◌, ap, sym, ◌∙◌, inl, inr, ◌⊎◌, Option-cases,
}
use becomeasystemsengineer.Prelude.Int.{ℤ}
use becomeasystemsengineer.Prelude.Dict.{nat_key, lookup, remove, lookup-remove}
use becomeasystemsengineer.Matching.Order.{Side, buy, sell, Order}
use becomeasystemsengineer.Matching.OrderBook.{
  Level, OrderBook, before, flat, levels_of, with_levels, other, pop_level, erase_id, erase_order,
  cancel,
}
use becomeasystemsengineer.Matching.OrderBook.Flat.{Rests, IsSide}
use becomeasystemsengineer.Matching.OrderBook.Queue.{count_id}
use becomeasystemsengineer.Matching.OrderBook.Validity.{
  IsValid, holds, seen-IsValid, levels_of-with_levels, other-with_levels, live_orders-with_levels,
  levels_of-live, symbol-with_levels,
}

-- The specification: the orders in their order, without the first that has the id.
unfoldable pub without : ℕ → List Order → List Order
without id [] = []
without id (o ∷ orders) = if o.id == id then orders else o ∷ without id orders

without-append_hit :
    (id : ℕ) (xs ys : List Order) → 0 < count_id id xs → without id (xs ++ ys) ≡ without id xs ++ ys
unfolding without
without-append_hit id [] ys h = absurd (omega arith)
without-append_hit id (x ∷ xs) ys h = ground (arith, without-append_hit id xs ys)

without-append_miss :
    (id : ℕ) (xs ys : List Order) → count_id id xs ≡ 0 → without id (xs ++ ys) ≡ xs ++ without id ys
unfolding without
without-append_miss id [] ys h = refl
without-append_miss id (x ∷ xs) ys h = ground (arith, without-append_miss id xs ys)

without-All : (P : Order → Type 0) (id : ℕ) (xs : List Order) → All P xs → All P (without id xs)
unfolding without
without-All P id [] h = tt
without-All P id (x ∷ xs) h = ground (arith, without-All P id xs h.1)

count_id-without :
    (id i : ℕ) (xs : List Order)
    → count_id i (without id xs) ≡ (if id == i then count_id i xs - 1 else count_id i xs)
unfolding without
count_id-without id i [] = ground arith
count_id-without id i (x ∷ xs) = ground (arith, count_id-without id i xs)

count_id-append :
    (i : ℕ) (xs ys : List Order) → count_id i (xs ++ ys) ≡ count_id i xs + count_id i ys
count_id-append i [] ys = omega arith
count_id-append i (x ∷ xs) ys = omega (arith, count_id-append i xs ys)

erase_id_cases :
    (id : ℕ) (orders : List Order)
    → ((count_id id orders ≡ 0) × (erase_id id orders ≡ none))
      ⊎ ((0 < count_id id orders) × (erase_id id orders ≡ some (without id orders)))
unfolding erase_id without
erase_id_cases id [] = inl (refl, refl)
erase_id_cases id (o ∷ orders) = ground (arith, erase_id_cases id orders)

module _ (side : Side) (id : ℕ) where
  abbrev Behind : ℤ → List Level → Type 0
  Behind p = All (λ l. before side p l.price ≡ true)

  popped :
      (level : Level) (rest : List Level) (orders : List Order)
      → IsSide side (level ∷ rest)
      → All (Rests side level.price) orders
      → (flat (pop_level level orders rest) ≡ orders ++ flat rest)
        × IsSide side (pop_level level orders rest)
        × ((p : ℤ) → Behind p (level ∷ rest) → Behind p (pop_level level orders rest))
  popped level rest [] v h = (refl, v.3, (λ p k. k.1))
  popped level rest (o ∷ orders) v h = (refl, ((λ e. cc), h, v.2, v.3), (λ p k. k))

  -- The loop over the levels finds nothing, or takes the order out of the flat queue.
  abbrev Erased : List Level → Option (List Level) → Type 0
  Erased levels out =
      ((count_id id (flat levels) ≡ 0) × (out ≡ none))
      ⊎ ((levels' : List Level) × (out ≡ some levels')
          × (flat levels' ≡ without id (flat levels))
          × IsSide side levels'
          × ((p : ℤ) → Behind p levels → Behind p levels'))

  erase_hit :
      (level : Level) (rest : List Level)
      → IsSide side (level ∷ rest)
      → 0 < count_id id level.orders
      → erase_id id level.orders ≡ some (without id level.orders)
      → Erased (level ∷ rest) (erase_order id (level ∷ rest))
  erase_hit level rest v h e =
      let (f, w, b) =
        popped level rest (without id level.orders) v
          (without-All (Rests side level.price) id level.orders v.1) in
      inr (
        pop_level level (without id level.orders) rest,
        unfold erase_order in ground arith,
        f ∙ sym (without-append_hit id level.orders (flat rest) h),
        w,
        b,
      )

  erase_miss :
      (level : Level) (rest : List Level)
      → IsSide side (level ∷ rest)
      → count_id id level.orders ≡ 0
      → erase_id id level.orders ≡ none
      → Erased rest (erase_order id rest)
      → Erased (level ∷ rest) (erase_order id (level ∷ rest))
  unfolding erase_order
  erase_miss level rest v h e (inl (c, n)) =
      inl (omega (arith, count_id-append id level.orders (flat rest)), ground arith)
  erase_miss level rest v h e (inr (levels, s, f, w, b)) = inr (
    level ∷ levels,
    ground arith,
    rw (without-append_miss id level.orders (flat rest) h) (ap (◌++◌ level.orders) f),
    (v.0, v.1, b level.price v.2, w),
    (λ p k. (k.0, b p k.1)),
  )

  erase_order_cases :
      (levels : List Level) → IsSide side levels → Erased levels (erase_order id levels)
  erase_order_cases [] v = unfold erase_order in inl (refl, refl)
  erase_order_cases (level ∷ rest) v = elim (erase_id_cases id level.orders) [
    | inl (h, e) ↦ erase_miss level rest v h e (erase_order_cases rest v.3)
    | inr (h, e) ↦ erase_hit level rest v h e
  ]

module _ (b : OrderBook) (id : ℕ) where
  abbrev taken_out : Side → List Level → OrderBook
  taken_out s levels = with_levels s levels (record b { live_orders = remove id b.live_orders })

  -- The ids left are counted as before, but for the one that went.
  cancelled_own :
      (s : Side) (i : ℕ) (c : ℕ) (l : Option Side)
      → (id ≡ i → l ≡ some s)
      → c ≡ holds s l
      → (if id == i then c - 1 else c) ≡ holds s (if id == i then none else l)
  cancelled_own buy i c l f e = ground (arith, f)
  cancelled_own sell i c l f e = ground (arith, f)

  cancelled_other :
      (s : Side) (i : ℕ) (c : ℕ) (l : Option Side)
      → (id ≡ i → l ≡ some s)
      → c ≡ holds (other s) l
      → c ≡ holds (other s) (if id == i then none else l)
  cancelled_other buy i c l f e = ground (arith, f)
  cancelled_other sell i c l f e = ground (arith, f)

  taken_out-IsValid :
      (s : Side) (levels : List Level)
      → IsValid b
      → lookup id b.live_orders ≡ some s
      → IsSide s levels
      → flat levels ≡ without id (flat (levels_of s b))
      → IsValid (taken_out s levels)
  taken_out-IsValid s levels v live vs e =
      seen-IsValid s (taken_out s levels) (rw own vs) (rw opp (v.sides (other s)))
        (rw (own, opp, e) (without-All _ id (flat (levels_of s b)) (v.uncrossed s)))
        (λ i.
          rw (own, e, count_id-without id i (flat (levels_of s b)), looks i)
            (cancelled_own s i _ (lookup i b.live_orders) (here i) (v.lives s i)))
        (λ i.
          rw (opp, looks i)
            (cancelled_other s i _ (lookup i b.live_orders) (here i) (v.lives (other s) i)))
    where
      bare : OrderBook
      bare = record b { live_orders = remove id b.live_orders }

      own : levels_of s (taken_out s levels) ≡ levels
      own = levels_of-with_levels levels s bare

      opp : levels_of (other s) (taken_out s levels) ≡ levels_of (other s) b
      opp = other-with_levels levels s bare ∙ levels_of-live (other s) b _

      looks :
          (i : ℕ)
          → lookup i (taken_out s levels).live_orders
            ≡ (if id == i then none else lookup i b.live_orders)
      looks i = rw (live_orders-with_levels levels s bare) (lookup-remove id i b.live_orders)

      here : (i : ℕ) → id ≡ i → lookup i b.live_orders ≡ some s
      here i p = rw (← p) live

  holds-some : (s : Side) → holds s (some s) ≡ 1
  holds-some buy = refl
  holds-some sell = refl

  -- On a well-formed book `cancel` of an id that is live succeeds. It takes the one order with that id
  -- out of its side, leaves the order of the others and the other side as they were, and makes the id
  -- free; the book stays well-formed and keeps its symbol.
  pub cancel_live :
      (s : Side)
      → IsValid b
      → lookup id b.live_orders ≡ some s
      → (b' : OrderBook) × (cancel b id ≡ (true, b'))
        × (flat (levels_of s b') ≡ without id (flat (levels_of s b)))
        × (levels_of (other s) b' ≡ levels_of (other s) b)
        × (lookup id b'.live_orders ≡ none)
        × IsValid b'
        × (b'.symbol ≡ b.symbol)
  cancel_live s v live = elim (erase_order_cases s id (levels_of s b) (v.sides s)) [
    | inl (c, e) ↦ absurd (omega (arith, v.lives s id, ap (holds s) live, holds-some s))
    | inr (levels, e, f, w, _) ↦ (
      taken_out s levels,
      unfold cancel in ground arith,
      ap flat (levels_of-with_levels levels s _) ∙ f,
      other-with_levels levels s _ ∙ levels_of-live (other s) b _,
      rw (live_orders-with_levels levels s (record b { live_orders = remove id b.live_orders }))
          (ground (arith, lookup-remove id id b.live_orders)),
      taken_out-IsValid s levels v live w f,
      symbol-with_levels levels s (record b { live_orders = remove id b.live_orders }),
    )
  ]

  -- An id that is not live is refused, and the book stays as it was.
  pub cancel_unknown : lookup id b.live_orders ≡ none → cancel b id ≡ (false, b)
  unfolding cancel
  cancel_unknown e = ground arith

  -- Whatever the id, the book stays well-formed.
  pub cancel-IsValid : IsValid b → IsValid (cancel b id).1 × ((cancel b id).1.symbol ≡ b.symbol)
  cancel-IsValid v = elim (Option-cases (lookup id b.live_orders)) [
    | inl e ↦ rw (cancel_unknown e) (v, refl)
    | inr (s, e) ↦ let (b', p, _, _, _, w, k) = cancel_live s v e in rw p (w, k)
  ]
