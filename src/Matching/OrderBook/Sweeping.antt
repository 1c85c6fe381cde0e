-- ===== src/Matching/OrderBook/Sweeping.antt =====
-- The matching loop of `OrderBook::submit` refines the flat queue, and its fuel is enough.
use becomeasystemsengineer.Prelude.{
  ℕ, zero, suc, ◌-◌, ◌≤◌, ◌<◌, ◌≡◌, refl, List, [], ◌∷◌, ◌++◌, true, false, some, arith, length,
  append_assoc, append-nil, Bool-cases, inl, inr, ◌∙◌, ap, subst,
}
use becomeasystemsengineer.Prelude.Int.{ℤ}
use becomeasystemsengineer.Prelude.Dict.{nat_key, remove}
use mathlib.Core.Option.{Option}
use native.Mathlib.Decide.{dec_lt}
use becomeasystemsengineer.Matching.Order.{Side, Order, Fill}
use becomeasystemsengineer.Matching.OrderBook.{
  Level, Sweep, stop, more, crosses, fill_of, pop_level, trade, turn, sweep, flat,
}
use becomeasystemsengineer.Matching.OrderBook.Flat.{IsSide}
use becomeasystemsengineer.Matching.OrderBook.Queue.{Match, filled, match_queue, remove_all}

-- The loop has ended by its test or its break, with the fills, the rest and the orders of `m`.
abbrev pub Swept : Side → List Fill → List (ℕ × Side) → Match → Option Sweep → Type 0
Swept side fills live m out =
    (levels : List Level) × IsSide side levels
    × (flat levels ≡ m.queue)
    × (out
        ≡ some (record {
          remaining = m.remaining;
          fills = fills ++ m.fills;
          levels = levels;
          live = remove_all m.gone live;
        }))

module _ (o : Order) (r : ℕ) (fills : List Fill) (live : List (ℕ × Side)) where
  abbrev at_levels : List Level → Sweep
  at_levels levels = record { remaining = r; fills = fills; levels = levels; live = live }

  turn_done : (levels : List Level) → r ≡ 0 → turn o (at_levels levels) ≡ stop
  unfolding turn
  turn_done levels e = ground arith

  turn-empty : turn o (at_levels []) ≡ stop
  unfolding turn
  turn-empty = ground arith

  module _ (price : ℤ) (maker : Order) (queue : List Order) (rest : List Level) where
    abbrev here : List Level
    here = record { price = price; orders = maker ∷ queue } ∷ rest

    turn_away : crosses o price ≡ false → turn o (at_levels here) ≡ stop
    unfolding turn
    turn_away e = ground arith

    -- The taker takes the whole maker.
    turn_whole :
        0 < r
        → crosses o price ≡ true
        → maker.quantity ≤ r
        → turn o (at_levels here)
          ≡ more (record {
            remaining = r - maker.quantity;
            fills = fills ++ fill_of o maker maker.quantity ∷ [];
            levels = pop_level (record { price = price; orders = maker ∷ queue }) queue rest;
            live = remove maker.id live;
          })
    unfolding turn trade
    turn_whole h c le = ground arith

    -- The maker is larger than what the taker still wants.
    turn_part :
        0 < r
        → crosses o price ≡ true
        → r < maker.quantity
        → turn o (at_levels here)
          ≡ more (record {
            remaining = 0;
            fills = fills ++ fill_of o maker r ∷ [];
            levels =
                record {
                  price = price;
                  orders = record maker { quantity = maker.quantity - r } ∷ queue;
                }
                ∷ rest;
            live = live;
          })
    unfolding turn trade
    turn_part h c lt = ground arith

sweep-stop : (fuel : ℕ) (o : Order) (s : Sweep) → turn o s ≡ stop → sweep (suc fuel) o s ≡ some s
unfolding sweep
sweep-stop fuel o s e = ground arith

sweep-more :
    (fuel : ℕ) (o : Order) (s s' : Sweep)
    → turn o s ≡ more s'
    → sweep (suc fuel) o s ≡ sweep fuel o s'
unfolding sweep
sweep-more fuel o s s' e = ground arith

flat-pop_level :
    (level : Level) (queue : List Order) (rest : List Level)
    → flat (pop_level level queue rest) ≡ queue ++ flat rest
flat-pop_level level [] rest = refl
flat-pop_level level (o ∷ queue) rest = refl

module _ (side : Side) (price : ℤ) (maker : Order) (rest : List Level) where
  pub pop_level-IsSide :
      (queue : List Order)
      → IsSide side (record { price = price; orders = maker ∷ queue } ∷ rest)
      → IsSide side (pop_level (record { price = price; orders = maker ∷ queue }) queue rest)
  pop_level-IsSide [] v = v.3
  pop_level-IsSide (o ∷ queue) v = ((λ e. cc), v.1.1, v.2, v.3)

  shrink-IsSide :
      (queue : List Order) (left : ℕ)
      → 0 < left
      → IsSide side (record { price = price; orders = maker ∷ queue } ∷ rest)
      → IsSide side
          (record { price = price; orders = record maker { quantity = left } ∷ queue } ∷ rest)
  shrink-IsSide queue left h v = (
    (λ e. cc),
    (record { on_side = v.1.0.on_side; at_price = v.1.0.at_price; open_quantity = h }, v.1.1),
    v.2,
    v.3,
  )

-- The four ways in which the flat queue goes on.
module _ (o maker : Order) (r : ℕ) (queue : List Order) where
  queue_away :
      crosses o maker.price_ticks ≡ false
      → match_queue o r (maker ∷ queue)
        ≡ record { fills = []; remaining = r; queue = maker ∷ queue; gone = [] }
  unfolding match_queue
  queue_away e = ground arith

  queue_whole :
      0 < r
      → crosses o maker.price_ticks ≡ true
      → maker.quantity ≤ r
      → match_queue o r (maker ∷ queue)
        ≡ filled
            (fill_of o maker maker.quantity)
            maker.id
            (match_queue o (r - maker.quantity) queue)
  unfolding match_queue
  queue_whole h c le = ground arith

  queue_part :
      0 < r
      → crosses o maker.price_ticks ≡ true
      → r < maker.quantity
      → match_queue o r (maker ∷ queue) ≡ record {
        fills = fill_of o maker r ∷ [];
        remaining = 0;
        queue = record maker { quantity = maker.quantity - r } ∷ queue;
        gone = [];
      }
  unfolding match_queue
  queue_part h c lt = ground arith

queue_done :
    (o : Order) (r : ℕ) (queue : List Order)
    → r ≡ 0
    → match_queue o r queue ≡ record { fills = []; remaining = r; queue = queue; gone = [] }
unfolding match_queue
queue_done o r [] e = refl
queue_done o r (maker ∷ queue) e = ground arith

-- Where the loop stops at once.
Swept-stop :
    (side : Side) (fuel : ℕ) (o : Order) (r : ℕ) (fills : List Fill) (live : List (ℕ × Side))
    (levels : List Level)
    → IsSide side levels
    → turn o (at_levels o r fills live levels) ≡ stop
    → match_queue o r (flat levels)
      ≡ record { fills = []; remaining = r; queue = flat levels; gone = [] }
    → Swept side fills live
        (match_queue o r (flat levels))
        (sweep (suc fuel) o (at_levels o r fills live levels))
Swept-stop side fuel o r fills live levels v e m =
    rw m (levels, v, refl, rw append-nil (sweep-stop fuel o _ e))

sweep-zero :
    (fuel : ℕ) (o : Order) (fills : List Fill) (live : List (ℕ × Side)) (levels : List Level)
    → 0 < fuel
    → sweep fuel o (at_levels o 0 fills live levels) ≡ some (at_levels o 0 fills live levels)
sweep-zero zero o fills live levels h = absurd (omega arith)
sweep-zero (suc fuel) o fills live levels h =
    sweep-stop fuel o _ (turn_done o 0 fills live levels refl)

module _ (side : Side) (o : Order) where
  -- A round that takes a whole maker: `m` is what the flat queue does after it.
  Swept-whole :
      (fills : List Fill) (live : List (ℕ × Side)) (f : Fill) (id : ℕ) (m : Match)
      {out : Option Sweep}
      → Swept side (fills ++ f ∷ []) (remove id live) m out
      → Swept side fills live (filled f id m) out
  Swept-whole fills live f id m (levels, v, e, d) = (levels, v, e, rw append_assoc at d)

-- The induction hypothesis of the loop, at the fuel that is left.
abbrev Loops : Side → Order → ℕ → Type 0
Loops side o fuel =
    (r : ℕ) (fills : List Fill) (live : List (ℕ × Side)) (levels : List Level)
    → IsSide side levels
    → suc (length (flat levels)) < fuel
    → Swept side fills live (match_queue o r (flat levels))
        (sweep fuel o (at_levels o r fills live levels))

module _ (side : Side) (o : Order) (fuel : ℕ) (ih : Loops side o fuel) (r : ℕ) (fills : List Fill)
    (live : List (ℕ × Side)) (price : ℤ) (maker : Order) (queue : List Order) (rest : List Level)
    (v : IsSide side (here o r fills live price maker queue rest))
    (h : suc (length (queue ++ flat rest)) < fuel) where
  abbrev Goal : Type 0
  Goal =
      Swept side fills live (match_queue o r (maker ∷ (queue ++ flat rest)))
        (sweep (suc fuel) o (at_levels o r fills live (here o r fills live price maker queue rest)))

  crosses-price : crosses o maker.price_ticks ≡ crosses o price
  crosses-price = ap (crosses o) v.1.0.at_price

  round_stop : crosses o price ≡ false → Goal
  round_stop e =
      Swept-stop side fuel o r fills live _ v (turn_away o r fills live price maker queue rest e)
        (queue_away o maker r (queue ++ flat rest) (crosses-price ∙ e))

  round_whole : 0 < r → crosses o price ≡ true → maker.quantity ≤ r → Goal
  round_whole pos c le =
      rw
        (
          queue_whole o maker r (queue ++ flat rest) pos (crosses-price ∙ c) le,
          sweep-more fuel o _ _ (turn_whole o r fills live price maker queue rest pos c le),
        )
        (Swept-whole side o fills live (fill_of o maker maker.quantity) maker.id
          (match_queue o (r - maker.quantity) (queue ++ flat rest))
          (subst
            (λ q.
              Swept side (fills ++ fill_of o maker maker.quantity ∷ []) (remove maker.id live)
                (match_queue o (r - maker.quantity) q)
                (sweep fuel o (
                  at_levels o (r - maker.quantity) (fills ++ fill_of o maker maker.quantity ∷ [])
                    (remove maker.id live) (pop_level level queue rest))))
            popped
            (ih (r - maker.quantity) _ (remove maker.id live) (pop_level level queue rest)
              (pop_level-IsSide side price maker rest queue v) (omega (arith, ap length popped)))))
    where
      level : Level
      level = record { price = price; orders = maker ∷ queue }

      popped : flat (pop_level level queue rest) ≡ queue ++ flat rest
      popped = flat-pop_level level queue rest

  round_part : 0 < r → crosses o price ≡ true → r < maker.quantity → Goal
  round_part pos c lt =
      rw
        (
          queue_part o maker r (queue ++ flat rest) pos (crosses-price ∙ c) lt,
          sweep-more fuel o _ _ (turn_part o r fills live price maker queue rest pos c lt),
        )
        (
          _,
          shrink-IsSide side price maker rest queue (maker.quantity - r) (omega arith) v,
          refl,
          sweep-zero fuel o (fills ++ fill_of o maker r ∷ []) live _ (omega arith),
        )

  round : Goal
  round = elim (Bool-cases (crosses o price)) [
    | inr away ↦ round_stop away
    | inl c ↦ elim (dec_lt 0 r) [
      | no done ↦
          Swept-stop side fuel o r fills live _ v (turn_done o r fills live _ (omega arith))
            (queue_done o r _ (omega arith))
      | yes pos ↦ elim (dec_lt r maker.quantity) [
        | yes lt ↦ round_part pos c lt
        | no le ↦ round_whole pos c (omega arith)
      ]
    ]
  ]

round_of :
    (side : Side) (o : Order) (fuel : ℕ) (r : ℕ) (fills : List Fill) (live : List (ℕ × Side))
    (rest : List Level) (price : ℤ) (orders : List Order)
    → Loops side o fuel
    → IsSide side (record { price = price; orders = orders } ∷ rest)
    → length (orders ++ flat rest) < fuel
    → Swept side fills live (match_queue o r (orders ++ flat rest)) (
        sweep
          (suc fuel)
          o
          (at_levels o r fills live (record { price = price; orders = orders } ∷ rest)))
round_of side o fuel r fills live rest price [] ih v h = absurd (v.0 refl)
round_of side o fuel r fills live rest price (maker ∷ queue) ih v h =
    round side o fuel ih r fills live price maker queue rest v h

-- From a well-formed side the loop ends within its fuel, without fault, and does what the flat
-- queue does: the same fills after those that were there, the same rest, the same orders left, and
-- the filled orders no longer live. The side stays well-formed.
pub sweep-Swept :
    (side : Side) (fuel : ℕ) (o : Order) (r : ℕ) (fills : List Fill) (live : List (ℕ × Side))
    (levels : List Level)
    → IsSide side levels
    → suc (length (flat levels)) < fuel
    → Swept side fills live
        (match_queue o r (flat levels))
        (sweep fuel o (record { remaining = r; fills = fills; levels = levels; live = live }))
sweep-Swept side zero o r fills live levels v h = absurd (omega arith)
sweep-Swept side (suc fuel) o r fills live [] v h =
    Swept-stop side fuel o r fills live [] v (turn-empty o r fills live)
      (unfold match_queue in refl)
sweep-Swept side (suc fuel) o r fills live (level ∷ rest) v h =
    round_of side o fuel r fills live rest level.price level.orders
      (λ r' fills' live' levels'. sweep-Swept side fuel o r' fills' live' levels') v (omega arith)
