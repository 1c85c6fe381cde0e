-- ===== src/Matching/OrderBook/Settling.antt =====
-- What the end of `OrderBook::submit` makes of a well-formed book and a finished loop.
use mathlib.Core.Option.{Option}
use becomeasystemsengineer.Prelude.{
  ℕ, ◌+◌, ◌<◌, ◌≡◌, refl, List, [], ◌∷◌, ◌++◌, Bool, true, false, ◌&&◌, arith, if◌then◌else◌, All,
  none, some, ◌==◌, ap, ltb, ◌∙◌,
}
use becomeasystemsengineer.Prelude.Int.{ℤ, pos, ◌<ℤ◌}
use becomeasystemsengineer.Prelude.Dict.{nat_key, lookup, remove, lookup-insert, lookup-remove}
use becomeasystemsengineer.Matching.Order.{Side, buy, sell, Order, Fill}
use becomeasystemsengineer.Matching.OrderBook.{
  Level, OrderBook, Sweep, flat, levels_of, with_levels, other, crosses, settle, accept, is_gtc,
  add_order, emplace, rest_order,
}
use becomeasystemsengineer.Matching.OrderBook.Flat.{IsSide, flat-Sorted}
use becomeasystemsengineer.Matching.OrderBook.Resting.{add_order-IsSide, flat-add_order}
use becomeasystemsengineer.Matching.OrderBook.Queue.{
  Match, match_queue, match_queue-count_id, match_queue-prices, match_queue_uncrossed, queue_up,
  queue_up-prices, queue_up-count_id, remove_all, count, count_id,
}
use becomeasystemsengineer.Matching.OrderBook.Validity.{
  IsValid, Faces, Clear, holds, seen-IsValid, levels_of-with_levels, other-with_levels,
  with_levels-other, live_orders-with_levels, levels_of-live, symbol-with_levels,
}

-- The checks that an order passes.
pub record Accepts (b : OrderBook) (o : Order) : Type 0 where
  pub same_symbol : o.symbol ≡ b.symbol
  pub some_id : 0 < o.id
  pub some_quantity : 0 < o.quantity
  pub some_price : pos 0 <ℤ o.price_ticks
  pub fresh : lookup o.id b.live_orders ≡ none

lookup-remove_all :
    (i : ℕ) (ids : List ℕ) (live : List (ℕ × Side))
    → lookup i (remove_all ids live) ≡ (if ltb 0 (count i ids) then none else lookup i live)
lookup-remove_all i [] live = refl
lookup-remove_all i (j ∷ ids) live =
    ground (arith, lookup-remove_all i ids (remove j live), lookup-remove j i live)

-- The ids that are gone were live on the other side only.
module _ (gone left whole own : ℕ) where
  own_holds :
      (s : Side) (l : Option Side)
      → left + gone ≡ whole
      → whole ≡ holds (other s) l
      → own ≡ holds s l
      → own ≡ holds s (if ltb 0 gone then none else l)
  own_holds buy none p q r = ground arith
  own_holds sell none p q r = ground arith
  own_holds buy (some buy) p q r = ground arith
  own_holds buy (some sell) p q r = ground arith
  own_holds sell (some buy) p q r = ground arith
  own_holds sell (some sell) p q r = ground arith

  other_holds :
      (s : Side) (l : Option Side)
      → left + gone ≡ whole
      → whole ≡ holds s l
      → left ≡ holds s (if ltb 0 gone then none else l)
  other_holds buy none p q = ground arith
  other_holds sell none p q = ground arith
  other_holds buy (some buy) p q = ground arith
  other_holds buy (some sell) p q = ground arith
  other_holds sell (some buy) p q = ground arith
  other_holds sell (some sell) p q = ground arith

module _ (s : Side) (b : OrderBook) (levels : List Level) (live : List (ℕ × Side)) where
  -- The book after the loop.
  abbrev pub swept : OrderBook
  swept = with_levels (other s) levels (record b { live_orders = live })

  swept-own : levels_of s swept ≡ levels_of s b
  swept-own = with_levels-other levels s (record b { live_orders = live }) ∙ levels_of-live s b live

  swept-other : levels_of (other s) swept ≡ levels
  swept-other = levels_of-with_levels levels (other s) (record b { live_orders = live })

  swept-live : swept.live_orders ≡ live
  swept-live = live_orders-with_levels levels (other s) (record b { live_orders = live })

Faces-opposite :
    (s : Side) (own old new : List Order)
    → ((P : ℤ → Type 0) → All (λ q. P q.price_ticks) old → All (λ q. P q.price_ticks) new)
    → Faces s own old
    → Faces s own new
Faces-opposite s [] old new f h = tt
Faces-opposite s (o ∷ own) old new f h =
    (f (Clear s o.price_ticks) h.0, Faces-opposite s own old new f h.1)

swept-IsValid :
    (b : OrderBook) (o : Order) (r : ℕ) (levels : List Level)
    → let s = o.side in
      let m = match_queue o r (flat (levels_of (other s) b)) in
      IsValid b
      → IsSide (other s) levels
      → flat levels ≡ m.queue
      → IsValid (swept s b levels (remove_all m.gone b.live_orders))
swept-IsValid b o r levels v vs e =
    let s : Side = o.side in
    let live = remove_all m.gone b.live_orders in
    let own : levels_of s (swept s b levels live) ≡ levels_of s b = swept-own s b levels live in
    let opp : levels_of (other s) (swept s b levels live) ≡ levels = swept-other s b levels live in
    let liv : (swept s b levels live).live_orders ≡ live = swept-live s b levels live in
    seen-IsValid s (swept s b levels live) (rw own (v.sides s)) (rw opp vs)
      (rw (own, opp, e)
        (Faces-opposite s _ _ _ (λ P. match_queue-prices P o r opposite) (v.uncrossed s)))
      (λ i.
        rw (own, liv, lookup-remove_all i m.gone b.live_orders)
          (own_holds (count i m.gone) (count_id i m.queue) (count_id i opposite) _ s
            (lookup i b.live_orders) (match_queue-count_id o r opposite i) (v.lives (other s) i)
            (v.lives s i)))
      (λ i.
        rw (opp, liv, e, lookup-remove_all i m.gone b.live_orders)
          (other_holds (count i m.gone) (count_id i m.queue) (count_id i opposite) 0 (other s)
            (lookup i b.live_orders) (match_queue-count_id o r opposite i) (v.lives (other s) i)))
  where
    opposite : List Order
    opposite = flat (levels_of (other o.side) b)

    m : Match
    m = match_queue o r opposite

added_holds :
    (s : Side) (new : Bool) (l : Option Side) (c : ℕ)
    → (new ≡ true → l ≡ none)
    → c ≡ holds s l
    → (if new then 1 else 0) + c ≡ holds s (if new then some s else l)
added_holds buy true l c f e = ground (arith, f refl)
added_holds sell true l c f e = ground (arith, f refl)
added_holds s false l c f e = ground arith

kept_holds :
    (s : Side) (new : Bool) (l : Option Side) (c : ℕ)
    → (new ≡ true → l ≡ none)
    → c ≡ holds (other s) l
    → c ≡ holds (other s) (if new then some s else l)
kept_holds buy true l c f e = ground (arith, f refl)
kept_holds sell true l c f e = ground (arith, f refl)
kept_holds s false l c f e = ground arith

crosses-Clear :
    (s : Side) (o : Order) (p : ℤ) → o.side ≡ s → crosses o p ≡ false → Clear s o.price_ticks p
unfolding crosses
crosses-Clear buy o p e h = ground arith
crosses-Clear sell o p e h = ground arith

All-Clear :
    (s : Side) (o : Order) (queue : List Order)
    → o.side ≡ s
    → All (λ q. crosses o q.price_ticks ≡ false) queue
    → All (λ q. Clear s o.price_ticks q.price_ticks) queue
All-Clear s o [] e h = tt
All-Clear s o (q ∷ queue) e h = (crosses-Clear s o q.price_ticks e h.0, All-Clear s o queue e h.1)

lookup-emplace :
    (id i : ℕ) (s : Side) (live : List (ℕ × Side))
    → lookup id live ≡ none
    → lookup i (emplace id s live) ≡ (if id == i then some s else lookup i live)
unfolding emplace
lookup-emplace id i s live fresh = ground (arith, lookup-insert id i s live)

rest_order-IsValid :
    (b : OrderBook) (o : Order)
    → IsValid b
    → lookup o.id b.live_orders ≡ none
    → 0 < o.quantity
    → All (λ q. crosses o q.price_ticks ≡ false) (flat (levels_of (other o.side) b))
    → IsValid (rest_order b o)
rest_order-IsValid b o v fresh some_quantity uncrossed =
    seen-IsValid s (rest_order b o)
      (rw own (add_order-IsSide s o (levels_of s b) refl some_quantity (v.sides s)))
      (rw opp (v.sides (other s)))
      (rw (own, opp, queued)
        (queue_up-prices (λ p. All (λ q. Clear s p q.price_ticks) opposite) s o _
          (All-Clear s o opposite refl uncrossed) (v.uncrossed s)))
      (λ i.
        rw (own, queued, queue_up-count_id s o (flat (levels_of s b)) i, looks i)
          (added_holds s (o.id == i) (lookup i b.live_orders) _ (absent i) (v.lives s i)))
      (λ i.
        rw (opp, looks i)
          (kept_holds s (o.id == i) (lookup i b.live_orders) _ (absent i) (v.lives (other s) i)))
  where
    s : Side
    s = o.side

    opposite : List Order
    opposite = flat (levels_of (other s) b)

    levels : List Level
    levels = add_order s o (levels_of s b)

    bare : OrderBook
    bare = record b { live_orders = emplace o.id s b.live_orders }

    own : levels_of s (rest_order b o) ≡ levels
    own = levels_of-with_levels levels s bare

    opp : levels_of (other s) (rest_order b o) ≡ levels_of (other s) b
    opp = other-with_levels levels s bare ∙ levels_of-live (other s) b _

    queued : flat levels ≡ queue_up s o (flat (levels_of s b))
    queued = flat-add_order s o (levels_of s b) (v.sides s)

    looks :
        (i : ℕ)
        → lookup i (rest_order b o).live_orders
          ≡ (if o.id == i then some s else lookup i b.live_orders)
    looks i =
        rw (live_orders-with_levels levels s bare) (lookup-emplace o.id i s b.live_orders fresh)

    absent : (i : ℕ) → (o.id == i) ≡ true → lookup i b.live_orders ≡ none
    absent i e = ground arith

-- The own side after an accepted order: its rest, if it may rest, is queued up by price and time.
abbrev pub own_after : Order → Match → List Order → List Order
own_after o m own =
    if ltb 0 m.remaining && is_gtc o.tif
    then queue_up o.side (record o { quantity = m.remaining }) own
    else own

-- The book after an accepted order, and what it holds.
pub record Accepted (b : OrderBook) (o : Order) (m : Match) (b' : OrderBook) : Type 0 where
  pub valid : IsValid b'
  pub opposite_side : flat (levels_of (other o.side) b') ≡ m.queue
  pub own_side : flat (levels_of o.side b') ≡ own_after o m (flat (levels_of o.side b))
  pub symbol_kept : b'.symbol ≡ b.symbol

module _ (b : OrderBook) (o : Order) (v : IsValid b) (a : Accepts b o) (fills : List Fill) where
  abbrev pub matched : Match
  matched = match_queue o o.quantity (flat (levels_of (other o.side) b))

  abbrev pub book_swept : List Level → OrderBook
  book_swept levels = swept o.side b levels (remove_all matched.gone b.live_orders)

  abbrev pub the_rest : Order
  the_rest = record o { quantity = matched.remaining }

  module _ (levels : List Level) (vs : IsSide (other o.side) levels)
      (e : flat levels ≡ matched.queue) where
    abbrev pub after_loop : Sweep
    after_loop = record {
      remaining = matched.remaining;
      fills = fills ++ matched.fills;
      levels = levels;
      live = remove_all matched.gone b.live_orders;
    }

    pub settled-done :
        (ltb 0 matched.remaining && is_gtc o.tif) ≡ false
        → (settle b o after_loop
            ≡ (accept o matched.remaining, fills ++ matched.fills, book_swept levels))
          × Accepted b o matched (book_swept levels)
    unfolding settle
    settled-done h = (
      rw h,
      record {
        valid = swept-IsValid b o o.quantity levels v vs e;
        opposite_side = ap flat (swept-other o.side b levels _) ∙ e;
        own_side = rw h (ap flat (swept-own o.side b levels _));
        symbol_kept = symbol-with_levels levels (other o.side) _;
      },
    )

    pub settled-rest :
        (ltb 0 matched.remaining && is_gtc o.tif) ≡ true
        → (settle b o after_loop ≡ (
          accept o matched.remaining,
          fills ++ matched.fills,
          rest_order (book_swept levels) the_rest,
        ))
          × Accepted b o matched (rest_order (book_swept levels) the_rest)
    unfolding settle
    settled-rest h = (
      rw h,
      record {
        valid = rest_order-IsValid (book_swept levels) the_rest valid gone left uncrossed;
        opposite_side = ap flat opp ∙ ap flat (swept-other o.side b levels _) ∙ e;
        own_side = rw h (
            ap flat own
            ∙ flat-add_order o.side the_rest _ (valid.sides o.side)
            ∙ ap (λ l. queue_up o.side the_rest (flat l)) (swept-own o.side b levels _));
        symbol_kept =
            symbol-with_levels (add_order o.side the_rest (levels_of o.side (book_swept levels)))
              o.side _
            ∙ symbol-with_levels levels (other o.side) _;
      },
    )
      where
        valid : IsValid (book_swept levels)
        valid = swept-IsValid b o o.quantity levels v vs e

        left : 0 < matched.remaining
        left = ground arith

        gone : lookup o.id (book_swept levels).live_orders ≡ none
        gone =
            rw (swept-live o.side b levels _)
              (ground (arith, lookup-remove_all o.id matched.gone b.live_orders, a.fresh))

        uncrossed :
            All
              (λ q. crosses the_rest q.price_ticks ≡ false)
              (flat (levels_of (other o.side) (book_swept levels)))
        uncrossed =
            unfold crosses in
            rw (swept-other o.side b levels (remove_all matched.gone b.live_orders), e)
              (match_queue_uncrossed o o.quantity _
                (flat-Sorted (other o.side) _ (v.sides (other o.side))) left)

        bare : OrderBook
        bare = record (book_swept levels) {
          live_orders = emplace o.id o.side (book_swept levels).live_orders;
        }

        own :
            levels_of o.side (rest_order (book_swept levels) the_rest)
            ≡ add_order o.side the_rest (levels_of o.side (book_swept levels))
        own = levels_of-with_levels _ o.side bare

        opp :
            levels_of (other o.side) (rest_order (book_swept levels) the_rest)
            ≡ levels_of (other o.side) (book_swept levels)
        opp = other-with_levels _ o.side bare ∙ levels_of-live (other o.side) (book_swept levels) _
