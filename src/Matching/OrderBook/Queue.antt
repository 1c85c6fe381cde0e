-- ===== src/Matching/OrderBook/Queue.antt =====
-- The specification of matching: price-time priority on one flat queue of resting orders.
-- Nothing here models code; the loop of `OrderBook::submit` is proved to do this.
use becomeasystemsengineer.Prelude.{
  ℕ, ◌+◌, ◌-◌, ◌≡◌, refl, List, [], ◌∷◌, ◌&&◌, true, false, ◌<◌, ◌==◌, arith, ltb, leb,
  if◌then◌else◌, All,
}
use becomeasystemsengineer.Prelude.Int.{ℤ}
use becomeasystemsengineer.Prelude.Dict.{nat_key, remove}
use becomeasystemsengineer.Matching.Order.{Side, Order, Fill}
use becomeasystemsengineer.Matching.OrderBook.{before, crosses, other, fill_of}

pub record Match : Type 0 where
  pub fills : List Fill
  pub remaining : ℕ
  pub queue : List Order
  pub gone : List ℕ

abbrev pub filled : Fill → ℕ → Match → Match
filled f id m = record m { fills = f ∷ m.fills; gone = id ∷ m.gone }

-- The first order of the queue trades, entirely if the taker wants that much, as long as its price
-- crosses; the orders behind it get what is then left.
unfoldable pub match_queue : Order → ℕ → List Order → Match
match_queue o r [] = record { fills = []; remaining = r; queue = []; gone = [] }
match_queue o r (maker ∷ queue) =
    let rest = match_queue o (r - maker.quantity) queue in
    if ltb 0 r && crosses o maker.price_ticks
    then if leb maker.quantity r
      then filled (fill_of o maker maker.quantity) maker.id rest
      else record {
        fills = fill_of o maker r ∷ [];
        remaining = 0;
        queue = record maker { quantity = maker.quantity - r } ∷ queue;
        gone = [];
      }
    else record { fills = []; remaining = r; queue = maker ∷ queue; gone = [] }

abbrev pub remove_all : List ℕ → List (ℕ × Side) → List (ℕ × Side)
remove_all [] live = live
remove_all (id ∷ ids) live = remove_all ids (remove id live)

abbrev pub traded : List Fill → ℕ
traded [] = 0
traded (f ∷ fills) = f.quantity + traded fills

abbrev pub depth : List Order → ℕ
depth [] = 0
depth (o ∷ orders) = o.quantity + depth orders

-- What the taker gets and what is left of it add up to what it asked for, and the queue loses
-- exactly what is traded.
pub match_queue-conserves :
    (o : Order) (r : ℕ) (queue : List Order)
    → let m = match_queue o r queue in
      (traded m.fills + m.remaining ≡ r) × (traded m.fills + depth m.queue ≡ depth queue)
unfolding match_queue
match_queue-conserves o r [] = omega arith
match_queue-conserves o r (maker ∷ queue) =
    ground (arith, match_queue-conserves o (r - maker.quantity) queue)

-- How often an id stands in a queue, and in a list of ids.
abbrev pub count_id : ℕ → List Order → ℕ
count_id i [] = 0
count_id i (o ∷ orders) = (if o.id == i then 1 else 0) + count_id i orders

abbrev pub count : ℕ → List ℕ → ℕ
count i [] = 0
count i (j ∷ ids) = (if j == i then 1 else 0) + count i ids

-- An order is still in the queue, or was filled entirely and is gone.
pub match_queue-count_id :
    (o : Order) (r : ℕ) (queue : List Order) (i : ℕ)
    → let m = match_queue o r queue in count_id i m.queue + count i m.gone ≡ count_id i queue
unfolding match_queue
match_queue-count_id o r [] i = refl
match_queue-count_id o r (maker ∷ queue) i =
    ground (arith, match_queue-count_id o (r - maker.quantity) queue i)

-- What holds of the prices of the queue holds of those that are left.
pub match_queue-prices :
    (P : ℤ → Type 0) (o : Order) (r : ℕ) (queue : List Order)
    → All (λ q. P q.price_ticks) queue
    → All (λ q. P q.price_ticks) (match_queue o r queue).queue
unfolding match_queue
match_queue-prices P o r [] h = tt
match_queue-prices P o r (maker ∷ queue) h =
    ground (arith, match_queue-prices P o (r - maker.quantity) queue h.1)

-- Every fill names the taker, and trades at a price that the taker accepts.
pub record IsFair (o : Order) (f : Fill) : Type 0 where
  pub for_taker : f.taker_id ≡ o.id
  pub on_taker_side : f.taker_side ≡ o.side
  pub at_good_price : crosses o f.price_ticks ≡ true
  pub some_quantity : 0 < f.quantity

pub match_queue-IsFair :
    (o : Order) (r : ℕ) (queue : List Order)
    → All (λ q. 0 < q.quantity) queue
    → All (IsFair o) (match_queue o r queue).fills
unfolding match_queue
match_queue-IsFair o r [] h = tt
match_queue-IsFair o r (maker ∷ queue) h =
    ground (arith, match_queue-IsFair o (r - maker.quantity) queue h.1)

-- No order stands before one whose price the map puts first.
abbrev pub Sorted : Side → List Order → Type 0
Sorted side [] = Unit
Sorted side (o ∷ orders) =
    All (λ q. before side q.price_ticks o.price_ticks ≡ false) orders × Sorted side orders

misses :
    (o maker : Order) (queue : List Order)
    → crosses o maker.price_ticks ≡ false
    → All (λ q. before (other o.side) q.price_ticks maker.price_ticks ≡ false) queue
    → All (λ q. crosses o q.price_ticks ≡ false) queue
unfolding crosses
misses o maker [] h s = tt
misses o maker (q ∷ queue) h s = (ground arith, misses o maker queue h s.1)

-- A taker that is left with something crosses none of the orders that are left.
pub match_queue_uncrossed :
    (o : Order) (r : ℕ) (queue : List Order)
    → Sorted (other o.side) queue
    → 0 < (match_queue o r queue).remaining
    → All (λ q. crosses o q.price_ticks ≡ false) (match_queue o r queue).queue
unfolding match_queue
match_queue_uncrossed o r [] s h = tt
match_queue_uncrossed o r (maker ∷ queue) s h =
    ground (arith, misses o maker queue, match_queue_uncrossed o (r - maker.quantity) queue s.1)

-- Where a new order joins the queue: behind every order that its price is not strictly before.
unfoldable pub queue_up : Side → Order → List Order → List Order
queue_up side o [] = o ∷ []
queue_up side o (q ∷ queue) =
    if before side o.price_ticks q.price_ticks then o ∷ q ∷ queue else q ∷ queue_up side o queue

pub queue_up-count_id :
    (side : Side) (o : Order) (queue : List Order) (i : ℕ)
    → count_id i (queue_up side o queue) ≡ (if o.id == i then 1 else 0) + count_id i queue
unfolding queue_up
queue_up-count_id side o [] i = refl
queue_up-count_id side o (q ∷ queue) i = ground (arith, queue_up-count_id side o queue i)

pub queue_up-prices :
    (P : ℤ → Type 0) (side : Side) (o : Order) (queue : List Order)
    → P o.price_ticks
    → All (λ q. P q.price_ticks) queue
    → All (λ q. P q.price_ticks) (queue_up side o queue)
unfolding queue_up
queue_up-prices P side o [] p h = (p, tt)
queue_up-prices P side o (q ∷ queue) p h = ground (arith, queue_up-prices P side o queue p h.1)

pub queue_up-depth :
    (side : Side) (o : Order) (queue : List Order)
    → depth (queue_up side o queue) ≡ o.quantity + depth queue
unfolding queue_up
queue_up-depth side o [] = refl
queue_up-depth side o (q ∷ queue) = ground (arith, queue_up-depth side o queue)
