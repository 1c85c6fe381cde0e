-- ===== src/Matching/OrderBook.antt =====
-- capstone/matching/solution-reference: include/matching/order_book.hpp and src/order_book.cpp.
-- A `std::map` of levels is the list of its entries in the map's order, best price first.
-- The source writes the body of the matching loop twice, for `asks_` and for `bids_`; here it
-- is written once, over the levels of the other side. The loop takes fuel; `none` is the end of
-- the fuel or a `front()` of an empty deque, which is undefined in C++.
pub mod Queue
pub mod Sweeping
pub mod Flat
mod Resting
pub mod Validity
pub mod Settling
pub mod Submitting
pub mod Cancelling
use Prim.Native.String.{String}
use mathlib.Core.Option
use becomeasystemsengineer.Prelude.{
  ℕ, zero, suc, ◌+◌, ◌-◌, min, Bool, true, false, ◌&&◌, ◌||◌, not, Option, none, some, List, [],
  ◌∷◌, ◌++◌, ltb, ◌==◌, if◌then◌else◌, length,
}
use becomeasystemsengineer.Prelude.Int.{ℤ, pos, ltb_ℤ, leb_ℤ}
use becomeasystemsengineer.Prelude.Bytes.{Bytes, same}
use becomeasystemsengineer.Prelude.Dict.{nat_key, lookup, insert, remove}
use becomeasystemsengineer.Matching.Order.{
  Side, buy, sell, TimeInForce, good_till_cancel, immediate_or_cancel, Order, Fill, Ack,
}

pub record Level : Type 0 where
  pub price : ℤ
  pub orders : List Order

pub record OrderBook : Type 0 where
  pub symbol : Bytes
  pub bids : List Level
  pub asks : List Level
  pub live_orders : List (ℕ × Side)

unfoldable pub empty_book : Bytes → OrderBook
empty_book symbol = record { symbol = symbol; bids = []; asks = []; live_orders = [] }

-- The comparator of the side's map: does the first price come before the second?
abbrev pub before : Side → ℤ → ℤ → Bool
before buy p q = ltb_ℤ q p
before sell p q = ltb_ℤ p q

unfoldable pub crosses : Order → ℤ → Bool
crosses o maker_price = elim o.side [
  | buy ↦ leb_ℤ maker_price o.price_ticks
  | sell ↦ leb_ℤ o.price_ticks maker_price
]

-- The variables that the matching loop changes.
pub record Sweep : Type 0 where
  pub remaining : ℕ
  pub fills : List Fill
  pub levels : List Level
  pub live : List (ℕ × Side)

pub data Turn : Type 0 where
  stop fault : Turn
  more : Sweep → Turn

abbrev pub fill_of : Order → Order → ℕ → Fill
fill_of o maker traded = record {
  taker_id = o.id;
  maker_id = maker.id;
  taker_side = o.side;
  price_ticks = maker.price_ticks;
  quantity = traded;
  sequence = o.sequence;
}

-- `pop_front`, and the erasure of a level that this empties.
abbrev pub pop_level : Level → List Order → List Level → List Level
pop_level level [] rest = rest
pop_level level (o ∷ queue) rest = record level { orders = o ∷ queue } ∷ rest

unfoldable pub trade : Order → Sweep → Level → List Level → Order → List Order → Sweep
trade o s level rest maker queue =
    let traded = min s.remaining maker.quantity in
    let left = maker.quantity - traded in
    let fills = s.fills ++ fill_of o maker traded ∷ [] in
    if left == 0
    then record {
      remaining = s.remaining - traded;
      fills = fills;
      levels = pop_level level queue rest;
      live = remove maker.id s.live;
    }
    else record {
      remaining = s.remaining - traded;
      fills = fills;
      levels = record level { orders = record maker { quantity = left } ∷ queue } ∷ rest;
      live = s.live;
    }

abbrev front : Order → Sweep → Level → List Level → List Order → Turn
front o s level rest [] = fault
front o s level rest (maker ∷ queue) = more (trade o s level rest maker queue)

abbrev best : Order → Sweep → List Level → Turn
best o s [] = stop
best o s (level ∷ rest) = if crosses o level.price then front o s level rest level.orders else stop

-- One round of the loop, its test included.
unfoldable pub turn : Order → Sweep → Turn
turn o s = if ltb 0 s.remaining then best o s s.levels else stop

unfoldable pub sweep : ℕ → Order → Sweep → Option Sweep
sweep zero o s = none
sweep (suc fuel) o s = elim (turn o s) [ stop ↦ some s | fault ↦ none | more s' ↦ sweep fuel o s' ]

-- `levels[price].orders.push_back(order)`.
unfoldable pub add_order : Side → Order → List Level → List Level
add_order side o [] = record { price = o.price_ticks; orders = o ∷ [] } ∷ []
add_order side o (level ∷ rest) =
    if before side o.price_ticks level.price
    then record { price = o.price_ticks; orders = o ∷ [] } ∷ level ∷ rest
    else if before side level.price o.price_ticks
    then level ∷ add_order side o rest
    else record level { orders = level.orders ++ o ∷ [] } ∷ rest

abbrev pub other : Side → Side
other buy = sell
other sell = buy

abbrev pub levels_of : Side → OrderBook → List Level
levels_of buy b = b.bids
levels_of sell b = b.asks

abbrev pub with_levels : Side → List Level → OrderBook → OrderBook
with_levels buy levels b = record b { bids = levels }
with_levels sell levels b = record b { asks = levels }

-- `emplace` leaves an entry that is there as it is.
unfoldable pub emplace : ℕ → Side → List (ℕ × Side) → List (ℕ × Side)
emplace id side live = elim (lookup id live) [ none ↦ insert id side live | some s ↦ live ]

abbrev pub is_gtc : TimeInForce → Bool
is_gtc good_till_cancel = true
is_gtc immediate_or_cancel = false

abbrev pub reject : Order → String → Ack
reject o reason = record { order_id = o.id; accepted = false; remaining = 0; reason = reason }

abbrev pub accept : Order → ℕ → Ack
accept o remaining = record {
  order_id = o.id;
  accepted = true;
  remaining = remaining;
  reason = "accepted";
}

-- The order goes into the levels of its side and becomes live.
abbrev pub rest_order : OrderBook → Order → OrderBook
rest_order b o =
    with_levels o.side (add_order o.side o (levels_of o.side b))
      (record b { live_orders = emplace o.id o.side b.live_orders })

-- What `submit` does after the loop: the rest of a good-till-cancel order goes into the book.
unfoldable pub settle : OrderBook → Order → Sweep → Ack × List Fill × OrderBook
settle b o s =
    let swept = with_levels (other o.side) s.levels (record b { live_orders = s.live }) in
    if ltb 0 s.remaining && is_gtc o.tif
    then (accept o s.remaining, s.fills, rest_order swept (record o { quantity = s.remaining }))
    else (accept o s.remaining, s.fills, swept)

-- The resting orders of one side, in the order in which they trade.
abbrev pub flat : List Level → List Order
flat [] = []
flat (level ∷ rest) = level.orders ++ flat rest

-- More rounds than the loop can make: see `Sweeping`.
abbrev pub rounds : List Level → ℕ
rounds levels = suc (suc (length (flat levels)))

unfoldable pub match : OrderBook → Order → List Fill → Option (Ack × List Fill × OrderBook)
match b o fills =
    let levels = levels_of (other o.side) b in
    Option.map (settle b o) (
      sweep (rounds levels) o
        (record { remaining = o.quantity; fills = fills; levels = levels; live = b.live_orders }))

abbrev pub is_live : ℕ → OrderBook → Bool
is_live id b = elim (lookup id b.live_orders) [ none ↦ false | some s ↦ true ]

unfoldable pub submit : OrderBook → Order → List Fill → Option (Ack × List Fill × OrderBook)
submit b o fills =
    if not (same o.symbol b.symbol)
    then some (reject o "symbol mismatch", fills, b)
    else if o.id == 0 || (o.quantity == 0 || leb_ℤ o.price_ticks (pos 0))
    then some (reject o "invalid order", fills, b)
    else if is_live o.id b
    then some (reject o "duplicate live order id", fills, b)
    else match b o fills

-- `find_if` and `erase` on one level: the orders without the first that has the id, if one has.
unfoldable pub erase_id : ℕ → List Order → Option (List Order)
erase_id id [] = none
erase_id id (o ∷ orders) =
    if o.id == id then some orders else Option.map (λ rest. o ∷ rest) (erase_id id orders)

-- The loop over the levels.
unfoldable pub erase_order : ℕ → List Level → Option (List Level)
erase_order id [] = none
erase_order id (level ∷ rest) = elim (erase_id id level.orders) [
  | none ↦ Option.map (λ others. level ∷ others) (erase_order id rest)
  | some orders ↦ some (pop_level level orders rest)
]

abbrev pub cancel_on : ℕ → OrderBook → Side → Option (List Level) → Bool × OrderBook
cancel_on id b side none = (false, b)
cancel_on id b side (some levels) =
    (true, with_levels side levels (record b { live_orders = remove id b.live_orders }))

unfoldable pub cancel : OrderBook → ℕ → Bool × OrderBook
cancel b id = elim (lookup id b.live_orders) [
  | none ↦ (false, b)
  | some side ↦ cancel_on id b side (erase_order id (levels_of side b))
]

unfoldable pub best_price : List Level → Option ℤ
best_price [] = none
best_price (level ∷ rest) = some level.price

unfoldable pub best_bid : OrderBook → Option ℤ
unfolding best_price
best_bid b = best_price b.bids

unfoldable pub best_ask : OrderBook → Option ℤ
unfolding best_price
best_ask b = best_price b.asks

unfoldable pub resting_orders : OrderBook → ℕ
resting_orders b = length b.live_orders
