-- ===== src/Tests/Matching.antt =====
-- The matching engine on a small book: one ask of five at 100, and a buyer.
use Prim.Native.String.{String}
use becomeasystemsengineer.Prelude.{
  ℕ, ◌+◌, ◌≡◌, ◌⊎◌, refl, true, none, some, List, [], ◌∷◌, ◌++◌, arith, All,
}
use becomeasystemsengineer.Prelude.Int.{pos}
use becomeasystemsengineer.Prelude.Bytes.{codes, same}
use becomeasystemsengineer.Prelude.Dict.{nat_key, lookup, insert, remove}
use becomeasystemsengineer.Matching.Order.{buy, sell, good_till_cancel, Order, Fill, Ack}
use becomeasystemsengineer.Matching.OrderBook
use becomeasystemsengineer.Matching.OrderBook.{
  Level, OrderBook, flat, levels_of, other, accept, submit, cancel,
}
use becomeasystemsengineer.Matching.OrderBook.Queue.{match_queue, IsFair, traded, depth, count_id}
use becomeasystemsengineer.Matching.OrderBook.Flat.{Rests}
use becomeasystemsengineer.Matching.OrderBook.Validity.{IsValid, seen-IsValid, holds}
use becomeasystemsengineer.Matching.OrderBook.Settling.{Accepts, Accepted}
use becomeasystemsengineer.Matching.OrderBook.Submitting.{
  submit_matches, submit_conserves, submit_total, submit_refuses,
}
use becomeasystemsengineer.Matching.OrderBook.Cancelling.{without, cancel_live}
use becomeasystemsengineer.Matching.MockData.{MockDataConfig, band_of, generate_mock_orders}
use becomeasystemsengineer.Matching.MockData.Validity.{AreMock, generate_mock_orders-AreMock}
use becomeasystemsengineer.Matching.Engine
use becomeasystemsengineer.Matching.Engine.{MatchingEngine, new_engine, book}
use becomeasystemsengineer.Matching.Engine.Histories.{
  IsSound, submits, cancels, run, run-IsSound, submit_isolated,
}

abbrev ask : Order
ask = record {
  id = 1;
  symbol = codes "ACME";
  side = sell;
  price_ticks = pos 100;
  quantity = 5;
  sequence = 1;
  tif = good_till_cancel;
}

abbrev bid : Order
bid = record {
  id = 2;
  symbol = codes "ACME";
  side = buy;
  price_ticks = pos 101;
  quantity = 7;
  sequence = 2;
  tif = good_till_cancel;
}

abbrev asked : OrderBook
asked = record {
  symbol = codes "ACME";
  bids = [];
  asks = record { price = pos 100; orders = ask ∷ [] } ∷ [];
  live_orders = (1, sell) ∷ [];
}

asked_lives : (i : ℕ) → count_id i (ask ∷ []) ≡ holds sell (lookup i asked.live_orders)
unfolding lookup
asked_lives i = ground arith

asked_no_bid : (i : ℕ) → count_id i [] ≡ holds buy (lookup i asked.live_orders)
unfolding lookup
asked_no_bid i = ground arith

ask-Rests : Rests sell (pos 100) ask
ask-Rests = record { on_side = refl; at_price = refl; open_quantity = omega arith }

asked-IsValid : IsValid asked
asked-IsValid =
    seen-IsValid sell asked ((λ e. cc), (ask-Rests, tt), tt, tt) tt (tt, tt) asked_lives
      asked_no_bid

bid-Accepts : Accepts asked bid
unfolding lookup
bid-Accepts = record {
  same_symbol = refl;
  some_id = omega arith;
  some_quantity = omega arith;
  some_price = omega arith;
  fresh = ground arith;
}

submit_matches_example :
    (b' : OrderBook) × (submit asked bid []
      ≡ some (
        accept bid (match_queue bid 7 (ask ∷ [])).remaining,
        [] ++ (match_queue bid 7 (ask ∷ [])).fills,
        b',
      ))
    × Accepted asked bid (match_queue bid 7 (ask ∷ [])) b'
submit_matches_example = submit_matches asked bid [] asked-IsValid bid-Accepts

submit_total_example :
    (r : Ack × List Fill × OrderBook) × (submit asked bid [] ≡ some r)
    × IsValid r.2
    × (r.2.symbol ≡ codes "ACME")
submit_total_example = submit_total asked bid [] asked-IsValid

submit_refuses_example :
    Accepts asked ask
    ⊎ ((¬ Accepts asked ask)
        × ((reason : String) × (submit asked ask []
              ≡ some (OrderBook.reject ask reason, [], asked))))
submit_refuses_example = submit_refuses asked ask []

abbrev bought : OrderBook
bought = record {
  symbol = codes "ACME";
  bids = record { price = pos 101; orders = record bid { quantity = 2 } ∷ [] } ∷ [];
  asks = [];
  live_orders = (2, buy) ∷ [];
}

abbrev bought_fill : Fill
bought_fill = record {
  taker_id = 2;
  maker_id = 1;
  taker_side = buy;
  price_ticks = pos 100;
  quantity = 5;
  sequence = 2;
}

bid_run : submit asked bid [] ≡ some (accept bid 2, bought_fill ∷ [], bought)
unfolding submit same lookup OrderBook.match OrderBook.sweep OrderBook.turn OrderBook.crosses
    OrderBook.trade OrderBook.settle OrderBook.add_order OrderBook.emplace remove insert
bid_run = refl

submit_conserves_example :
    (new : List Fill) × (bought_fill ∷ [] ≡ [] ++ new)
    × All (IsFair bid) new
    × (traded new + 2 ≡ 7)
    × (depth [] + traded new ≡ depth (ask ∷ []))
    × (depth (record bid { quantity = 2 } ∷ []) ≡ depth [] + 2)
submit_conserves_example =
    submit_conserves asked bid [] (accept bid 2) (bought_fill ∷ []) bought asked-IsValid bid_run
      refl

cancel_live_example :
    (b' : OrderBook) × (cancel asked 1 ≡ (true, b'))
    × (flat (levels_of sell b') ≡ without 1 (ask ∷ []))
    × (levels_of buy b' ≡ [])
    × (lookup 1 b'.live_orders ≡ none)
    × IsValid b'
    × (b'.symbol ≡ codes "ACME")
cancel_live_example = cancel_live asked 1 sell asked-IsValid (unfold lookup in refl)

run-IsSound_example :
    (e : MatchingEngine) × (run new_engine
        (submits ask ∷ submits bid ∷ cancels (codes "ACME") 2 ∷ [])
      ≡ some e)
    × IsSound e
run-IsSound_example = run-IsSound (submits ask ∷ submits bid ∷ cancels (codes "ACME") 2 ∷ [])

abbrev asked_engine : MatchingEngine
asked_engine = record { books = (codes "ACME", asked) ∷ []; next_sequence = 3 }

abbrev bought_engine : MatchingEngine
bought_engine = record { books = (codes "ACME", bought) ∷ []; next_sequence = 3 }

engine_run :
    Engine.submit asked_engine bid [] ≡ some (accept bid 2, bought_fill ∷ [], bought_engine)
unfolding Engine.submit submit Engine.sequenced Engine.book Engine.write_book same lookup
    OrderBook.match OrderBook.sweep OrderBook.turn OrderBook.crosses OrderBook.trade
    OrderBook.settle OrderBook.add_order OrderBook.emplace remove insert
engine_run = refl

submit_isolated_example : book bought_engine (codes "OTHER") ≡ book asked_engine (codes "OTHER")
submit_isolated_example =
    submit_isolated asked_engine bid [] (codes "OTHER")
      (accept bid 2, bought_fill ∷ [], bought_engine) (λ e. cc) engine_run

-- The generator without arguments, with two orders.
abbrev two_mock_orders : MockDataConfig
two_mock_orders = record {
  count = 2;
  seed = 24301;
  symbol = codes "NETF";
  center_price_ticks = pos 10000;
  price_band_ticks = pos 500;
}

generate_mock_orders-AreMock_example :
    (orders : List Order) × (generate_mock_orders two_mock_orders ≡ some orders)
    × AreMock two_mock_orders 2 0 orders
generate_mock_orders-AreMock_example =
    generate_mock_orders-AreMock two_mock_orders (omega arith) (unfold band_of in omega arith)
      (unfold band_of in omega arith) (unfold band_of in omega arith)
