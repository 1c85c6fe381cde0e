-- ===== src/Matching/Engine.antt =====
-- capstone/matching/solution-reference: include/matching/engine.hpp and src/engine.cpp.
-- The books that the engine owns are a map from symbols; a reference to a book is that book and the
-- write of the new book under its symbol afterwards.
pub mod Histories
use becomeasystemsengineer.Prelude.{
  ℕ, ◌+◌, ◌%◌, ◌^◌, Bool, Option, none, some, List, [], ◌==◌, if◌then◌else◌,
}
use becomeasystemsengineer.Prelude.Bytes.{Bytes}
use becomeasystemsengineer.Prelude.Dict.{bytes_key, lookup, insert}
use becomeasystemsengineer.Matching.Order.{Order, Fill, Ack}
use becomeasystemsengineer.Matching.OrderBook
use becomeasystemsengineer.Matching.OrderBook.{OrderBook, empty_book}

pub record MatchingEngine : Type 0 where
  pub books : List (Bytes × OrderBook)
  pub next_sequence : ℕ

-- The constructor ignores the requested ingress capacity.
unfoldable pub new_engine : MatchingEngine
new_engine = record { books = []; next_sequence = 1 }

-- `books_.find`, and the new book that stands in where there is none.
unfoldable pub book : MatchingEngine → Bytes → OrderBook
book e symbol = elim (lookup symbol e.books) [ none ↦ empty_book symbol | some b ↦ b ]

-- What the reference that `book` returns points to becomes `b`.
unfoldable pub write_book : MatchingEngine → Bytes → OrderBook → MatchingEngine
write_book e symbol b = record e { books = insert symbol b e.books }

unfoldable pub prepare_symbol : MatchingEngine → Bytes → MatchingEngine
unfolding book write_book
prepare_symbol e symbol = write_book e symbol (book e symbol)

-- An order without a sequence number gets the next one.
unfoldable pub sequenced : MatchingEngine → Order → Order × MatchingEngine
sequenced e order =
    if order.sequence == 0
    then (
      record order { sequence = e.next_sequence },
      record e { next_sequence = (e.next_sequence + 1) % 2 ^ 64 },
    )
    else (order, e)

abbrev pub written :
    MatchingEngine → Bytes → Ack × List Fill × OrderBook → Ack × List Fill × MatchingEngine
written e symbol (ack, fills, b) = (ack, fills, write_book e symbol b)

abbrev pub written_if :
    MatchingEngine
    → Bytes
    → Option (Ack × List Fill × OrderBook)
    → Option (Ack × List Fill × MatchingEngine)
written_if e symbol none = none
written_if e symbol (some r) = some (written e symbol r)

unfoldable pub submit :
    MatchingEngine → Order → List Fill → Option (Ack × List Fill × MatchingEngine)
submit e order fills =
    let (order', e') = sequenced e order in
    written_if e' order'.symbol (OrderBook.submit (book e' order'.symbol) order' fills)

unfoldable pub cancel : MatchingEngine → Bytes → ℕ → Bool × MatchingEngine
cancel e symbol order_id =
    let (done, b) = OrderBook.cancel (book e symbol) order_id in (done, write_book e symbol b)
