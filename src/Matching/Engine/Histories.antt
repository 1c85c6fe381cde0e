-- ===== src/Matching/Engine/Histories.antt =====
-- What holds of the engine after any history of calls.
use becomeasystemsengineer.Prelude.{
  ℕ, ◌≡◌, ◌≢◌, refl, Bool, true, false, Option, none, some, List, [], ◌∷◌, if◌then◌else◌, arith,
  Option-cases, inl, inr, ◌∙◌,
}
use becomeasystemsengineer.Prelude.Bytes.{Bytes, same, same_iff}
use becomeasystemsengineer.Prelude.Dict.{bytes_key, nat_key, lookup, lookup-insert}
use becomeasystemsengineer.Matching.Order.{Order, Fill, Ack}
use becomeasystemsengineer.Matching.OrderBook
use becomeasystemsengineer.Matching.OrderBook.{OrderBook, empty_book}
use becomeasystemsengineer.Matching.OrderBook.Validity.{IsValid, empty_book-IsValid}
use becomeasystemsengineer.Matching.OrderBook.Submitting.{submit_total}
use becomeasystemsengineer.Matching.OrderBook.Cancelling.{cancel-IsValid}
use becomeasystemsengineer.Matching.Engine.{
  MatchingEngine, new_engine, book, write_book, prepare_symbol, sequenced, submit, cancel, written,
}

-- Every book is well-formed, and stands under its own symbol.
pub record IsSound (e : MatchingEngine) : Type 0 where
  pub valid : (symbol : Bytes) → IsValid (book e symbol)
  pub named : (symbol : Bytes) → (book e symbol).symbol ≡ symbol

pub book-write_book :
    (e : MatchingEngine) (symbol other : Bytes) (b : OrderBook)
    → book (write_book e symbol b) other ≡ (if same symbol other then b else book e other)
unfolding book write_book
book-write_book e symbol other b = ground (arith, lookup-insert symbol other b e.books)

pick {ℓ} :
    {A : Type ℓ} (P : A → Type 0) (c : Bool) {x y : A}
    → (c ≡ true → P x)
    → P y
    → P (if c then x else y)
pick P true p q = p refl
pick P false p q = q

write_book-IsSound :
    (e : MatchingEngine) (symbol : Bytes) (b : OrderBook)
    → IsSound e
    → IsValid b
    → b.symbol ≡ symbol
    → IsSound (write_book e symbol b)
write_book-IsSound e symbol b s v n = record {
  valid = λ other. rw book-write_book (pick IsValid (same symbol other) (λ _. v) (s.valid other));
  named = λ other. rw book-write_book (
      pick (λ (o : OrderBook). o.symbol ≡ other) (same symbol other)
        (λ h. n ∙ (same_iff symbol other).0 h) (s.named other));
}

-- A call of a client; what it is told of fills is not kept.
pub data Call : Type 0 where
  prepares : Bytes → Call
  submits : Order → Call
  cancels : Bytes → ℕ → Call

abbrev state_of : Option (Ack × List Fill × MatchingEngine) → Option MatchingEngine
state_of none = none
state_of (some r) = some r.2

-- `none` if the call does not return.
unfoldable pub step : MatchingEngine → Call → Option MatchingEngine
step e (prepares symbol) = some (prepare_symbol e symbol)
step e (submits order) = state_of (submit e order [])
step e (cancels symbol id) = some (cancel e symbol id).1

unfoldable pub run : MatchingEngine → List Call → Option MatchingEngine
run e [] = some e
run e (c ∷ calls) = elim (step e c) [ none ↦ none | some e' ↦ run e' calls ]

book-sequenced :
    (e : MatchingEngine) (o : Order) (symbol : Bytes)
    → book (sequenced e o).1 symbol ≡ book e symbol
unfolding sequenced book
book-sequenced e o symbol = ground arith

sequenced-IsSound : (e : MatchingEngine) (o : Order) → IsSound e → IsSound (sequenced e o).1
sequenced-IsSound e o s = record {
  valid = λ symbol. rw book-sequenced (s.valid symbol);
  named = λ symbol. rw book-sequenced (s.named symbol);
}

-- A call on a sound engine returns, and the engine is sound again.
pub submit-IsSound :
    (e : MatchingEngine) (o : Order) (fills : List Fill)
    → IsSound e
    → (r : Ack × List Fill × MatchingEngine) × (submit e o fills ≡ some r) × IsSound r.2
unfolding submit
submit-IsSound e o fills s =
    let (o', e') = sequenced e o in
    let s' = sequenced-IsSound e o s in
    let (r, p, v, k) = submit_total (book e' o'.symbol) o' fills (s'.valid o'.symbol) in
    (
      written e' o'.symbol r,
      rw p,
      write_book-IsSound e' o'.symbol r.2 s' v (k ∙ s'.named o'.symbol),
    )

step-IsSound :
    (e : MatchingEngine) (c : Call)
    → IsSound e
    → (e' : MatchingEngine) × (step e c ≡ some e') × IsSound e'
unfolding step prepare_symbol cancel
step-IsSound e (prepares symbol) s =
    (_, refl, write_book-IsSound e symbol _ s (s.valid symbol) (s.named symbol))
step-IsSound e (submits o) s = let (r, p, s') = submit-IsSound e o [] s in (r.2, rw p, s')
step-IsSound e (cancels symbol id) s =
    let (v, k) = cancel-IsValid (book e symbol) id (s.valid symbol) in
    (_, refl, write_book-IsSound e symbol _ s v (k ∙ s.named symbol))

new_engine-IsSound : IsSound new_engine
unfolding new_engine book lookup empty_book
new_engine-IsSound = record { valid = λ symbol. empty_book-IsValid symbol; named = λ symbol. refl }

run-IsSound_from :
    (e : MatchingEngine) (calls : List Call)
    → IsSound e
    → (e' : MatchingEngine) × (run e calls ≡ some e') × IsSound e'
unfolding run
run-IsSound_from e [] s = (e, refl, s)
run-IsSound_from e (c ∷ calls) s =
    let (e', p, s') = step-IsSound e c s in
    let (e'', q, s'') = run-IsSound_from e' calls s' in (e'', rw (p, run) q, s'')

-- From a new engine every history of calls returns, and in the end each book is well-formed (no
-- empty level, no bid at or above an ask, live ids exactly those that rest) and has its symbol.
pub run-IsSound :
    (calls : List Call) → (e : MatchingEngine) × (run new_engine calls ≡ some e) × IsSound e
run-IsSound calls = run-IsSound_from new_engine calls new_engine-IsSound

-- A call that returns has not touched the books of other symbols.
pub submit_isolated :
    (e : MatchingEngine) (o : Order) (fills : List Fill) (symbol : Bytes)
    (r : Ack × List Fill × MatchingEngine)
    → o.symbol ≢ symbol
    → submit e o fills ≡ some r
    → book r.2 symbol ≡ book e symbol
unfolding submit
submit_isolated e o fills symbol r ne h =
    elim (Option-cases (OrderBook.submit (book e' o'.symbol) o' fills)) [
      | inl q ↦ ground arith
      | inr (x, q) ↦
          let p : written e' o'.symbol x ≡ r = ground arith in
          rw (← p, book-write_book) (rw other_symbol (book-sequenced e o symbol))
    ]
  where
    o' : Order
    o' = (sequenced e o).0

    e' : MatchingEngine
    e' = (sequenced e o).1

    other_symbol : same o'.symbol symbol ≡ false
    other_symbol = unfold sequenced in ground (arith, same_iff o.symbol symbol)
