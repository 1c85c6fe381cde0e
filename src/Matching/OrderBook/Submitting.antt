-- ===== src/Matching/OrderBook/Submitting.antt =====
-- What `OrderBook::submit` does to a well-formed book, on every branch.
use becomeasystemsengineer.Prelude.{
  ◌+◌, ◌≡◌, refl, List, ◌++◌, true, false, ◌&&◌, ◌||◌, arith, if◌then◌else◌, All, some, ◌==◌, ap,
  sym, ltb, ◌∙◌, Bool-cases, inl, inr, subst, ◌⊎◌, Option-cases, some_inj,
}
use Prim.Native.String.{String}
use mathlib.Core.Option.{Option}
use becomeasystemsengineer.Prelude.Int.{pos, leb_ℤ}
use becomeasystemsengineer.Prelude.Bytes.{same, same_iff}
use becomeasystemsengineer.Prelude.Dict.{nat_key, lookup}
use becomeasystemsengineer.Matching.Order.{Order, Fill, Ack}
use becomeasystemsengineer.Matching.OrderBook.{
  Level, OrderBook, flat, levels_of, other, submit, match, accept, reject, is_gtc, rounds,
}
use becomeasystemsengineer.Matching.OrderBook.Flat.{flat-open}
use becomeasystemsengineer.Matching.OrderBook.Settling.{
  Accepts, Accepted, own_after, settled-done, settled-rest, matched,
}
use becomeasystemsengineer.Matching.OrderBook.Sweeping.{sweep-Swept}
use becomeasystemsengineer.Matching.OrderBook.Queue.{
  Match, match_queue, match_queue-conserves, match_queue-IsFair, IsFair, traded, depth,
  queue_up-depth,
}
use becomeasystemsengineer.Matching.OrderBook.Validity.{IsValid}

submit-match :
    (b : OrderBook) (o : Order) (fills : List Fill)
    → Accepts b o
    → submit b o fills ≡ match b o fills
unfolding submit
submit-match b o fills a = ground (arith, same_iff o.symbol b.symbol)

same_result :
    {r : Option (Ack × List Fill × OrderBook)} {x y : Ack × List Fill × OrderBook}
    → r ≡ some x
    → r ≡ some y
    → (y.0 ≡ x.0) × (y.1 ≡ x.1) × (y.2 ≡ x.2)
same_result {r} {x} {y} p q =
    let e : y ≡ x = some_inj (sym q ∙ p) in
    (
      ap (λ (r : Ack × List Fill × OrderBook). r.0) e,
      ap (λ (r : Ack × List Fill × OrderBook). r.1) e,
      ap (λ (r : Ack × List Fill × OrderBook). r.2) e,
    )

module _ (b : OrderBook) (o : Order) (fills : List Fill) where
  -- On a well-formed book an order that passes the checks is matched against the other side by price
  -- and time, what is left of a good-till-cancel order is queued up on its own side, and the book is
  -- well-formed again. The call returns.
  pub submit_matches :
      IsValid b
      → Accepts b o
      → let m = match_queue o o.quantity (flat (levels_of (other o.side) b)) in
        (b' : OrderBook) × (submit b o fills ≡ some (accept o m.remaining, fills ++ m.fills, b'))
        × Accepted b o m b'
  unfolding match
  submit_matches v a =
      let (levels, vs, e, done) =
        sweep-Swept (other o.side) (rounds opposite) o o.quantity fills b.live_orders opposite
          (v.sides (other o.side)) (omega arith) in
      rw (submit-match b o fills a, done)
        (elim (Bool-cases (ltb 0 (matched b o v a fills).remaining && is_gtc o.tif)) [
          | inl h ↦ let (p, q) = settled-rest b o v a fills levels vs e h in (_, ap some p, q)
          | inr h ↦ let (p, q) = settled-done b o v a fills levels vs e h in (_, ap some p, q)
        ])
    where
      opposite : List Level
      opposite = levels_of (other o.side) b

  -- An order either passes the checks, or does not pass them and is refused with the book and the
  -- fills as they were.
  pub submit_refuses :
      Accepts b o
      ⊎ ((¬ Accepts b o)
          × ((reason : String) × (submit b o fills ≡ some (reject o reason, fills, b))))
  unfolding submit
  submit_refuses = elim (Bool-cases (same o.symbol b.symbol)) [
    | inr h ↦ inr (
      (λ a. ground (arith, same_iff o.symbol b.symbol, a.same_symbol)),
      ("symbol mismatch", rw h),
    )
    | inl same_symbol ↦
        elim (Bool-cases (o.id == 0 || (o.quantity == 0 || leb_ℤ o.price_ticks (pos 0)))) [
          | inr fine ↦ elim (Option-cases (lookup o.id b.live_orders)) [
            | inr (s, h) ↦
                inr ((λ a. let free = a.fresh in cc), ("duplicate live order id", ground arith))
            | inl fresh ↦ inl (record {
              same_symbol = (same_iff o.symbol b.symbol).0 same_symbol;
              some_id = ground arith;
              some_quantity = ground arith;
              some_price = ground arith;
              fresh = fresh;
            })
          ]
          | inl h ↦ inr (
            (λ a.
                let id = a.some_id in
                let size = a.some_quantity in let price = a.some_price in ground arith),
            ("invalid order", rw (same_symbol, h)),
          )
        ]
  ]

  -- What a call that returns has done, by the acknowledgement.
  abbrev pub Submitted : Ack → List Fill → OrderBook → Type 0
  Submitted ack fills' b' =
      Accepts b o
      × (let m = match_queue o o.quantity (flat (levels_of (other o.side) b)) in
          (ack ≡ accept o m.remaining) × (fills' ≡ fills ++ m.fills) × Accepted b o m b')

  submit_accepted_cases :
      (ack : Ack) (fills' : List Fill) (b' : OrderBook)
      → IsValid b
      → submit b o fills ≡ some (ack, fills', b')
      → ((ack.accepted ≡ false) × (fills' ≡ fills) × (b' ≡ b)) ⊎ Submitted ack fills' b'
  submit_accepted_cases ack fills' b' v h = elim submit_refuses [
    | inr (_, (reason, e)) ↦
        let (p, q, r) = same_result e h in inl (ap (λ (a : Ack). a.accepted) p, q, r)
    | inl a ↦
        let (b'', e, good) = submit_matches v a in
        let (p, q, r) = same_result e h in inr (a, (p, q, subst (Accepted b o _) (sym r) good))
  ]

  -- Every call on a well-formed book returns, and leaves a well-formed book of the same symbol.
  pub submit_total :
      IsValid b
      → (r : Ack × List Fill × OrderBook) × (submit b o fills ≡ some r)
        × IsValid r.2
        × (r.2.symbol ≡ b.symbol)
  submit_total v = elim submit_refuses [
    | inr (_, (reason, e)) ↦ (_, e, v, refl)
    | inl a ↦ let (b', e, good) = submit_matches v a in (_, e, good.valid, good.symbol_kept)
  ]

own_depth :
    (o : Order) (m : Match) (own : List Order)
    → depth (own_after o m own) ≡ depth own + (if is_gtc o.tif then m.remaining else 0)
own_depth o m own = ground (arith, queue_up-depth o.side (record o { quantity = m.remaining }) own)

-- An accepted order trades with the other side alone: what is traded and what remains add up to its
-- quantity, the other side loses exactly what is traded, the own side gains exactly what remains of
-- an order that may rest, and each fill is at a price that the order accepts.
pub submit_conserves :
    (b : OrderBook) (o : Order) (fills : List Fill) (ack : Ack) (fills' : List Fill)
    (b' : OrderBook)
    → IsValid b
    → submit b o fills ≡ some (ack, fills', b')
    → ack.accepted ≡ true
    → (new : List Fill) × (fills' ≡ fills ++ new)
      × All (IsFair o) new
      × (traded new + ack.remaining ≡ o.quantity)
      × (depth (flat (levels_of (other o.side) b')) + traded new
          ≡ depth (flat (levels_of (other o.side) b)))
      × (depth (flat (levels_of o.side b'))
          ≡ depth (flat (levels_of o.side b)) + (if is_gtc o.tif then ack.remaining else 0))
submit_conserves b o fills ack fills' b' v h yes_accepted =
    elim (submit_accepted_cases b o fills ack fills' b' v h) [
      | inl (no_accepted, _, _) ↦ cc
      | inr (a, (e, f, good)) ↦
          let m = match_queue o o.quantity (flat (levels_of (other o.side) b)) in
          let c = match_queue-conserves o o.quantity (flat (levels_of (other o.side) b)) in
          let r : ack.remaining ≡ m.remaining = ap (λ (x : Ack). x.remaining) e in
          (
            m.fills,
            f,
            match_queue-IsFair o o.quantity _ (flat-open (other o.side) _ (v.sides (other o.side))),
            omega (arith, c, r),
            omega (arith, c, ap depth good.opposite_side),
            ap depth good.own_side ∙ own_depth o m _ ∙ rw r refl,
          )
    ]
