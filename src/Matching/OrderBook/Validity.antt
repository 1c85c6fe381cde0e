-- ===== src/Matching/OrderBook/Validity.antt =====
-- When an order book is well-formed, and how a book is seen from one side.
use becomeasystemsengineer.Prelude.{ℕ, ◌≡◌, refl, List, [], ◌∷◌, All, Option, none, some}
use becomeasystemsengineer.Prelude.Int.{ℤ, ◌<ℤ◌}
use becomeasystemsengineer.Prelude.Bytes.{Bytes}
use becomeasystemsengineer.Prelude.Dict.{nat_key, lookup}
use becomeasystemsengineer.Matching.Order.{Side, buy, sell, Order}
use becomeasystemsengineer.Matching.OrderBook.{
  Level, OrderBook, empty_book, flat, levels_of, with_levels, other,
}
use becomeasystemsengineer.Matching.OrderBook.Flat.{IsSide}
use becomeasystemsengineer.Matching.OrderBook.Queue.{count_id}

-- A bid's price is below an ask's; the first price is that of an order on the given side.
abbrev pub Clear : Side → ℤ → ℤ → Type 0
Clear buy p q = p <ℤ q
Clear sell p q = q <ℤ p

abbrev pub Faces : Side → List Order → List Order → Type 0
Faces s own opposite = All (λ o. All (λ q. Clear s o.price_ticks q.price_ticks) opposite) own

-- How many resting orders of a side an entry of `live_orders` stands for.
abbrev pub holds : Side → Option Side → ℕ
holds s none = 0
holds buy (some buy) = 1
holds buy (some sell) = 0
holds sell (some buy) = 0
holds sell (some sell) = 1

-- The levels of each side are in order and none is empty; no bid crosses an ask; and an id is live
-- on a side exactly if one order with that id, and no other, rests there.
pub record IsValid (b : OrderBook) : Type 0 where
  pub sides : (s : Side) → IsSide s (levels_of s b)
  pub uncrossed : (s : Side) → Faces s (flat (levels_of s b)) (flat (levels_of (other s) b))
  pub lives :
      (s : Side) (i : ℕ) → count_id i (flat (levels_of s b)) ≡ holds s (lookup i b.live_orders)

All-const : (ys : List Order) → All (λ y. Unit {0}) ys
All-const [] = tt
All-const (y ∷ ys) = (tt, All-const ys)

All-zip :
    (P Q R : Order → Type 0) (ys : List Order)
    → ((y : Order) → P y → Q y → R y)
    → All P ys
    → All Q ys
    → All R ys
All-zip P Q R [] f h k = tt
All-zip P Q R (y ∷ ys) f h k = (f y h.0 k.0, All-zip P Q R ys f h.1 k.1)

All-swap :
    (T : Order → Order → Type 0) (xs ys : List Order)
    → All (λ x. All (T x) ys) xs
    → All (λ y. All (λ x. T x y) xs) ys
All-swap T [] ys h = All-const ys
All-swap T (x ∷ xs) ys h =
    All-zip (T x) (λ y. All (λ x'. T x' y) xs) (λ y. T x y × All (λ x'. T x' y) xs) ys
      (λ y p q. (p, q)) h.0 (All-swap T xs ys h.1)

Faces-swap :
    (s : Side) (own opposite : List Order) → Faces s own opposite → Faces (other s) opposite own
Faces-swap buy own opposite h = All-swap (λ o q. o.price_ticks <ℤ q.price_ticks) own opposite h
Faces-swap sell own opposite h = All-swap (λ o q. q.price_ticks <ℤ o.price_ticks) own opposite h

-- A book is well-formed if it is so as one side sees it.
pub seen-IsValid :
    (s : Side) (b : OrderBook)
    → IsSide s (levels_of s b)
    → IsSide (other s) (levels_of (other s) b)
    → Faces s (flat (levels_of s b)) (flat (levels_of (other s) b))
    → ((i : ℕ) → count_id i (flat (levels_of s b)) ≡ holds s (lookup i b.live_orders))
    → ((i : ℕ)
        → count_id i (flat (levels_of (other s) b)) ≡ holds (other s) (lookup i b.live_orders))
    → IsValid b
seen-IsValid buy b own opp f lo lp = record {
  sides = elim [ buy ↦ own | sell ↦ opp ];
  uncrossed = elim [ buy ↦ f | sell ↦ Faces-swap buy _ _ f ];
  lives = elim [ buy ↦ lo | sell ↦ lp ];
}
seen-IsValid sell b own opp f lo lp = record {
  sides = elim [ buy ↦ opp | sell ↦ own ];
  uncrossed = elim [ buy ↦ Faces-swap sell _ _ f | sell ↦ f ];
  lives = elim [ buy ↦ lp | sell ↦ lo ];
}

-- The new book is valid.
pub empty_book-IsValid : (symbol : Bytes) → IsValid (empty_book symbol)
unfolding empty_book lookup
empty_book-IsValid symbol = seen-IsValid buy _ tt tt tt (λ i. refl) (λ i. refl)

-- The book with one side replaced, as that side and as the other side sees it.
module _ (levels : List Level) where
  pub levels_of-with_levels :
      (s : Side) (b : OrderBook) → levels_of s (with_levels s levels b) ≡ levels
  levels_of-with_levels buy b = refl
  levels_of-with_levels sell b = refl

  pub other-with_levels :
      (s : Side) (b : OrderBook)
      → levels_of (other s) (with_levels s levels b) ≡ levels_of (other s) b
  other-with_levels buy b = refl
  other-with_levels sell b = refl

  pub with_levels-other :
      (s : Side) (b : OrderBook) → levels_of s (with_levels (other s) levels b) ≡ levels_of s b
  with_levels-other buy b = refl
  with_levels-other sell b = refl

  pub live_orders-with_levels :
      (s : Side) (b : OrderBook) → (with_levels s levels b).live_orders ≡ b.live_orders
  live_orders-with_levels buy b = refl
  live_orders-with_levels sell b = refl

pub levels_of-live :
    (s : Side) (b : OrderBook) (live : List (ℕ × Side))
    → levels_of s (record b { live_orders = live }) ≡ levels_of s b
levels_of-live buy b live = refl
levels_of-live sell b live = refl

pub symbol-with_levels :
    (levels : List Level) (s : Side) (b : OrderBook) → (with_levels s levels b).symbol ≡ b.symbol
symbol-with_levels levels buy b = refl
symbol-with_levels levels sell b = refl
