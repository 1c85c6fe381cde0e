-- ===== src/Prelude/Updates.antt =====
-- Functions on numbers with one of their values changed.
use Prim.Native.Nat.{ℕ}
use mathlib.Core.Path.{◌≡◌, refl, ◌∙◌, sym}
use mathlib.Core.Logic.{◌≢◌, ◌⊎◌, inl, inr}
use becomeasystemsengineer.Prelude.Tests.{◌==◌, ==_iff, Bool-cases, if◌then◌else◌}
use native.Mathlib.Omega.{arith}

abbrev pub set_at : {B : Type 0} → (ℕ → B) → ℕ → B → ℕ → B
set_at f i0 new i = if i == i0 then new else f i

pub same_number : (a b : ℕ) → (a ≡ b) ⊎ (a ≢ b)
same_number a b = elim (Bool-cases (a == b)) [
  | inl e ↦ inl ((==_iff a b).0 e)
  | inr e ↦ inr (λ same. ground (arith, (==_iff a b).1 same, e))
]

module _ {B : Type 0} (f : ℕ → B) (i0 : ℕ) (new : B) where
  pub set_at-same : set_at f i0 new i0 ≡ new
  set_at-same = rw ((==_iff i0 i0).1 refl) refl

  pub set_at-other : (i : ℕ) → i ≢ i0 → set_at f i0 new i ≡ f i
  set_at-other i ne = elim (Bool-cases (i == i0)) [
    | inl e ↦ absurd (ne ((==_iff i i0).0 e))
    | inr e ↦ rw e refl
  ]

-- A change that is taken back.
pub set_at-undone :
    {B : Type 0} (f : ℕ → B) (i0 : ℕ) (new old : B)
    → f i0 ≡ old
    → set_at (set_at f i0 new) i0 old ≡ f
set_at-undone f i0 new old h =
    let at : (i : ℕ) → set_at (set_at f i0 new) i0 old i ≡ f i = λ i. elim (same_number i i0) [
      | inl same ↦ rw same (set_at-same (set_at f i0 new) i0 old ∙ sym h)
      | inr ne ↦ set_at-other (set_at f i0 new) i0 old i ne ∙ set_at-other f i0 new i ne
    ] in
    λ t i. at i t
