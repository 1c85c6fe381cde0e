-- ===== src/Protocol/Text/Trimming.antt =====
-- Laws of `trim`.
use mathlib.Core.List.{reverse-append, reverse-reverse, reverse-cons}
use becomeasystemsengineer.Prelude.{
  ℕ, ◌≤◌, ◌≡◌, ◌≢◌, refl, false, [], ◌∷◌, ◌++◌, arith, length, length-reverse, All, All-append, ap,
  sym, ◌∙◌, reverse, Bool-cases, inl, inr,
}
use becomeasystemsengineer.Prelude.Bytes.{Bytes}
use becomeasystemsengineer.Protocol.Text.{is_space, skip_spaces, trim}

pub length-skip_spaces : (t : Bytes) → length (skip_spaces t) ≤ length t
unfolding skip_spaces
length-skip_spaces [] = omega arith
length-skip_spaces (c ∷ t) = ground (arith, length-skip_spaces t)

pub length-trim : (t : Bytes) → length (trim t) ≤ length t
unfolding trim
length-trim t = omega (
  arith,
  length-reverse (skip_spaces (reverse (skip_spaces t))),
  length-skip_spaces (reverse (skip_spaces t)),
  length-reverse (skip_spaces t),
  length-skip_spaces t,
)

module _ (P : ℕ → Type 0) where
  All-skip_spaces : (t : Bytes) → All P t → All P (skip_spaces t)
  unfolding skip_spaces
  All-skip_spaces [] h = tt
  All-skip_spaces (c ∷ t) h = ground (arith, All-skip_spaces t h.1)

  pub All-reverse : (t : Bytes) → All P t → All P (reverse t)
  All-reverse [] h = tt
  All-reverse (c ∷ t) h =
      rw reverse-cons (All-append P (reverse t) (c ∷ []) (All-reverse t h.1) (h.0, tt))

  pub All-trim : (t : Bytes) → All P t → All P (trim t)
  unfolding trim
  All-trim t h = All-reverse _ (All-skip_spaces _ (All-reverse _ (All-skip_spaces t h)))

-- The text does not begin with a space; the empty text does not.
abbrev pub Begins : Bytes → Type 0
Begins [] = Unit
Begins (c ∷ t) = is_space c ≡ false

pub skip_spaces-Begins : (t : Bytes) → Begins (skip_spaces t)
unfolding skip_spaces
skip_spaces-Begins [] = tt
skip_spaces-Begins (c ∷ t) = ground (arith, skip_spaces-Begins t)

skip_spaces_id : (t : Bytes) → Begins t → skip_spaces t ≡ t
unfolding skip_spaces
skip_spaces_id [] h = refl
skip_spaces_id (c ∷ t) h = ground arith

-- What `skip_spaces` leaves of a text with a last byte that is no space.
skip_spaces-last :
    (t : Bytes) (c : ℕ)
    → is_space c ≡ false
    → (u : Bytes) × (skip_spaces (t ++ c ∷ []) ≡ u ++ c ∷ [])
unfolding skip_spaces
skip_spaces-last [] c h = ([], ground arith)
skip_spaces-last (d ∷ t) c h = elim (Bool-cases (is_space d)) [
  | inl s ↦ let (u, e) = skip_spaces-last t c h in (u, rw s e)
  | inr n ↦ (d ∷ t, rw n)
]

-- Trimming the end leaves the beginning.
back-Begins : (t : Bytes) → Begins t → Begins (reverse (skip_spaces (reverse t)))
back-Begins [] h = unfold skip_spaces in tt
back-Begins (c ∷ t) h =
    let (u, e) = skip_spaces-last (reverse t) c h in
    rw (reverse-cons c t, e, reverse-append u (c ∷ [])) h

-- A text without spaces at its ends.
pub record IsTrimmed (t : Bytes) : Type 0 where
  pub front : Begins t
  pub back : Begins (reverse t)

pub trim-IsTrimmed : (t : Bytes) → IsTrimmed (trim t)
unfolding trim
trim-IsTrimmed t = record {
  front = back-Begins (skip_spaces t) (skip_spaces-Begins t);
  back = rw reverse-reverse (skip_spaces-Begins (reverse (skip_spaces t)));
}

pub trim_id : (t : Bytes) → IsTrimmed t → trim t ≡ t
unfolding trim
trim_id t h = rw (skip_spaces_id t h.front, skip_spaces_id (reverse t) h.back) (reverse-reverse t)

-- A text that begins with no space, and ends like a trimmed text that is not empty.
pub append-IsTrimmed : (t u : Bytes) → Begins (t ++ u) → u ≢ [] → IsTrimmed u → IsTrimmed (t ++ u)
append-IsTrimmed t u h ne k = record {
  front = h;
  back =
      rw reverse-append
        (prefix (reverse u) (reverse t) (λ e. ne (sym (reverse-reverse u) ∙ ap reverse e)) k.back);
}
  where
    prefix : (xs ys : Bytes) → xs ≢ [] → Begins xs → Begins (xs ++ ys)
    prefix [] ys ne b = absurd (ne refl)
    prefix (x ∷ xs) ys ne b = b
