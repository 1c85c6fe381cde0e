-- ===== src/Protocol/Text/Splitting.antt =====
-- Laws of `split_once` and `valid_key`.
use becomeasystemsengineer.Prelude.{
  ℕ, ◌+◌, ◌≤◌, ◌≡◌, ◌≢◌, refl, true, false, Option, none, some, [], ◌∷◌, ◌++◌, arith, length,
  length-append, All, all, ap, sym, ◌∙◌, Bool-cases, inl, inr, ◌⊎◌, append_assoc, subst, reverse,
}
use becomeasystemsengineer.Prelude.Bytes.{Bytes}
use becomeasystemsengineer.Protocol.Text.{
  is_space, is_separator, is_key_byte, trim, cut, split_once, valid_key, contains_nul,
}
use becomeasystemsengineer.Protocol.Text.Trimming.{
  length-trim, All-trim, IsTrimmed, trim-IsTrimmed, trim_id, Begins, append-IsTrimmed, All-reverse,
}

-- `cut` finds nothing, or splits the text at a separator.
abbrev CutCases : Bytes → Option (Bytes × Bytes) → Type 0
CutCases t out =
    (out ≡ none)
    ⊎ ((word : Bytes) × (rest : Bytes) × (sep : ℕ) × (out ≡ some (word, rest))
        × (t ≡ word ++ sep ∷ rest))

cut_step : (c : ℕ) (t : Bytes) → CutCases t (cut t) → CutCases (c ∷ t) (cut (c ∷ t))
unfolding cut
cut_step c t ih = elim (Bool-cases (is_separator c)) [
  | inl s ↦ inr ([], t, c, rw s, refl)
  | inr n ↦ elim ih [
    | inl e ↦ inl (rw (n, e))
    | inr (word, rest, sep, e, f) ↦
        inr (c ∷ word, rest, sep, rw (n, e), ap (λ (u : Bytes). c ∷ u) f)
  ]
]

cut_cases : (t : Bytes) → CutCases t (cut t)
cut_cases [] = inl (unfold cut in refl)
cut_cases (c ∷ t) = cut_step c t (cut_cases t)

-- The two parts of `split_once`, and why: the text has no separator, or the first part ends at one.
pub split_once_cases :
    (t : Bytes)
    → (split_once t ≡ (trim t, []))
      ⊎ ((word : Bytes) × (rest : Bytes) × (sep : ℕ) × (split_once t ≡ (word, trim rest))
          × (trim t ≡ word ++ sep ∷ rest))
unfolding split_once
split_once_cases t = elim (cut_cases (trim t)) [
  | inl e ↦ inl (rw e)
  | inr (word, rest, sep, e, f) ↦ inr (word, rest, sep, rw e, f)
]

-- With a second part, the first part, the separator and the second part fit into the text.
pub length-split_once :
    (t a b : Bytes) → split_once t ≡ (a, b) → b ≢ [] → length a + 1 + length b ≤ length t
length-split_once t a b h ne = elim (split_once_cases t) [
  | inl e ↦ absurd (ne (ap (λ (p : Bytes × Bytes). p.1) (sym h ∙ e)))
  | inr (word, rest, sep, e, f) ↦
      let p : a ≡ word = ap (λ (p : Bytes × Bytes). p.0) (sym h ∙ e) in
      let q : b ≡ trim rest = ap (λ (p : Bytes × Bytes). p.1) (sym h ∙ e) in
      omega (
        arith,
        ap length p,
        ap length q,
        length-trim rest,
        length-trim t,
        ap length f,
        length-append word (sep ∷ rest),
      )
]

pub length-split_once_first : (t a b : Bytes) → split_once t ≡ (a, b) → length a ≤ length t
length-split_once_first t a b h = elim (split_once_cases t) [
  | inl e ↦ omega (arith, ap (λ (p : Bytes × Bytes). length p.0) (sym h ∙ e), length-trim t)
  | inr (word, rest, sep, e, f) ↦ omega (
    arith,
    ap (λ (p : Bytes × Bytes). length p.0) (sym h ∙ e),
    length-trim t,
    ap length f,
    length-append word (sep ∷ rest),
  )
]

-- The second part is trimmed.
pub split_once-IsTrimmed : (t a b : Bytes) → split_once t ≡ (a, b) → IsTrimmed b
split_once-IsTrimmed t a b h = elim (split_once_cases t) [
  | inl e ↦ rw (ap (λ (p : Bytes × Bytes). p.1) (sym h ∙ e)) (record { front = tt; back = tt })
  | inr (word, rest, sep, e, f) ↦
      rw (ap (λ (p : Bytes × Bytes). p.1) (sym h ∙ e)) (trim-IsTrimmed rest)
]

module _ (P : ℕ → Type 0) where
  All-append_right : (xs ys : Bytes) → All P (xs ++ ys) → All P ys
  All-append_right [] ys h = h
  All-append_right (x ∷ xs) ys h = All-append_right xs ys h.1

  -- The second part holds no byte that the text does not hold.
  pub All-split_once : (t a b : Bytes) → split_once t ≡ (a, b) → All P t → All P b
  All-split_once t a b h k = elim (split_once_cases t) [
    | inl e ↦ rw (ap (λ (p : Bytes × Bytes). p.1) (sym h ∙ e)) tt
    | inr (word, rest, sep, e, f) ↦
        rw (ap (λ (p : Bytes × Bytes). p.1) (sym h ∙ e))
          (All-trim P rest (All-append_right word (sep ∷ rest) (rw f at (All-trim P t k))).1)
  ]

pub contains_nul-false : (t : Bytes) → contains_nul t ≡ false → All (λ c. c ≢ 0) t
unfolding contains_nul
contains_nul-false [] h = tt
contains_nul-false (c ∷ t) h = (ground arith, contains_nul-false t (ground arith))

pub contains_nul-none : (t : Bytes) → All (λ c. c ≢ 0) t → contains_nul t ≡ false
unfolding contains_nul
contains_nul-none [] h = refl
contains_nul-none (c ∷ t) h = ground (arith, contains_nul-none t h.1)

-- Bytes that stop neither `trim` nor `cut`.
abbrev pub IsWord : Bytes → Type 0
IsWord = All (λ c. (is_space c ≡ false) × (is_separator c ≡ false) × (c ≢ 0))

key_byte-word :
    (c : ℕ) → is_key_byte c ≡ true → (is_space c ≡ false) × (is_separator c ≡ false) × (c ≢ 0)
key_byte-word c h = ground arith

keys-IsWord : (key : Bytes) → all is_key_byte key ≡ true → IsWord key
keys-IsWord [] h = tt
keys-IsWord (c ∷ key) h = (key_byte-word c (ground arith), keys-IsWord key (ground arith))

pub valid_key-IsWord : (key : Bytes) → valid_key key ≡ true → IsWord key
unfolding valid_key
valid_key-IsWord key h = keys-IsWord key (ground arith)

pub valid_key-ne-nil : (key : Bytes) → valid_key key ≡ true → key ≢ []
valid_key-ne-nil [] h e = unfold valid_key in cc
valid_key-ne-nil (c ∷ key) h e = cc

cut-word : (word rest : Bytes) → IsWord word → cut (word ++ b' ' ∷ rest) ≡ some (word, rest)
unfolding cut
cut-word [] rest h = refl
cut-word (c ∷ word) rest h = rw (h.0.1, cut-word word rest h.1)

cut-word_alone : (word : Bytes) → IsWord word → cut word ≡ none
unfolding cut
cut-word_alone [] h = refl
cut-word_alone (c ∷ word) h = rw (h.0.1, cut-word_alone word h.1)

pub word-Begins : (word rest : Bytes) → IsWord word → word ≢ [] → Begins (word ++ rest)
word-Begins [] rest h ne = absurd (ne refl)
word-Begins (c ∷ word) rest h ne = h.0.0

-- A word, a space and a trimmed text are a trimmed text.
pub word-IsTrimmed :
    (word rest : Bytes)
    → IsWord word
    → word ≢ []
    → rest ≢ []
    → IsTrimmed rest
    → IsTrimmed (word ++ b' ' ∷ rest)
word-IsTrimmed word rest h ne ne' k = subst IsTrimmed (append_assoc word (b' ' ∷ []) rest) (
    append-IsTrimmed (word ++ b' ' ∷ []) rest
      (rw append_assoc (word-Begins word (b' ' ∷ rest) h ne)) ne' k)

-- A word, a space and a trimmed text split into the word and the text.
pub split_once-word :
    (word rest : Bytes)
    → IsWord word
    → word ≢ []
    → rest ≢ []
    → IsTrimmed rest
    → split_once (word ++ b' ' ∷ rest) ≡ (word, rest)
unfolding split_once
split_once-word word rest h ne ne' k = rw (
  trim_id (word ++ b' ' ∷ rest) (word-IsTrimmed word rest h ne ne' k),
  cut-word word rest h,
  trim_id rest k,
)

pub split_once-word_alone :
    (word : Bytes) → IsWord word → IsTrimmed word → split_once word ≡ (word, [])
unfolding split_once
split_once-word_alone word h k = rw (trim_id word k, cut-word_alone word h)

IsWord-reverse_front : (word : Bytes) → IsWord word → Begins (reverse word)
IsWord-reverse_front word h = front (reverse word) (All-reverse _ word h)
  where
    front : (t : Bytes) → IsWord t → Begins t
    front [] h = tt
    front (c ∷ t) h = h.0.0

pub IsWord-IsTrimmed : (word : Bytes) → IsWord word → IsTrimmed word
IsWord-IsTrimmed [] h = record { front = tt; back = tt }
IsWord-IsTrimmed (c ∷ word) h = record { front = h.0.0; back = IsWord-reverse_front (c ∷ word) h }
