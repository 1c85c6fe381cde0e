-- ===== src/Protocol/Command/Parsed.antt =====
-- What a parsed command is known to be.
use becomeasystemsengineer.Prelude.{
  ℕ, ◌+◌, ◌≤◌, ◌≡◌, ◌≢◌, refl, true, false, ◌&&◌, ◌||◌, [], ◌∷◌, arith, ap, length, length-append,
  Bool-cases, inl, inr,
}
use becomeasystemsengineer.Prelude.Bytes.{Bytes, same, same_iff, is_empty}
use becomeasystemsengineer.Protocol.Text.{valid_key, contains_nul, split_once}
use becomeasystemsengineer.Protocol.Text.Splitting.{
  length-split_once, length-split_once_first, split_once-IsTrimmed, All-split_once,
  contains_nul-false, valid_key-ne-nil,
}
use becomeasystemsengineer.Protocol.Command.{
  ParseResult, command, parse_error, parse_command, ping_verb, stats_verb, get_verb, del_verb,
  set_verb, parse_one_key, parse_set, parse_verb,
}
use becomeasystemsengineer.Protocol.Command.RoundTrip.{print, IsWellFormed}

-- What is to be known of a result: a command is well-formed and its text is no longer than `n`.
abbrev pub Fits : ℕ → ParseResult → Type 0
Fits n (command c) = IsWellFormed c × (length (print c) ≤ n)
Fits n (parse_error e) = Unit

is_empty-false : (t : Bytes) → is_empty t ≡ false → t ≢ []
unfolding is_empty
is_empty-false [] h e = cc
is_empty-false (c ∷ t) h e = cc

same-length : (s t : Bytes) → same s t ≡ true → length s ≡ length t
same-length s t h = ap length ((same_iff s t).0 h)

verb-length : (verb : Bytes) → (same verb get_verb || same verb del_verb) ≡ true → length verb ≡ 3
verb-length verb h = elim (Bool-cases (same verb get_verb)) [
  | inl g ↦ same-length verb get_verb g
  | inr n ↦ same-length verb del_verb (ground arith)
]

-- A text with a first part is not empty.
first-ne-nil : (t a b : Bytes) → split_once t ≡ (a, b) → a ≢ [] → t ≢ []
first-ne-nil t [] b e ne k = ne refl
first-ne-nil t (c ∷ a) b e ne k = omega (arith, length-split_once_first t (c ∷ a) b e, ap length k)

-- The parts of a payload: its verb, its arguments, and the two parts of the arguments.
module _ (payload verb arguments key rest : Bytes) (split : split_once payload ≡ (verb, arguments))
    (split_arguments : split_once arguments ≡ (key, rest)) where
  arguments-fit : valid_key key ≡ true → length verb + 1 + length arguments ≤ length payload
  arguments-fit v =
      length-split_once payload verb arguments split
        (first-ne-nil arguments key rest split_arguments (valid_key-ne-nil key v))

  one_key-Fits :
      (same verb get_verb || same verb del_verb) ≡ true
      → Fits (length payload) (parse_one_key verb (key, rest))
  one_key-Fits h = elim (Bool-cases (valid_key key)) [
    | inr bad ↦ rw bad tt
    | inl v ↦ ground (
      arith,
      arguments-fit v,
      verb-length verb h,
      length-split_once_first arguments key rest split_arguments,
    )
  ]

  set-Fits :
      same verb set_verb ≡ true
      → contains_nul payload ≡ false
      → Fits (length payload) (parse_set (key, rest))
  set-Fits h z = elim (Bool-cases (valid_key key)) [
    | inr bad ↦ rw bad tt
    | inl v ↦ elim (Bool-cases (is_empty rest)) [
      | inl none_left ↦ rw (v, none_left) tt
      | inr some_left ↦
          let ne = is_empty-false rest some_left in
          rw (v, some_left)
            (
              (
                v,
                ne,
                split_once-IsTrimmed arguments key rest split_arguments,
                All-split_once _ arguments key rest split_arguments
                    (All-split_once _ payload verb arguments split (contains_nul-false payload z)),
              ),
              omega (
                arith,
                arguments-fit v,
                same-length verb set_verb h,
                length-split_once arguments key rest split_arguments ne,
                length-append key (b' ' ∷ rest),
              ),
            )
    ]
  ]

  whole : (word : Bytes) → same verb word ≡ true → length word ≤ length payload
  whole word h =
      omega (arith, same-length verb word h, length-split_once_first payload verb arguments split)

  verb-Fits : contains_nul payload ≡ false → Fits (length payload) (parse_verb (verb, arguments))
  verb-Fits z = elim (Bool-cases (same verb ping_verb && is_empty arguments)) [
    | inl p ↦ rw p (tt, whole ping_verb (ground arith))
    | inr np ↦ elim (Bool-cases (same verb stats_verb && is_empty arguments)) [
      | inl s ↦ rw (np, s) (tt, whole stats_verb (ground arith))
      | inr ns ↦ elim (Bool-cases (same verb get_verb || same verb del_verb)) [
        | inl g ↦ rw (np, ns, g, split_arguments) (one_key-Fits g)
        | inr ng ↦ elim (Bool-cases (same verb set_verb)) [
          | inl t ↦ rw (np, ns, ng, t, split_arguments) (set-Fits t z)
          | inr nt ↦ rw (np, ns, ng, nt) tt
        ]
      ]
    ]
  ]

-- Every command that is parsed is well-formed, and written as a request it is no longer than the
-- payload that it was parsed from.
pub parse_command-Fits : (payload : Bytes) → Fits (length payload) (parse_command payload)
unfolding parse_command
parse_command-Fits payload = elim (Bool-cases (contains_nul payload)) [
  | inl z ↦ rw z tt
  | inr z ↦ rw z (
      verb-Fits payload (split_once payload).0 (split_once payload).1
        (split_once (split_once payload).1).0 (split_once (split_once payload).1).1 refl refl z)
]
