-- ===== src/Protocol/Command/RoundTrip.antt =====
-- A command written as a request is parsed as that command.
use becomeasystemsengineer.Prelude.{
  ◌≡◌, ◌≢◌, refl, true, false, [], ◌∷◌, ◌++◌, arith, All, All-append,
}
use becomeasystemsengineer.Prelude.Bytes.{Bytes, same, is_empty}
use becomeasystemsengineer.Protocol.Text
use becomeasystemsengineer.Protocol.Text.{valid_key, contains_nul, split_once}
use becomeasystemsengineer.Protocol.Text.Trimming.{IsTrimmed}
use becomeasystemsengineer.Protocol.Text.Splitting.{
  IsWord, valid_key-IsWord, valid_key-ne-nil, word-IsTrimmed, split_once-word,
  split_once-word_alone, IsWord-IsTrimmed, contains_nul-none,
}
use becomeasystemsengineer.Protocol.Command.{
  Command, ping, stats, get, del, set, command, parse_command, ping_verb, stats_verb, get_verb,
  del_verb, set_verb,
}

-- The text of a request, as a client sends it and as the write-ahead log keeps it.
abbrev pub print : Command → Bytes
print ping = ping_verb
print stats = stats_verb
print (get key) = get_verb ++ b' ' ∷ key
print (del key) = del_verb ++ b' ' ∷ key
print (set key value) = set_verb ++ b' ' ∷ (key ++ b' ' ∷ value)

-- What a command holds: safe keys, and values that are not empty, have no space at their ends, and
-- no NUL byte.
abbrev pub IsWellFormed : Command → Type 0
IsWellFormed ping = Unit
IsWellFormed stats = Unit
IsWellFormed (get key) = valid_key key ≡ true
IsWellFormed (del key) = valid_key key ≡ true
IsWellFormed (set key value) =
    (valid_key key ≡ true) × (value ≢ []) × IsTrimmed value × All (λ c. c ≢ 0) value

word-no_nul : (word : Bytes) → IsWord word → All (λ c. c ≢ 0) word
word-no_nul [] h = tt
word-no_nul (c ∷ word) h = (h.0.2, word-no_nul word h.1)

get-IsWord : IsWord get_verb
get-IsWord = ground arith

del-IsWord : IsWord del_verb
del-IsWord = ground arith

set-IsWord : IsWord set_verb
set-IsWord = ground arith

-- Splitting off a verb.
verb-split :
    (verb rest : Bytes)
    → IsWord verb
    → verb ≢ []
    → rest ≢ []
    → IsTrimmed rest
    → All (λ c. c ≢ 0) rest
    → (contains_nul (verb ++ b' ' ∷ rest) ≡ false)
      × (split_once (verb ++ b' ' ∷ rest) ≡ (verb, rest))
verb-split verb rest h ne ne' k z = (
  contains_nul-none _ (
      All-append (λ c. c ≢ 0) verb (b' ' ∷ rest) (word-no_nul verb h)
        ((λ e. absurd (omega arith)), z)),
  split_once-word verb rest h ne ne' k,
)

parse-ping : parse_command ping_verb ≡ command ping
unfolding parse_command split_once Text.trim Text.skip_spaces Text.cut contains_nul same
parse-ping = refl

parse-stats : parse_command stats_verb ≡ command stats
unfolding parse_command split_once Text.trim Text.skip_spaces Text.cut contains_nul same
parse-stats = refl

key-split :
    (verb key : Bytes)
    → IsWord verb
    → verb ≢ []
    → valid_key key ≡ true
    → (contains_nul (verb ++ b' ' ∷ key) ≡ false)
      × (split_once (verb ++ b' ' ∷ key) ≡ (verb, key))
      × (split_once key ≡ (key, []))
key-split verb key h ne v =
    let w = valid_key-IsWord key v in
    let (z, e) =
      verb-split verb key h ne (valid_key-ne-nil key v) (IsWord-IsTrimmed key w)
        (word-no_nul key w) in
    (z, e, split_once-word_alone key w (IsWord-IsTrimmed key w))

append-ne-nil : (xs ys : Bytes) → xs ≢ [] → (xs ++ ys) ≢ []
append-ne-nil [] ys h e = h refl
append-ne-nil (x ∷ xs) ys h e = cc

set-split :
    (key value : Bytes)
    → IsWellFormed (set key value)
    → (contains_nul (print (set key value)) ≡ false)
      × (split_once (print (set key value)) ≡ (set_verb, key ++ b' ' ∷ value))
      × (split_once (key ++ b' ' ∷ value) ≡ (key, value))
set-split key value (v, ne, t, z) =
    let w = valid_key-IsWord key v in
    let ne' = valid_key-ne-nil key v in
    let (z', e) =
      verb-split set_verb (key ++ b' ' ∷ value) set-IsWord (λ e. cc)
        (append-ne-nil key (b' ' ∷ value) ne') (word-IsTrimmed key value w ne' ne t)
        (All-append (λ c. c ≢ 0) key (b' ' ∷ value) (word-no_nul key w)
          ((λ e. absurd (omega arith)), z)) in
    (z', e, split_once-word key value w ne' ne t)

pub is_empty-ne-nil : (t : Bytes) → t ≢ [] → is_empty t ≡ false
unfolding is_empty
is_empty-ne-nil [] h = absurd (h refl)
is_empty-ne-nil (c ∷ t) h = refl

-- Every well-formed command is parsed back from its text.
pub parse_command-print : (c : Command) → IsWellFormed c → parse_command (print c) ≡ command c
unfolding parse_command same
parse_command-print ping h = parse-ping
parse_command-print stats h = parse-stats
parse_command-print (get key) h =
    let (z, e, f) = key-split get_verb key get-IsWord (λ e. cc) h in rw (z, e, f, h)
parse_command-print (del key) h =
    let (z, e, f) = key-split del_verb key del-IsWord (λ e. cc) h in rw (z, e, f, h)
parse_command-print (set key value) h =
    let (z, e, f) = set-split key value h in rw (z, e, f, h.0, is_empty-ne-nil value h.1)
