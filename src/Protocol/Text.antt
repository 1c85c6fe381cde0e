-- ===== src/Protocol/Text.antt =====
-- The text helpers of capstone/reference/src/protocol.cpp: trim, split_once, valid_key.
-- A `std::string_view` is the list of its bytes; the character classes are those of the C locale.
pub mod Trimming
pub mod Splitting
use becomeasystemsengineer.Prelude.{
  ℕ, Bool, true, false, ◌&&◌, ◌||◌, not, Option, none, some, List, [], ◌∷◌, ltb, leb, ◌==◌,
  if◌then◌else◌, length, all, reverse,
}
use becomeasystemsengineer.Prelude.Bytes.{Bytes, is_empty}

-- `std::isspace`
abbrev pub is_space : ℕ → Bool
is_space c = c == b' ' || (leb 9 c && leb c 13)

-- `std::isalnum`
abbrev pub is_alnum : ℕ → Bool
is_alnum c =
    (leb b'0' c && leb c b'9') || ((leb b'A' c && leb c b'Z') || (leb b'a' c && leb c b'z'))

-- A separator of `find_first_of(" \t\r\n")`
abbrev pub is_separator : ℕ → Bool
is_separator c = c == b' ' || (c == 9 || (c == 13 || c == 10))

-- The first loop of `trim`; the second is the same on the bytes read backwards.
unfoldable pub skip_spaces : Bytes → Bytes
skip_spaces [] = []
skip_spaces (c ∷ text) = if is_space c then skip_spaces text else c ∷ text

unfoldable pub trim : Bytes → Bytes
trim text = reverse (skip_spaces (reverse (skip_spaces text)))

abbrev pub ahead_of : ℕ → Option (Bytes × Bytes) → Option (Bytes × Bytes)
ahead_of c none = none
ahead_of c (some (word, rest)) = some (c ∷ word, rest)

-- The bytes before the first separator and those behind it, or `none` for `npos`.
unfoldable pub cut : Bytes → Option (Bytes × Bytes)
cut [] = none
cut (c ∷ text) = if is_separator c then some ([], text) else ahead_of c (cut text)

abbrev pub halves : Bytes → Option (Bytes × Bytes) → Bytes × Bytes
halves text none = (text, [])
halves text (some (word, rest)) = (word, trim rest)

unfoldable pub split_once : Bytes → Bytes × Bytes
split_once text = let trimmed = trim text in halves trimmed (cut trimmed)

abbrev pub is_key_byte : ℕ → Bool
is_key_byte c = is_alnum c || (c == b'_' || (c == b'-' || (c == b'.' || c == b':')))

unfoldable pub valid_key : Bytes → Bool
unfolding is_empty
valid_key key = if is_empty key || ltb 128 (length key) then false else all is_key_byte key

-- `find('\0') != npos`
unfoldable pub contains_nul : Bytes → Bool
contains_nul [] = false
contains_nul (c ∷ text) = c == 0 || contains_nul text
