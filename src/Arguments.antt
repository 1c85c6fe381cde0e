-- ===== src/Arguments.antt =====
-- The numbers on the command lines of capstone/reference/apps: `parse_port` of server_main.cpp and of
-- client_main.cpp, `parse_size` of bench_main.cpp; and the command that client_main.cpp joins.
pub mod Ports
use becomeasystemsengineer.Prelude.{
  ℕ, ◌^◌, Bool, true, false, ◌&&◌, ◌||◌, not, Option, none, some, List, [], ◌∷◌, ◌++◌, leb, ◌==◌,
  if◌then◌else◌,
}
use becomeasystemsengineer.Prelude.Bytes.{Bytes}
use becomeasystemsengineer.Prelude.Decimal.{from_chars}

abbrev pub max_port : ℕ
max_port = 65535

-- The number, if it passes the test and nothing follows it.
abbrev pub whole_number : (ℕ → Bool) → Option (ℕ × Bytes) → Option ℕ
whole_number test none = none
whole_number test (some (value, [])) = if test value then some value else none
whole_number test (some (value, b ∷ rest)) = none

unfoldable pub server_port : Bytes → Option ℕ
unfolding from_chars
server_port text = whole_number (λ value. leb value max_port) (from_chars (2 ^ 32) text)

unfoldable pub client_port : Bytes → Option ℕ
unfolding from_chars
client_port text =
    whole_number (λ value. not (value == 0) && leb value max_port) (from_chars (2 ^ 32) text)

unfoldable pub parse_size : Bool → Bytes → Option ℕ
unfolding from_chars
parse_size allow_zero text =
    whole_number (λ value. allow_zero || not (value == 0)) (from_chars (2 ^ 64) text)

-- The arguments behind the port, with spaces between them.
unfoldable pub join_arguments : List Bytes → Bytes
join_arguments [] = []
join_arguments (argument ∷ []) = argument
join_arguments (argument ∷ (next ∷ rest)) = argument ++ b' ' ∷ join_arguments (next ∷ rest)
