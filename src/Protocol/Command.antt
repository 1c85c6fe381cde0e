-- ===== src/Protocol/Command.antt =====
-- The commands of capstone/reference: `Command`, `ParseError`, `ParseResult` and `parse_command`.
pub mod RoundTrip
pub mod Parsed
use Prim.Native.String.{String}
use becomeasystemsengineer.Prelude.{Bool, ◌&&◌, ◌||◌, not, true, false, ◌++◌, if◌then◌else◌}
use becomeasystemsengineer.Prelude.Bytes.{Bytes, codes, same, is_empty}
use becomeasystemsengineer.Protocol.Text.{split_once, valid_key, contains_nul}

pub data Command : Type 0 where
  ping stats : Command
  get del : Bytes → Command
  set : Bytes → Bytes → Command

pub data ParseResult : Type 0 where
  command : Command → ParseResult
  parse_error : String → ParseResult

abbrev pub ping_verb : Bytes
ping_verb = codes "PING"

abbrev pub stats_verb : Bytes
stats_verb = codes "STATS"

abbrev pub get_verb : Bytes
get_verb = codes "GET"

abbrev pub del_verb : Bytes
del_verb = codes "DEL"

abbrev pub set_verb : Bytes
set_verb = codes "SET"

-- The branch of GET and DEL.
abbrev pub parse_one_key : Bytes → Bytes × Bytes → ParseResult
parse_one_key verb (key, extra) =
    if not (valid_key key) || not (is_empty extra)
    then parse_error "GET/DEL requires exactly one safe key"
    else if same verb get_verb
    then command (get key)
    else command (del key)

-- The branch of SET.
abbrev pub parse_set : Bytes × Bytes → ParseResult
parse_set (key, value) =
    if not (valid_key key) || is_empty value
    then parse_error "SET requires a safe key and a non-empty value"
    else command (set key value)

abbrev pub parse_verb : Bytes × Bytes → ParseResult
parse_verb (verb, arguments) =
    if same verb ping_verb && is_empty arguments
    then command ping
    else if same verb stats_verb && is_empty arguments
    then command stats
    else if same verb get_verb || same verb del_verb
    then parse_one_key verb (split_once arguments)
    else if same verb set_verb
    then parse_set (split_once arguments)
    else parse_error "unknown or malformed command"

unfoldable pub parse_command : Bytes → ParseResult
unfolding is_empty
parse_command payload =
    if contains_nul payload
    then parse_error "NUL bytes are not valid command text"
    else parse_verb (split_once payload)
