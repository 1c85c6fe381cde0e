-- ===== src/Tests/Numbers.antt =====
-- A port of the command line.
use becomeasystemsengineer.Prelude.{◌≡◌, false, none, some}
use becomeasystemsengineer.Prelude.Decimal.{decimal}
use becomeasystemsengineer.Arguments.{server_port, client_port, parse_size}
use becomeasystemsengineer.Arguments.Ports.{numbers_parsed}

numbers_parsed_example :
    (server_port (decimal 65536) ≡ none)
    × (client_port (decimal 65536) ≡ none)
    × (parse_size false (decimal 65536) ≡ some 65536)
numbers_parsed_example = numbers_parsed 65536 false
