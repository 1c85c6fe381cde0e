-- ===== src/Server.antt =====
-- capstone/reference: include/netforge/server.hpp and src/server.cpp: `execute` here, the constructor
-- in Starting. `mutation_mutex_` makes a mutation one step.
pub mod Durability
pub mod Restart
pub mod Starting
pub mod Handling
pub mod Listening
pub mod Statistics
use Prim.Native.String.{String}
use mathlib.Core.Option
use becomeasystemsengineer.Prelude.{
  ℕ, zero, suc, Bool, true, false, ◌&&◌, not, Option, none, some, List, [], ◌∷◌, ◌++◌, ltb,
  if◌then◌else◌,
}
use becomeasystemsengineer.Prelude.Bytes.{Bytes, codes, is_empty}
use becomeasystemsengineer.Prelude.Decimal.{decimal}
use becomeasystemsengineer.Posix.{Posix}
use becomeasystemsengineer.UniqueFd.{UniqueFd}
use becomeasystemsengineer.Store
use becomeasystemsengineer.Store.{KvStore, empty_store}
use becomeasystemsengineer.Wal
use becomeasystemsengineer.Wal.{Wal, new_wal, enabled, append_set, append_del, recover}
use becomeasystemsengineer.Protocol.Frame.{default_max_payload}
use becomeasystemsengineer.Protocol.Io.{
  IoStatus, ok, eof, would_block, error, too_large, malformed, IoResult, FrameResult, recv_frame,
  send_frame, is_ok,
}
use becomeasystemsengineer.Protocol.Command.{
  Command, ping, stats, get, del, set, ParseResult, command, parse_error, parse_command,
}

-- The members that requests read and write.
pub record Server : Type 0 where
  pub store : KvStore
  pub wal : Wal

-- What the loads of `pool_.submitted()` and then of `pool_.completed()` give; Statistics has them.
pub record PoolCounts : Type 0 where
  pub submitted : ℕ
  pub completed : ℕ

abbrev pub wal_failure : Bytes
wal_failure = codes "ERR WAL failure"

abbrev pub stats_reply : Server → PoolCounts → Bytes
stats_reply srv counts =
    codes "keys="
    ++ (decimal (Store.size srv.store)
        ++ (codes " submitted="
            ++ (decimal counts.submitted ++ (codes " completed=" ++ decimal counts.completed))))

abbrev pub get_reply : Option Bytes → Bytes
get_reply none = codes "NOT_FOUND"
get_reply (some value) = codes "VALUE " ++ value

module _ (p : Posix) where
  open p use {Os}

  -- DEL after the append to the log.
  abbrev pub del_after : Server → Bytes → Option (Bool × Wal × Os) → Option (Bytes × Server × Os)
  del_after srv key none = none
  del_after srv key (some (false, wal, s)) = some (wal_failure, record srv { wal = wal }, s)
  del_after srv key (some (true, wal, s)) =
      let (erased, store) = Store.erase key srv.store in
      some (
        (if erased then codes "DELETED" else codes "NOT_FOUND"),
        record { store = store; wal = wal },
        s,
      )

  -- SET after the append to the log.
  abbrev pub set_after :
      Server → Bytes → Bytes → Option (Bool × Wal × Os) → Option (Bytes × Server × Os)
  set_after srv key value none = none
  set_after srv key value (some (false, wal, s)) = some (wal_failure, record srv { wal = wal }, s)
  set_after srv key value (some (true, wal, s)) =
      some (codes "OK", record { store = Store.set key value srv.store; wal = wal }, s)

  -- `std::visit`: the reply, the server and the world after a command.
  abbrev pub visit : ℕ → Server → PoolCounts → ParseResult → Os → Option (Bytes × Server × Os)
  visit fuel srv counts (parse_error message) s = some (codes "ERR " ++ codes message, srv, s)
  visit fuel srv counts (command ping) s = some (codes "PONG", srv, s)
  visit fuel srv counts (command stats) s = some (stats_reply srv counts, srv, s)
  visit fuel srv counts (command (get key)) s = some (get_reply (Store.get key srv.store), srv, s)
  visit fuel srv counts (command (del key)) s = del_after srv key (append_del p fuel srv.wal key s)
  visit fuel srv counts (command (set key value)) s =
      set_after srv key value (append_set p fuel srv.wal key value s)

  unfoldable pub execute : ℕ → Server → PoolCounts → Bytes → Os → Option (Bytes × Server × Os)
  execute fuel srv counts request s = visit fuel srv counts (parse_command request) s
