-- ===== src/Tests/Durability.antt =====
-- The log and the server on a file.
use becomeasystemsengineer.Prelude.{◌≡◌, refl, inr, true, List, [], ◌∷◌, ◌++◌, arith, some}
use becomeasystemsengineer.Prelude.Bytes.{Bytes, codes, same, is_empty}
use becomeasystemsengineer.Prelude.Dict.{lookup, insert, remove}
use becomeasystemsengineer.Protocol.Text.{
  contains_nul, split_once, cut, trim, skip_spaces, valid_key,
}
use becomeasystemsengineer.UniqueFd.{owning}
use becomeasystemsengineer.Store.{KvStore, empty_store}
use becomeasystemsengineer.Store
use becomeasystemsengineer.Protocol.Frame.{network_length, encode_frame}
use becomeasystemsengineer.Protocol.Command.{del, parse_command}
use becomeasystemsengineer.Protocol.Command.RoundTrip.{print}
use becomeasystemsengineer.Wal.{
  Wal, recover, append_record, append_set, append_del, write_file_all, sync_file,
}
use becomeasystemsengineer.Wal.Log.{IsRecord, IsTorn, log_bytes, replay}
use becomeasystemsengineer.Wal.Recovering.{recover-replay}
use becomeasystemsengineer.Wal.Appending.{Appended, append_record-Appended}
use becomeasystemsengineer.Server.{Server, PoolCounts, execute}
use becomeasystemsengineer.Server.Durability.{Durable, live, Executed, execute-Executed}
use becomeasystemsengineer.Server.Starting.{ServerOptions, new_server, new_server-replay}
use becomeasystemsengineer.Wal.{new_wal}
use becomeasystemsengineer.Server.Restart.{
  Served, serve, serve-Served, Restored, fresh_server, serve_restores,
}
use becomeasystemsengineer.Tests.Disk.{File, contents, disk, disk_append, disk_log}
use becomeasystemsengineer.Tests.Protocol.{set_a, set_a-IsWellFormed}

set_a-IsRecord : IsRecord set_a
set_a-IsRecord = record { well_formed = set_a-IsWellFormed; mutation = tt; small = omega arith }

abbrev log_file : Wal
log_file = record { path = codes "wal"; fd = owning 3 }

abbrev clean : File
clean = record { passed = []; ahead = [] }

append_record-Appended_example :
    Appended disk 3
      (disk_append 3)
      log_file
      (print set_a)
      clean
      (append_record disk 100 log_file (print set_a) clean)
append_record-Appended_example =
    append_record-Appended disk 3 (disk_append 3) 100 log_file (print set_a) clean (λ e. cc) refl
      (omega arith) (omega arith)

-- A log of one record, and the header of another.
abbrev torn_file : File
torn_file = record { passed = []; ahead = log_bytes (set_a ∷ []) ++ network_length 9 }

network_length-IsTorn : IsTorn (network_length 9)
network_length-IsTorn = inr (9, [], unfold network_length in refl, omega arith, omega arith)

recover-replay_example :
    (s'' : File) × (recover disk 2 70000 log_file empty_store torn_file
      ≡ some (true, replay (set_a ∷ []) empty_store, s''))
    × (contents s'' ≡ log_bytes (set_a ∷ []))
recover-replay_example =
    recover-replay disk 4 (disk_log 4) 70000 log_file (set_a ∷ []) (network_length 9) 2 empty_store
      torn_file torn_file (λ e. cc) refl refl refl (set_a-IsRecord, tt) network_length-IsTorn
      (omega arith) (omega arith)

abbrev idle : PoolCounts
idle = record { submitted = 0; completed = 0 }

fresh-Durable : Durable disk 3 (disk_append 3) 70000 (fresh_server 3 (codes "wal")) clean
fresh-Durable = live [] tt refl (λ e. cc) refl refl (omega arith)

execute-Executed_example :
    Executed disk 3
      (disk_append 3)
      70000
      (fresh_server 3 (codes "wal"))
      (codes "SET a x y")
      (execute disk 70000 (fresh_server 3 (codes "wal")) idle (codes "SET a x y") clean)
execute-Executed_example =
    execute-Executed disk 3 (disk_append 3) 70000 idle (fresh_server 3 (codes "wal"))
      (codes "SET a x y") clean (omega arith) fresh-Durable

abbrev requests : List Bytes
requests = codes "SET a x y" ∷ codes "GET a" ∷ codes "DEL b" ∷ []

serve-Served_example :
    Served disk 3
      (disk_append 3)
      70000
      (serve disk 70000 idle (fresh_server 3 (codes "wal")) requests clean)
serve-Served_example =
    serve-Served disk 3 (disk_append 3) 70000 idle (fresh_server 3 (codes "wal")) requests clean
      (omega arith, (omega arith, (omega arith, tt))) fresh-Durable

abbrev served : Server
served = record {
  store = record { values = (codes "a", codes "x y") ∷ [] };
  wal = record { path = codes "wal"; fd = owning 3 };
}

abbrev kept : File
kept = record { passed = []; ahead = log_bytes (set_a ∷ del (codes "b") ∷ []) }

requests_run :
    serve disk 70000 idle (fresh_server 3 (codes "wal")) requests clean
    ≡ some (codes "OK" ∷ codes "VALUE x y" ∷ codes "NOT_FOUND" ∷ [], served, kept)
unfolding serve execute append_set append_del append_record write_file_all sync_file encode_frame
    network_length Store.get Store.set Store.erase lookup insert remove is_empty parse_command
    contains_nul split_once cut trim skip_spaces same valid_key
requests_run = refl

serve_restores_example :
    Restored disk 3
      (disk_append 3)
      70000
      4
      (disk_log 4)
      log_file
      100
      70000
      served
      (recover disk 100 70000 log_file empty_store kept)
serve_restores_example =
    serve_restores disk 3 (disk_append 3) 70000 4 (disk_log 4) log_file 100 70000 idle (codes "wal")
      requests (codes "OK" ∷ codes "VALUE x y" ∷ codes "NOT_FOUND" ∷ []) served clean kept kept kept
      (λ e. cc) refl (omega arith) (omega arith, (omega arith, (omega arith, tt))) requests_run
      (λ e. cc) refl refl refl (unfold network_length in omega arith) (omega arith)

abbrev options : ServerOptions
options = record {
  bind_address = codes "127.0.0.1";
  port = 0;
  workers = 4;
  queue_capacity = 64;
  max_payload = 65536;
  wal_path = codes "wal";
}

torn_file_opened : new_wal disk (codes "wal") torn_file ≡ (log_file, torn_file)
unfolding new_wal is_empty
torn_file_opened = refl

new_server-replay_example :
    (s'' : File) × (new_server disk 2 70000 options torn_file
      ≡ some ("", record { store = replay (set_a ∷ []) empty_store; wal = log_file }, s''))
    × (contents s'' ≡ log_bytes (set_a ∷ []))
new_server-replay_example =
    new_server-replay disk 4 (disk_log 4) 2 70000 options (set_a ∷ []) (network_length 9) 3
      torn_file torn_file torn_file (omega arith) (λ e. cc) torn_file_opened refl refl refl
      (set_a-IsRecord, tt) network_length-IsTorn (omega arith) (omega arith)
