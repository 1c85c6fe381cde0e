-- ===== src/Tests/Protocol.antt =====
-- Frames and commands on concrete bytes.
use becomeasystemsengineer.Prelude.{◌≡◌, ◌≤◌, refl, [], ◌++◌, arith, some}
use becomeasystemsengineer.Prelude.Bytes.{codes}
use becomeasystemsengineer.Protocol.Text.{valid_key}
use becomeasystemsengineer.Protocol.Frame.{frame, network_length}
use becomeasystemsengineer.Protocol.Io.{ok, eof, too_large, io, send_frame}
use becomeasystemsengineer.Protocol.Io.Receiving.{
  Receives, received, recv_frame-frame, recv_frame-too_large, recv_frame-torn,
}
use becomeasystemsengineer.Protocol.Io.Sending.{send_frame-frame}
use becomeasystemsengineer.Protocol.Command.{Command, set, parse_command, command}
use becomeasystemsengineer.Protocol.Command.RoundTrip.{IsWellFormed, parse_command-print}
use becomeasystemsengineer.Protocol.Command.Parsed.{Fits, parse_command-Fits}
use becomeasystemsengineer.Posix.{emsgsize}
use becomeasystemsengineer.Tests.Disk.{
  File, contents, disk, disk_stream, disk-ReadsWell, disk_sink, disk_writes_well,
}

abbrev pinged : File
pinged = record { passed = []; ahead = frame (codes "PING") ++ frame (codes "STATS") }

recv_frame-frame_example :
    Receives disk 0
      (disk_stream 0)
      (disk-ReadsWell 0)
      20
      64
      pinged
      (received ok (codes "PING") 0)
      (frame (codes "STATS"))
recv_frame-frame_example =
    recv_frame-frame disk 0 (disk_stream 0) (disk-ReadsWell 0) 20 64 (codes "PING")
      (frame (codes "STATS")) pinged refl (omega arith) (omega arith) (omega arith)

abbrev oversized : File
oversized = record { passed = []; ahead = network_length 65 ++ codes "PING" }

recv_frame-too_large_example :
    Receives disk 0
      (disk_stream 0)
      (disk-ReadsWell 0)
      20
      64
      oversized
      (received too_large [] emsgsize)
      (codes "PING")
recv_frame-too_large_example =
    recv_frame-too_large disk 0 (disk_stream 0) (disk-ReadsWell 0) 20 64 65 (codes "PING") oversized
      refl (omega arith) (omega arith) (omega arith)

abbrev cut_off : File
cut_off = record { passed = []; ahead = network_length 5 ++ codes "PING" }

recv_frame-torn_example :
    Receives disk 0 (disk_stream 0) (disk-ReadsWell 0) 20 64 cut_off (received eof [] 0) []
recv_frame-torn_example =
    recv_frame-torn disk 0 (disk_stream 0) (disk-ReadsWell 0) 20 64 5 (codes "PING") cut_off refl
      (omega arith) (omega arith) (omega arith) (omega arith)

abbrev nothing : File
nothing = record { passed = []; ahead = [] }

send_frame-frame_example :
    (s' : File) × (send_frame disk 20 1 (codes "PING") nothing ≡ some (io ok 8 0, s'))
    × (contents s' ≡ [] ++ frame (codes "PING"))
    × (0 ≤ 0)
send_frame-frame_example =
    send_frame-frame disk 1 (disk_sink 1) (disk_writes_well 1) 20 (codes "PING") nothing
      (omega arith) (omega arith)

abbrev pub set_a : Command
set_a = set (codes "a") (codes "x y")

pub set_a-IsWellFormed : IsWellFormed set_a
unfolding valid_key
set_a-IsWellFormed = (
  refl,
  (λ e. cc),
  record { front = refl; back = refl },
  ((λ e. omega (arith, e)), ((λ e. omega (arith, e)), ((λ e. omega (arith, e)), tt))),
)

parse_command-print_example : parse_command (codes "SET a x y") ≡ command set_a
parse_command-print_example = parse_command-print set_a set_a-IsWellFormed

parse_command-Fits_example : Fits 7 (parse_command (codes "GET  a "))
parse_command-Fits_example = parse_command-Fits (codes "GET  a ")
