-- ===== src/Tests/Network.antt =====
-- A network with one descriptor to give away, number 3.
use becomeasystemsengineer.Prelude.{
  ℕ, ◌<◌, ◌≡◌, refl, ap, Bool, true, false, some, [], ◌∷◌, arith, length, take, drop, set_at, ◌==◌,
}
use becomeasystemsengineer.Prelude.Bytes.{Bytes, codes}
use becomeasystemsengineer.Posix.{Posix, Reply, returns, fails}
use becomeasystemsengineer.Sockets.{Sockets, SocketLaws, View, Calm, Opens, einprogress}

pub record World : Type 0 where
  pub opened : ℕ → Bool
  pub flags : ℕ → ℕ
  pub input : Bytes

abbrev pub start : World
start = record { opened = λ fd. false; flags = λ fd. 2; input = 0 ∷ 0 ∷ 0 ∷ 4 ∷ codes "PONG" }

abbrev pub nothing : World → Reply (Unit {0}) × World
nothing w = (returns tt, w)

abbrev pub net : Posix
net = record {
  Os = World;
  read = λ fd n w. (returns (take n w.input), record w { input = drop n w.input });
  send = λ fd bs w. (returns (length bs), w);
  write = λ fd bs w. (returns (length bs), w);
  fsync = λ fd. nothing;
  ftruncate = λ fd n. nothing;
  lseek = λ fd w. (returns 0, w);
  parent_path = λ path. [];
  create_directories = λ path w. (true, w);
  open_append = λ path w. (fails 2, w);
  open_rdwr = λ path w. (fails 2, w);
  close = λ fd w. record w { opened = set_at w.opened fd false };
}

-- What is free is given away.
abbrev pub give : Bool → World → Reply ℕ × World
give true w = (fails 24, w)
give false w = (returns 3, record w { opened = set_at w.opened 3 true })

-- An attempt at address 0 succeeds at once, at another one after a wait.
abbrev pub attempt : Bool → World → Reply (Unit {0}) × World
attempt true w = (returns tt, w)
attempt false w = (fails einprogress, w)

abbrev pub sockets : Sockets net
sockets = record {
  Address = ℕ;
  getaddrinfo = λ node service passive w. (returns (1 ∷ 0 ∷ []), w);
  socket = λ address w. give (w.opened 3) w;
  get_descriptor_flags = λ fd w. (returns 0, w);
  set_descriptor_flags = λ fd n. nothing;
  get_status_flags = λ fd w. (returns (w.flags fd), w);
  set_status_flags = λ fd n w. (returns tt, record w { flags = set_at w.flags fd n });
  set_receive_timeout = λ fd n. nothing;
  set_send_timeout = λ fd n. nothing;
  set_reuse_address = λ fd. nothing;
  socket_error = λ fd w. (returns 0, w);
  connect = λ fd address w. attempt (address == 0) w;
  bind = λ fd address. nothing;
  listen = λ fd n. nothing;
  getsockname = λ fd w. (returns (some 7070), w);
  accept = λ fd w. give (w.opened 3) w;
  poll_output = λ fd ms w. (returns true, w);
  poll_input = λ fd ms w. (returns (some (record { input = true; broken = false })), w);
  now = λ w. (5, w);
  errno = λ w. 0;
  strerror = λ e. [];
  gai_strerror = λ e. [];
}

abbrev pub seen : View World
seen = record { opened = λ w. w.opened; flags = λ w. w.flags; signals = λ w. 0 }

pub calm : (w : World) → Calm seen w w
calm w = (refl, refl, omega arith)

pub give-Opens : (b : Bool) (w : World) → w.opened 3 ≡ b → Opens seen w (give b w)
give-Opens true w e = calm w
give-Opens false w e = (e, refl, omega arith)

pub attempt-Calm : (b : Bool) (w : World) → Calm seen w (attempt b w).1
attempt-Calm true w = calm w
attempt-Calm false w = calm w

pub attempt_fails : (b : Bool) (e : ℕ) (w w' : World) → attempt b w ≡ (fails e, w') → 0 < e
attempt_fails true e w w' h = cc
attempt_fails false e w w' h = let same : e ≡ einprogress = cc in omega (arith, same)

abbrev pub laws : SocketLaws net sockets
laws = record {
  view = seen;
  getaddrinfo_lem = λ node service b w. calm w;
  socket_lem = λ a w. give-Opens (w.opened 3) w refl;
  accept_lem = λ fd w. give-Opens (w.opened 3) w refl;
  opened-close = λ fd w own. refl;
  signals-close = λ fd w. omega arith;
  get_descriptor_flags_lem = λ fd w. calm w;
  set_descriptor_flags_lem = λ fd n w. calm w;
  get_status_flags_lem = λ fd w. calm w;
  got_status_flags = λ fd n w w' h. let same : n ≡ w.flags fd = cc in same;
  set_status_flags_opened = λ fd n w. refl;
  set_status_flags_signals = λ fd n w. omega arith;
  set_status_flags_done = λ fd n w w' h.
      let same : w' ≡ record w { flags = set_at w.flags fd n } = cc in
      ap (λ (x : World). x.flags) same;
  set_status_flags_fails = λ fd n e w w' h. absurd cc;
  set_receive_timeout_lem = λ fd n w. calm w;
  set_send_timeout_lem = λ fd n w. calm w;
  set_reuse_address_lem = λ fd w. calm w;
  socket_error_lem = λ fd w. calm w;
  connect_lem = λ fd a w. attempt-Calm (a == 0) w;
  connect_fails = λ fd e a w w' h. attempt_fails (a == 0) e w w' h;
  bind_lem = λ fd a w. calm w;
  listen_lem = λ fd n w. calm w;
  getsockname_lem = λ fd w. calm w;
  poll_output_lem = λ fd ms w. calm w;
  poll_output_interrupted = λ fd ms w w' h. absurd cc;
  poll_input_lem = λ fd ms w. calm w;
  now_lem = λ w. calm w;
  read_lem = λ fd n w. (refl, refl, omega arith);
  read_interrupted = λ fd n w w' h. absurd cc;
  send_lem = λ fd bs w. calm w;
  send_count = λ fd n bs w w' h. let same : n ≡ length bs = cc in omega (arith, same);
  send_interrupted = λ fd bs w w' h. absurd cc;
}
