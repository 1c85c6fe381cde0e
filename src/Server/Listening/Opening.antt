-- ===== src/Server/Listening/Opening.antt =====
-- The descriptor of the listener.
use becomeasystemsengineer.Prelude.{
  ◌≤◌, ℕ, ◌≡◌, true, false, Option, none, some, List, arith, ◌∙◌, set_at,
}
use becomeasystemsengineer.Prelude.Decimal.{decimal}
use becomeasystemsengineer.Posix.{Posix, Reply, returns, fails}
use becomeasystemsengineer.Sockets.{Sockets, SocketLaws, Calm, Calm-trans, close_on_exec, ◌>>◌}
use becomeasystemsengineer.Sockets.Configuring.{
  Owns, Owns-later, first_prepared-Owns, closed_again, Calm->>=, close_on_exec-Calm,
}
use becomeasystemsengineer.Server.Starting.{ServerOptions}
use becomeasystemsengineer.Server.Listening.{
  backlog, ignoring, prepare, find_listener, named, found, resolved, open_listener,
}

module _ (p : Posix) (k : Sockets p) (l : SocketLaws p k) where
  open l use {view, opened, signals, signals-close, getaddrinfo_lem, getsockname_lem}

  prepare-Calm : (fd : ℕ) (a : k.Address) (s : p.Os) → Calm view s (prepare p k fd a s).1
  unfolding prepare
  prepare-Calm fd a s =
      Calm->>= view (close_on_exec p k fd)
        (λ u. ignoring p k (k.set_reuse_address fd) >> (k.bind fd a >> k.listen fd backlog)) s
        (close_on_exec-Calm p k l fd s)
        (λ u s1.
          let calm = l.set_reuse_address_lem fd s1 in
          let s2 = (k.set_reuse_address fd s1).1 in
          Calm-trans view s1 s2 ((k.bind fd a >> k.listen fd backlog) s2).1 calm (
            Calm->>= view (k.bind fd a) (λ v. k.listen fd backlog) s2 (l.bind_lem fd a s2)
              (λ v s3. l.listen_lem fd backlog s3)))

  find_listener-Owns :
      (addresses : List k.Address) (s : p.Os) → Owns p k l s (find_listener p k addresses s)
  unfolding find_listener
  find_listener-Owns addresses s =
      first_prepared-Owns p k l (prepare p k) (λ fd a s'. prepare-Calm fd a s') addresses s

  named-Owns :
      (fd : ℕ) (s s1 : p.Os) (r : Reply (Option ℕ)) (s2 : p.Os)
      → opened s fd ≡ false
      → opened s2 ≡ set_at (opened s) fd true
      → signals s2 ≤ signals s
      → Owns p k l s ((named p k fd (r, s2)).0.listener, (named p k fd (r, s2)).1)
  named-Owns fd s s1 (fails e) s2 new o g =
      (closed_again p k l fd s s2 new o, let less = signals-close fd s2 in omega (arith, g, less))
  named-Owns fd s s1 (returns none) s2 new o g = (new, o, g)
  named-Owns fd s s1 (returns (some port)) s2 new o g = (new, o, g)

  found-Owns :
      (s s1 : p.Os) (r : Option ℕ) (s2 : p.Os)
      → Owns p k l s (r, s2)
      → Owns p k l s ((found p k (r, s2)).0.listener, (found p k (r, s2)).1)
  found-Owns s s1 none s2 h = h
  found-Owns s s1 (some fd) s2 (new, o, g) =
      named-Owns fd s s2 (k.getsockname fd s2).0 (k.getsockname fd s2).1 new
        ((getsockname_lem fd s2).0 ∙ o)
        (let less = (getsockname_lem fd s2).2 in omega (arith, g, less))

  -- Whatever fails while the listener is set up, the descriptor that it then owns is the only one that
  -- was opened and is open; and if it owns none, none was left open.
  pub open_listener-Owns :
      (options : ServerOptions) (s : p.Os)
      → Owns p k l s ((open_listener p k options s).0.listener, (open_listener p k options s).1)
  open_listener-Owns options s =
      unfold open_listener in
      of_lookup (k.getaddrinfo options.bind_address (decimal options.port) true s).0
        (k.getaddrinfo options.bind_address (decimal options.port) true s).1
        (getaddrinfo_lem options.bind_address (decimal options.port) true s)
    where
      of_lookup :
          (r : Reply (List k.Address)) (s1 : p.Os)
          → Calm view s s1
          → Owns p k l s ((resolved p k (r, s1)).0.listener, (resolved p k (r, s1)).1)
      of_lookup (fails code) s1 (o, f, g) = (o, g)
      of_lookup (returns addresses) s1 (o, f, g) =
          found-Owns s s1 (find_listener p k addresses s1).0 (find_listener p k addresses s1).1 (
            Owns-later p k l s s1 (find_listener p k addresses s1).0
              (find_listener p k addresses s1).1 o g (find_listener-Owns addresses s1))
