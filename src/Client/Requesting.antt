-- ===== src/Client/Requesting.antt =====
-- A whole request: it ends, and gives back every descriptor that it opened.
use becomeasystemsengineer.Prelude.{
  ℕ, ◌+◌, ◌^◌, ◌≤◌, ◌<◌, ◌≡◌, refl, inl, inr, Bool, true, false, Option, some, List, [], ◌∷◌, arith,
  length, ap, sym, ◌∙◌, subst, set_at, Bool-cases, ◌==◌, if◌then◌else◌,
}
use becomeasystemsengineer.Prelude.Bytes.{Bytes, codes}
use becomeasystemsengineer.Prelude.Decimal.{decimal}
use becomeasystemsengineer.Posix.{Posix, Reply, returns, fails}
use becomeasystemsengineer.Protocol.Frame.{header_size, default_max_payload}
use becomeasystemsengineer.Protocol.Io.{is_ok}
use becomeasystemsengineer.Sockets.{
  Sockets, SocketLaws, Calm, Calm-trans, Opens, econnrefused, close_on_exec, set_timeouts,
}
use becomeasystemsengineer.Sockets.Transfers.{EndsCalm, send_frame-EndsCalm, recv_frame-EndsCalm}
use becomeasystemsengineer.Sockets.Configuring.{
  closed_again, Calm->>=, close_on_exec-Calm, set_timeouts-Calm,
}
use becomeasystemsengineer.Client.{
  ClientResult, connect_with_timeout, configure_socket, try_addresses, exchange, request, requested,
  looked_up, failed, hung_up,
}
use becomeasystemsengineer.Client.Connecting.{Attempt, made, missed, connect_with_timeout-Attempt}

module _ (p : Posix) (k : Sockets p) (l : SocketLaws p k) where
  open l use {view, opened, signals, socket_lem, opened-close, signals-close, getaddrinfo_lem}

  configure_socket-Calm : (fd : ℕ) (s : p.Os) → Calm view s (configure_socket p k fd s).1
  unfolding configure_socket
  configure_socket-Calm fd s =
      Calm->>= view (close_on_exec p k fd) (λ u. set_timeouts p k fd 2) s
        (close_on_exec-Calm p k l fd s) (λ u s'. set_timeouts-Calm p k l fd 2 s')

  -- The loop over the addresses ends with one more descriptor, that of the connection, or with none.
  data Tried (s : p.Os) : Option (Reply ℕ × p.Os) → Type 0 where
    connected :
        (fd : ℕ) (s' : p.Os)
        → opened s fd ≡ false
        → opened s' ≡ set_at (opened s) fd true
        → signals s' ≤ signals s
        → Tried s (some (returns fd, s'))
    gave_up :
        (e : ℕ) (s' : p.Os)
        → opened s' ≡ opened s
        → signals s' ≤ signals s
        → Tried s (some (fails e, s'))

  Tried-later :
      (s s1 : p.Os) (out : Option (Reply ℕ × p.Os))
      → opened s1 ≡ opened s
      → signals s1 ≤ signals s
      → Tried s1 out
      → Tried s out
  Tried-later s s1 out o g (connected fd s' new o' g') =
      connected fd s' (ap (λ (x : ℕ → Bool). x fd) (sym o) ∙ new)
        (o' ∙ ap (λ (x : ℕ → Bool). set_at x fd true) o) (omega (arith, g, g'))
  Tried-later s s1 out o g (gave_up e s' o' g') = gave_up e s' (o' ∙ o) (omega (arith, g, g'))

  try_addresses-Tried :
      (fuel : ℕ) (addresses : List k.Address) (last_error : ℕ) (s : p.Os)
      → signals s < fuel
      → Tried s (try_addresses p k fuel addresses last_error s)
  try_addresses-Tried fuel [] last_error s h =
      unfold try_addresses in gave_up last_error s refl (omega arith)
  try_addresses-Tried fuel (address ∷ rest) last_error s h =
      of_socket (k.socket address s).0 (k.socket address s).1 refl (socket_lem address s)
        (λ e s' o g.
          Tried-later s s' (try_addresses p k fuel rest e s') o g
            (try_addresses-Tried fuel rest e s' (omega (arith, h, g))))
    where
      Rest : Type 0
      Rest =
          (e : ℕ) (s' : p.Os)
          → opened s' ≡ opened s
          → signals s' ≤ signals s
          → Tried s (try_addresses p k fuel rest e s')

      of_attempt :
          (fd : ℕ) (s1 s2 : p.Os) (out : Option (Reply (Unit {0}) × p.Os))
          → k.socket address s ≡ (returns fd, s1)
          → configure_socket p k fd s1 ≡ (returns tt, s2)
          → opened s fd ≡ false
          → opened s2 ≡ set_at (opened s) fd true
          → signals s2 ≤ signals s
          → connect_with_timeout p k fuel fd address s2 ≡ out
          → Attempt p k l s2 out
          → Rest
          → Tried s (try_addresses p k fuel (address ∷ rest) last_error s)
      of_attempt fd s1 s2 out q q' new o g attempt (made s3 (o', f', g')) next =
          let end : try_addresses p k fuel (address ∷ rest) last_error s ≡ some (returns fd, s3) =
            unfold try_addresses in ground (arith, q, q', attempt) in
          subst (Tried s) (sym end) (connected fd s3 new (o' ∙ o) (omega (arith, g, g')))
      of_attempt fd s1 s2 out q q' new o g attempt (missed e s3 o' g') next =
          let end : try_addresses p k fuel (address ∷ rest) last_error s
              ≡ try_addresses p k fuel rest e (p.close fd s3) =
            unfold try_addresses in ground (arith, q, q', attempt) in
          let less = signals-close fd s3 in
          subst (Tried s) (sym end) (
            next e (p.close fd s3) (closed_again p k l fd s s3 new (o' ∙ o))
              (omega (arith, g, g', less)))

      of_configure :
          (fd : ℕ) (s1 : p.Os) (r : Reply (Unit {0})) (s2 : p.Os)
          → k.socket address s ≡ (returns fd, s1)
          → configure_socket p k fd s1 ≡ (r, s2)
          → opened s fd ≡ false
          → opened s2 ≡ set_at (opened s) fd true
          → signals s2 ≤ signals s
          → Rest
          → Tried s (try_addresses p k fuel (address ∷ rest) last_error s)
      of_configure fd s1 (fails e) s2 q q' new o g next =
          let end : try_addresses p k fuel (address ∷ rest) last_error s
              ≡ try_addresses p k fuel rest e (p.close fd s2) =
            unfold try_addresses in ground (arith, q, q') in
          let less = signals-close fd s2 in
          subst (Tried s) (sym end)
            (next e (p.close fd s2) (closed_again p k l fd s s2 new o) (omega (arith, g, less)))
      of_configure fd s1 (returns u) s2 q q' new o g next =
          of_attempt fd s1 s2 (connect_with_timeout p k fuel fd address s2) q q' new o g refl
            (connect_with_timeout-Attempt p k l fuel fd address s2 (omega (arith, g, h))) next

      of_socket :
          (r : Reply ℕ) (s1 : p.Os)
          → k.socket address s ≡ (r, s1)
          → Opens view s (r, s1)
          → Rest
          → Tried s (try_addresses p k fuel (address ∷ rest) last_error s)
      of_socket (fails e) s1 q (o, f, g) next =
          let end : try_addresses p k fuel (address ∷ rest) last_error s
              ≡ try_addresses p k fuel rest e s1 =
            unfold try_addresses in ground (arith, q) in
          subst (Tried s) (sym end) (next e s1 o g)
      of_socket (returns fd) s1 q (new, o, g) next =
          let (o', f', g') = configure_socket-Calm fd s1 in
          of_configure fd s1 (configure_socket p k fd s1).0 (configure_socket p k fd s1).1 q refl
            new (o' ∙ o) (omega (arith, g, g')) next

  exchange-EndsCalm :
      (fuel fd : ℕ) (command : Bytes) (s : p.Os)
      → length command < 2 ^ 32
      → header_size + length command + signals s < fuel
      → header_size + default_max_payload + signals s < fuel
      → EndsCalm p k l fd (exchange p k.strerror fuel fd command s) s
  exchange-EndsCalm fuel fd command s fits room room' =
      let (sent, s1, out, calm) = send_frame-EndsCalm p k l fd fuel command s fits room in
      let less = calm.2 in
      let (received, s2, out', calm') =
        recv_frame-EndsCalm p k l fd fuel default_max_payload s1 (omega (arith, room', less)) in
      elim (Bool-cases (is_ok p sent.status)) [
        | inr unsent ↦ (
          failed p (k.strerror sent.error_number),
          s1,
          unfold exchange in ground (arith, out, unsent),
          calm,
        )
        | inl done ↦ elim (Bool-cases (is_ok p received.status)) [
          | inl answered ↦ (
            record { ok = true; response = received.payload; error = [] },
            s2,
            unfold exchange in ground (arith, out, done, out', answered),
            Calm-trans view s s1 s2 calm calm',
          )
          | inr unanswered ↦ (
            failed p (
                if received.error_number == 0
                then codes "connection closed"
                else k.strerror received.error_number),
            s2,
            unfold exchange in ground (arith, out, done, out', unanswered),
            Calm-trans view s s1 s2 calm calm',
          )
        ]
      ]

  -- A request ends, given fuel above the bytes of the command or of the largest answer and the signals
  -- that still interrupt; and whether it succeeded or at which call it failed, afterwards exactly those
  -- descriptors are open that were open before.
  pub request_returns_descriptors :
      (fuel : ℕ) (host : Bytes) (port : ℕ) (command : Bytes) (s : p.Os)
      → length command < 2 ^ 32
      → header_size + length command + signals s < fuel
      → header_size + default_max_payload + signals s < fuel
      → (result : ClientResult) × (s' : p.Os) × (request p k fuel host port command s
          ≡ some (result, s'))
        × (opened s' ≡ opened s)
  request_returns_descriptors fuel host port command s fits room room' =
      of_lookup (k.getaddrinfo host (decimal port) false s).0
        (k.getaddrinfo host (decimal port) false s).1 refl
        (getaddrinfo_lem host (decimal port) false s)
    where
      of_tried :
          (s1 : p.Os) (out : Option (Reply ℕ × p.Os))
          → opened s1 ≡ opened s
          → signals s1 ≤ signals s
          → Tried s1 out
          → (result : ClientResult) × (s' : p.Os) × (requested p k fuel command out
              ≡ some (result, s'))
            × (opened s' ≡ opened s)
      of_tried s1 out o g (gave_up e s' o' g') = (failed p (k.strerror e), s', refl, o' ∙ o)
      of_tried s1 out o g (connected fd s' new o' g') =
          let (result, s'', out', (o'', f'', g'')) =
            exchange-EndsCalm fuel fd command s' fits (omega (arith, room, g, g'))
              (omega (arith, room', g, g')) in
          (
            result,
            p.close fd s'',
            ap (hung_up p k fd) out',
            closed_again p k l fd s1 s'' new (o'' ∙ o') ∙ o,
          )

      of_lookup :
          (r : Reply (List k.Address)) (s1 : p.Os)
          → k.getaddrinfo host (decimal port) false s ≡ (r, s1)
          → Calm view s s1
          → (result : ClientResult) × (s' : p.Os) × (request p k fuel host port command s
              ≡ some (result, s'))
            × (opened s' ≡ opened s)
      of_lookup (fails code) s1 q (o, f, g) = (
        failed p (k.gai_strerror code),
        s1,
        unfold request in ap (looked_up p k fuel command) q,
        o,
      )
      of_lookup (returns addresses) s1 q (o, f, g) =
          let (result, s', end, o') =
            of_tried s1 (try_addresses p k fuel addresses econnrefused s1) o g
              (try_addresses-Tried fuel addresses econnrefused s1 (omega (arith, room, g))) in
          (result, s', unfold request in (ap (looked_up p k fuel command) q ∙ end), o')
