-- ===== src/Bench/Workers.antt =====
-- A worker ends, closes its connection, and has a sample for each of its requests unless it failed.
use becomeasystemsengineer.Prelude.{
  ℕ, zero, suc, ◌+◌, ◌-◌, ◌≤◌, ◌<◌, ◌≡◌, refl, inl, inr, Bool, true, false, Option, none, some,
  List, [], ◌∷◌, ◌++◌, if◌then◌else◌, arith, length, length-append, ap, ◌∙◌, set_at, Bool-cases,
}
use becomeasystemsengineer.Prelude.Bytes.{Bytes, codes, same}
use becomeasystemsengineer.Posix.{Posix, Reply, returns, fails}
use becomeasystemsengineer.Protocol.Frame.{header_size, default_max_payload}
use becomeasystemsengineer.Protocol.Io.{is_ok, recv_frame}
use becomeasystemsengineer.Sockets.{
  Sockets, SocketLaws, first_prepared, Calm, Calm-trans, Calm-refl, close_on_exec, set_timeouts,
  ◌>>◌,
}
use becomeasystemsengineer.Sockets.Transfers.{EndsCalm, send_frame-EndsCalm, recv_frame-EndsCalm}
use becomeasystemsengineer.Sockets.Configuring.{
  Owns, Owns-later, first_prepared-Owns, closed_again, Calm->>=, close_on_exec-Calm,
  set_timeouts-Calm,
}
use becomeasystemsengineer.Bench.{
  Report, prepare_connection, connect_first, resolved, connect_to, ponged, pinged, ping, warm_up,
  measure, no_samples, warmed, hung_up, attached, worker,
}

module _ (p : Posix) (k : Sockets p) (l : SocketLaws p k) where
  open l use {view, opened, signals, socket_lem, getaddrinfo_lem, now_lem}

  module _ (fuel fd : ℕ) where
    Room : p.Os → Type 0
    Room s = header_size + default_max_payload + signals s < fuel

    ponged-EndsCalm :
        (s : p.Os)
        → Room s
        → EndsCalm p k l fd (ponged p k (recv_frame p fuel fd default_max_payload s)) s
    unfolding Room
    ponged-EndsCalm s room =
        let (response, s', out, calm) =
          recv_frame-EndsCalm p k l fd fuel default_max_payload s room in
        (
          (if is_ok p response.status then same response.payload (codes "PONG") else false),
          s',
          ap (ponged p k) out,
          calm,
        )

    ping-EndsCalm : (s : p.Os) → Room s → EndsCalm p k l fd (ping p k fuel fd s) s
    unfolding Room
    ping-EndsCalm s room =
        let (sent, s1, out, calm) =
          send_frame-EndsCalm p k l fd fuel (codes "PING") s (omega arith) (omega (arith, room)) in
        let less = calm.2 in
        elim (Bool-cases (is_ok p sent.status)) [
          | inl done ↦
              let (answered, s2, out', calm') = ponged-EndsCalm s1 (omega (arith, room, less)) in
              (
                answered,
                s2,
                unfold ping in (ap (pinged p k fuel fd) out ∙ rw done out'),
                Calm-trans view s s1 s2 calm calm',
              )
          | inr broken ↦
              (false, s1, unfold ping in (ap (pinged p k fuel fd) out ∙ rw broken refl), calm)
        ]

    warm_up-EndsCalm :
        (left : ℕ) (s : p.Os) → Room s → EndsCalm p k l fd (warm_up p k fuel fd left s) s
    unfolding Room
    warm_up-EndsCalm zero s room = (true, s, unfold warm_up in refl, Calm-refl view s)
    warm_up-EndsCalm (suc left) s room =
        let (answered, s1, out, calm) = ping-EndsCalm s room in
        let less = calm.2 in
        let rest = warm_up-EndsCalm left s1 (omega (arith, room, less)) in
        of_ping answered s1 out calm rest
      where
        of_ping :
            (answered : Bool) (s1 : p.Os)
            → ping p k fuel fd s ≡ some (answered, s1)
            → Calm view s s1
            → EndsCalm p k l fd (warm_up p k fuel fd left s1) s1
            → EndsCalm p k l fd (warm_up p k fuel fd (suc left) s) s
        of_ping false s1 out calm rest = (false, s1, unfold warm_up in ground (arith, out), calm)
        of_ping true s1 out calm (r, s2, out', calm') =
            (r, s2, unfold warm_up in ground (arith, out, out'), Calm-trans view s s1 s2 calm calm')

    abbrev Measured : Option (Report × p.Os) → ℕ → p.Os → Type 0
    Measured out count s =
        (r : Report) × (s' : p.Os) × (out ≡ some (r, s'))
        × Calm view s s'
        × (r.failed ≡ false → length r.samples ≡ count)

    measure-Measured :
        (left : ℕ) (samples : List ℕ) (s : p.Os)
        → Room s
        → Measured (measure p k fuel fd left samples s) (length samples + left) s
    unfolding Room
    measure-Measured zero samples s room = (
      record { failed = false; samples = samples },
      s,
      unfold measure in refl,
      Calm-refl view s,
      λ e. omega arith,
    )
    measure-Measured (suc left) samples s room =
        let s1 = (k.now s).1 in
        let earlier = (now_lem s).2 in
        let (answered, s2, out, calm) = ping-EndsCalm s1 (omega (arith, room, earlier)) in
        let less = calm.2 in
        let later = (now_lem s2).2 in
        let samples' = samples ++ ((k.now s2).0 - (k.now s).0) ∷ [] in
        let rest =
          measure-Measured left samples' (k.now s2).1 (omega (arith, room, earlier, less, later)) in
        of_ping answered s2 out (Calm-trans view s s1 s2 (now_lem s) calm) rest
      where
        of_ping :
            (answered : Bool) (s2 : p.Os)
            → ping p k fuel fd (k.now s).1 ≡ some (answered, s2)
            → Calm view s s2
            → Measured
                (measure p k fuel fd left
                  (samples ++ ((k.now s2).0 - (k.now s).0) ∷ [])
                  (k.now s2).1)
                (length (samples ++ ((k.now s2).0 - (k.now s).0) ∷ []) + left)
                (k.now s2).1
            → Measured (measure p k fuel fd (suc left) samples s) (length samples + suc left) s
        of_ping false s2 out calm rest = (
          record { failed = true; samples = samples },
          s2,
          unfold measure in ground (arith, out),
          calm,
          λ e. cc,
        )
        of_ping true s2 out calm (r, s3, out', calm', count) =
            let longer = length-append samples (((k.now s2).0 - (k.now s).0) ∷ []) in
            (
              r,
              s3,
              unfold measure in ground (arith, out, out'),
              Calm-trans view s s2 s3 calm (Calm-trans view s2 (k.now s2).1 s3 (now_lem s2) calm'),
              λ e. omega (arith, longer, count e),
            )

  prepare_connection-Calm :
      (fd : ℕ) (a : k.Address) (s : p.Os) → Calm view s (prepare_connection p k fd a s).1
  unfolding prepare_connection
  prepare_connection-Calm fd a s =
      Calm->>= view (close_on_exec p k fd) (λ u. set_timeouts p k fd 10 >> k.connect fd a) s
        (close_on_exec-Calm p k l fd s)
        (λ u s1.
          Calm->>= view (set_timeouts p k fd 10) (λ v. k.connect fd a) s1
            (set_timeouts-Calm p k l fd 10 s1) (λ v s2. l.connect_lem fd a s2))

  connect_to-Owns : (host service : Bytes) (s : p.Os) → Owns p k l s (connect_to p k host service s)
  unfolding connect_to connect_first
  connect_to-Owns host service s =
      of_lookup (k.getaddrinfo host service false s).0 (k.getaddrinfo host service false s).1
        (getaddrinfo_lem host service false s)
    where
      of_lookup :
          (r : Reply (List k.Address)) (s1 : p.Os)
          → Calm view s s1
          → Owns p k l s (resolved p k (r, s1))
      of_lookup (fails code) s1 (o, f, g) = (o, g)
      of_lookup (returns addresses) s1 (o, f, g) =
          let out = first_prepared p k (prepare_connection p k) addresses s1 in
          Owns-later p k l s s1 out.0 out.1 o g (
            first_prepared-Owns p k l (prepare_connection p k)
              (λ fd a s'. prepare_connection-Calm fd a s') addresses s1)

  -- A worker ends, given fuel above the bytes of the largest answer and the signals that still
  -- interrupt; it leaves exactly those descriptors open that were open before, and unless it has
  -- counted a failure it has one sample for each of its requests.
  pub worker-samples :
      (fuel : ℕ) (host service : Bytes) (warmups count : ℕ) (s : p.Os)
      → header_size + default_max_payload + signals s < fuel
      → (r : Report) × (s' : p.Os) × (worker p k fuel host service warmups count s ≡ some (r, s'))
        × (opened s' ≡ opened s)
        × (r.failed ≡ false → length r.samples ≡ count)
  worker-samples fuel host service warmups count s room =
      unfold worker in
      of_connection (connect_to p k host service s).0 (connect_to p k host service s).1
        (connect_to-Owns host service s)
    where
      Ends : Option (Report × p.Os) → Type 0
      Ends out =
          (r : Report) × (s' : p.Os) × (out ≡ some (r, s'))
          × (opened s' ≡ opened s)
          × (r.failed ≡ false → length r.samples ≡ count)

      of_warm_up :
          (fd : ℕ) (s1 : p.Os) (answered : Bool) (s2 : p.Os)
          → opened s fd ≡ false
          → opened s1 ≡ set_at (opened s) fd true
          → signals s1 ≤ signals s
          → Calm view s1 s2
          → Ends (hung_up p k fd (warmed p k fuel fd count (some (answered, s2))))
      of_warm_up fd s1 false s2 new o g (o', f', g') =
          (no_samples p k, p.close fd s2, refl, closed_again p k l fd s s2 new (o' ∙ o), λ e. cc)
      of_warm_up fd s1 true s2 new o g (o', f', g') =
          let (r, s3, out, (o'', f'', g''), full) =
            measure-Measured fuel fd count [] s2 (unfold Room in omega (arith, room, g, g')) in
          (
            r,
            p.close fd s3,
            ap (hung_up p k fd) out,
            closed_again p k l fd s s3 new (o'' ∙ o' ∙ o),
            λ e. let all_of = full e in omega (arith, all_of),
          )

      of_connection :
          (r : Option ℕ) (s1 : p.Os)
          → Owns p k l s (r, s1)
          → Ends (attached p k fuel warmups count (r, s1))
      of_connection none s1 (o, g) = (no_samples p k, s1, refl, o, λ e. cc)
      of_connection (some fd) s1 (new, o, g) =
          let (answered, s2, out, calm) =
            warm_up-EndsCalm fuel fd warmups s1 (unfold Room in omega (arith, room, g)) in
          let (r, s3, end, closed, full) = of_warm_up fd s1 answered s2 new o g calm in
          (
            r,
            s3,
            ap (λ (x : Option (Bool × p.Os)). hung_up p k fd (warmed p k fuel fd count x)) out
                ∙ end,
            closed,
            full,
          )
