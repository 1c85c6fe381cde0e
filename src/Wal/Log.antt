-- ===== src/Wal/Log.antt =====
-- The log as a list of mutations: its bytes, its replay, and what a crash may leave behind it.
use becomeasystemsengineer.Prelude.{
  ℕ, zero, suc, ◌+◌, ◌-◌, ◌≤◌, ◌<◌, ◌≡◌, refl, ◌⊎◌, inl, inr, List, [], ◌∷◌, ◌++◌, arith, length,
  length-append, take, ap, append_assoc, ◌∙◌, sym, append-nil,
}
use native.Mathlib.Decide.{dec_lt}
use becomeasystemsengineer.Prelude.Bytes.{Bytes}
use becomeasystemsengineer.Store.{KvStore, set, erase}
use becomeasystemsengineer.Protocol.Frame.{
  header_size, default_max_payload, network_length, frame, length-network_length,
}
use becomeasystemsengineer.Protocol.Command.{Command, ping, stats, get, del}
use becomeasystemsengineer.Protocol.Command.RoundTrip.{print, IsWellFormed}

abbrev pub IsMutation : Command → Type 0
IsMutation ping = ⊥
IsMutation stats = ⊥
IsMutation (get key) = ⊥
IsMutation (del key) = Unit
IsMutation (Command.set key value) = Unit

-- A command that the log may hold: a well-formed SET or DEL whose record fits the frame limit.
pub record IsRecord (c : Command) : Type 0 where
  pub well_formed : IsWellFormed c
  pub mutation : IsMutation c
  pub small : length (print c) ≤ default_max_payload

abbrev pub log_bytes : List Command → Bytes
log_bytes [] = []
log_bytes (c ∷ log) = frame (print c) ++ log_bytes log

-- What a mutation does to the store.
abbrev pub perform : Command → KvStore → KvStore
perform ping store = store
perform stats store = store
perform (get key) store = store
perform (del key) store = (erase key store).1
perform (Command.set key value) store = set key value store

abbrev pub replay : List Command → KvStore → KvStore
replay [] store = store
replay (c ∷ log) store = replay log (perform c store)

pub log_bytes-append :
    (log : List Command) (c : Command)
    → log_bytes (log ++ c ∷ []) ≡ log_bytes log ++ frame (print c)
log_bytes-append [] c = append-nil (frame (print c))
log_bytes-append (d ∷ log) c =
    ap (◌++◌ (frame (print d))) (log_bytes-append log c)
    ∙ sym (append_assoc (frame (print d)) (log_bytes log) (frame (print c)))

pub replay-append :
    (log : List Command) (c : Command) (store : KvStore)
    → replay (log ++ c ∷ []) store ≡ perform c (replay log store)
replay-append [] c store = refl
replay-append (d ∷ log) c store = replay-append log c (perform d store)

-- The bytes of a frame that was not written to its end: a part of a header, or a header within the
-- limit and too few bytes behind it.
abbrev pub IsTorn : Bytes → Type 0
IsTorn torn =
    (length torn < header_size)
    ⊎ ((n : ℕ) × (part : Bytes) × (torn ≡ network_length n ++ part)
        × (length part < n)
        × (n ≤ default_max_payload))

take-append : (xs ys : Bytes) (k : ℕ) → take (length xs + k) (xs ++ ys) ≡ xs ++ take k ys
take-append [] ys k = let e : 0 + k ≡ k = omega arith in ap (λ (n : ℕ). take n ys) e
take-append (x ∷ xs) ys k =
    let e : suc (length xs) + k ≡ suc (length xs + k) = omega arith in
    ap (λ (n : ℕ). take n (x ∷ xs ++ ys)) e ∙ ap (λ (t : Bytes). x ∷ t) (take-append xs ys k)

length-take-le : (k : ℕ) (xs : Bytes) → length (take k xs) ≤ k
length-take-le zero xs = omega arith
length-take-le (suc k) [] = omega arith
length-take-le (suc k) (x ∷ xs) = omega (arith, length-take-le k xs)

-- Whatever of a record's frame, short of all of it, reached the file is a torn tail.
pub take-frame-IsTorn :
    (payload : Bytes) (k : ℕ)
    → length payload ≤ default_max_payload
    → k < length (frame payload)
    → IsTorn (take k (frame payload))
take-frame-IsTorn payload k small h = elim (dec_lt k header_size) [
  | yes lt ↦ inl (omega (arith, length-take-le k (frame payload)))
  | no ge ↦
      let n : ℕ = length payload in
      let sizes = length-append (network_length n) payload in
      let header = length-network_length n in
      let e : length (network_length n) + (k - header_size) ≡ k = omega (arith, header) in
      inr (
        n,
        take (k - header_size) payload,
        ap (λ (j : ℕ). take j (frame payload)) (sym e)
            ∙ take-append (network_length n) payload (k - header_size),
        omega (arith, length-take-le (k - header_size) payload, sizes, header),
        small,
      )
]
