-- ===== src/Store.antt =====
-- capstone/reference: include/netforge/store.hpp and src/store.cpp. The lock makes each method one
-- step; the map is an association list, whose order the program never sees.
use becomeasystemsengineer.Prelude.{ℕ, ◌≡◌, Bool, true, false, Option, none, some, List, [], length}
use becomeasystemsengineer.Prelude.Bytes.{Bytes}
use becomeasystemsengineer.Prelude.Dict.{bytes_key, lookup, insert, remove}

pub record KvStore : Type 0 where
  pub values : List (Bytes × Bytes)

abbrev pub empty_store : KvStore
empty_store = record { values = [] }

unfoldable pub set : Bytes → Bytes → KvStore → KvStore
set key value store = record store { values = insert key value store.values }

unfoldable pub get : Bytes → KvStore → Option Bytes
get key store = lookup key store.values

-- Whether the key was there, and the store without it.
unfoldable pub erase : Bytes → KvStore → Bool × KvStore
erase key store = (
  elim (lookup key store.values) [ none ↦ false | some value ↦ true ],
  record store { values = remove key store.values },
)

unfoldable pub size : KvStore → ℕ
size store = length store.values

-- Two stores that answer every read alike.
abbrev pub SameStore : KvStore → KvStore → Type 0
SameStore a b = (key : Bytes) → get key a ≡ get key b
