-- ===== src/Master/Cache.antt =====
-- The caches of src/master/syscall/mod.rs, whose crate is moka: an interface, in which a look-up may
-- touch an entry, and what is documented of a cache with a time to live.
use template_worker.Prelude.{ℕ, ◌+◌, ◌≤◌, ◌<◌, ◌≡◌, ◌≢◌, Option, none, some, Result, ok, err}
use template_worker.Prelude.Actions.{Action}

-- `get` and `insert` are given the time.
pub record Cache (K V : Type 0) : Type 1 where
  pub Store : Type 0
  pub get : K → ℕ → Store → Store × Option V
  pub insert : K → V → ℕ → Store → Store

module _ {K V : Type 0} (c : Cache K V) where
  open c use {Store, get, insert}

  -- `try_get_with key init`: `init` runs when the key is not there, and its value is kept.
  abbrev pub keep : {E : Type 0} → K → ℕ → Result E V → Action Store E V
  keep k now (ok v) s = (insert k v now s, ok v)
  keep k now (err e) s = (s, err e)

  abbrev pub try_get_with : {E : Type 0} → K → ℕ → Result E V → Action Store E V
  try_get_with k now init s =
      let (s', found) = get k now s in
      elim found [ some v ↦ (s', ok v) | none ↦ keep k now init s' ]

  -- An entry lives for `ttl` from its insertion, and neither a look-up nor another key's insertion
  -- changes which entries are there.
  pub record TimeToLive (ttl : ℕ) : Type 0 where
    pub get-insert :
        (k : K) (v : V) (t now : ℕ) (s : Store)
        → t ≤ now
        → now < t + ttl
        → (get k now (insert k v t s)).1 ≡ some v
    pub get-insert_other :
        (j k : K) (v : V) (t now : ℕ) (s : Store)
        → j ≢ k
        → (get j now (insert k v t s)).1 ≡ (get j now s).1
    pub get_twice :
        (j k : K) (t now : ℕ) (s : Store) → (get j now (get k t s).0).1 ≡ (get j now s).1
