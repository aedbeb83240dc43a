-- ===== src/KeyStore/Retention.antt =====
-- The key store keeps the newest key and the one before it: the invariant of `new` and `rotate`.
use tee_demo.Base.{
  ℕ, suc, ◌+◌, ◌-◌, ◌^◌, ◌≤◌, ◌<◌, ◌≡◌, refl, ap, List, [], ◌∷◌, ◌++◌, arith, some, length, find,
  last, ok,
}
use tee_demo.Protocol.Platform.{Platform}
use tee_demo.Protocol.Aead.{generate_keypair}
use tee_demo.KeyStore.{StoredKey, KeyStore, retention, evict, current, rotate, new}

-- One key at version 1, or the keys of the current version and the one before it, in order
abbrev pub AreRecent : ℕ → List StoredKey → Type 0
AreRecent v [] = ⊥
AreRecent v (k ∷ []) = (k.version ≡ 1) × (v ≡ 1)
AreRecent v (j ∷ k ∷ []) = (suc j.version ≡ v) × (k.version ≡ v) × (2 ≤ v)
AreRecent v (i ∷ j ∷ k ∷ r) = ⊥

abbrev pub IsValid : KeyStore → Type 0
IsValid store = AreRecent store.current_version store.keys

-- What is left of the keys when one more comes in
abbrev pub keep_newest : List StoredKey → List StoredKey
keep_newest [] = []
keep_newest (k ∷ []) = k ∷ []
keep_newest (j ∷ k ∷ r) = k ∷ []

pub keep_newest-append :
    (v : ℕ) (keys : List StoredKey) (k : StoredKey)
    → AreRecent v keys
    → keep_newest (keep_newest keys ++ k ∷ []) ≡ k ∷ []
keep_newest-append v [] k h = absurd h
keep_newest-append v (i ∷ []) k h = refl
keep_newest-append v (i ∷ j ∷ []) k h = refl
keep_newest-append v (i ∷ j ∷ l ∷ r) k h = absurd h

module _ ⦃plat : Platform⦄ where
  -- The key that a draw of the generator makes for a version
  abbrev pub key_of : ℕ → ℕ → StoredKey
  key_of draw version = record {
    version = version;
    public_key = (plat.gen_keypair draw).0;
    private_key = (plat.gen_keypair draw).1;
  }

  abbrev pub rotated : ℕ → KeyStore → KeyStore
  rotated draw store = record {
    current_version = suc store.current_version;
    keys = keep_newest store.keys ++ key_of draw (suc store.current_version) ∷ [];
  }

  pub rotate_keys :
      (draw v : ℕ) (keys : List StoredKey)
      → AreRecent v keys
      → v < 2 ^ 64 - 1
      → rotate draw (record { current_version = v; keys = keys })
        ≡ ok (rotated draw (record { current_version = v; keys = keys }), key_of draw (suc v))
  unfolding rotate evict generate_keypair last
  rotate_keys draw v [] h small = elim h [ ]
  rotate_keys draw v (k ∷ []) h small = ground arith
  rotate_keys draw v (j ∷ k ∷ []) h small = ground arith
  rotate_keys draw v (i ∷ j ∷ k ∷ r) h small = elim h [ ]

  pub rotated-IsValid :
      (draw v : ℕ) (keys : List StoredKey)
      → AreRecent v keys
      → IsValid (rotated draw (record { current_version = v; keys = keys }))
  rotated-IsValid draw v [] h = absurd h
  rotated-IsValid draw v (k ∷ []) h = omega arith
  rotated-IsValid draw v (j ∷ k ∷ []) h = omega arith
  rotated-IsValid draw v (i ∷ j ∷ k ∷ r) h = absurd h

  current-rotated :
      (draw v : ℕ) (keys : List StoredKey)
      → AreRecent v keys
      → current (rotated draw (record { current_version = v; keys = keys }))
        ≡ some (key_of draw (suc v))
  unfolding current find
  current-rotated draw v [] h = absurd h
  current-rotated draw v (k ∷ []) h = ground arith
  current-rotated draw v (j ∷ k ∷ []) h = ground arith
  current-rotated draw v (i ∷ j ∷ k ∷ r) h = absurd h

  length-rotated :
      (draw v : ℕ) (keys : List StoredKey)
      → AreRecent v keys
      → length (rotated draw (record { current_version = v; keys = keys })).keys ≡ retention
  length-rotated draw v [] h = absurd h
  length-rotated draw v (k ∷ []) h = refl
  length-rotated draw v (j ∷ k ∷ []) h = refl
  length-rotated draw v (i ∷ j ∷ k ∷ r) h = absurd h

  -- On a valid store whose version is not the last u64, `rotate` succeeds: the version goes up by
  -- one, the returned key is the current one and made from the draw, two keys are left, and the
  -- invariant holds again.
  pub rotate-IsValid :
      (draw : ℕ) (store : KeyStore)
      → IsValid store
      → store.current_version < 2 ^ 64 - 1
      → (store' : KeyStore) × (key : StoredKey) × (rotate draw store ≡ ok (store', key))
        × IsValid store'
        × (store'.current_version ≡ store.current_version + 1)
        × (current store' ≡ some key)
        × (key ≡ key_of draw (store.current_version + 1))
        × (length store'.keys ≡ retention)
  rotate-IsValid draw store valid small = (
    rotated draw store,
    key_of draw (suc store.current_version),
    rotate_keys draw store.current_version store.keys valid small,
    rotated-IsValid draw store.current_version store.keys valid,
    omega arith,
    current-rotated draw store.current_version store.keys valid,
    ap (key_of draw) (omega arith),
    length-rotated draw store.current_version store.keys valid,
  )

  -- `new` succeeds with a valid store of one key, at version 1.
  pub new-IsValid :
      (draw : ℕ)
      → (store : KeyStore) × (new draw ≡ ok store)
        × IsValid store
        × (store.current_version ≡ 1)
        × (store.keys ≡ key_of draw 1 ∷ [])
  unfolding new rotate evict generate_keypair last
  new-IsValid draw =
      (record { current_version = 1; keys = key_of draw 1 ∷ [] }, refl, omega arith, refl, refl)
