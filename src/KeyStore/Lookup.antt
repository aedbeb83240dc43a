-- ===== src/KeyStore/Lookup.antt =====
-- Which versions the key store answers, and which error it gives for the others.
use tee_demo.Base.{
  ℕ, suc, ◌+◌, ◌≤◌, ◌<◌, ◌≡◌, ◌⊎◌, inl, inr, List, [], ◌∷◌, arith, find, Outcome, ok, err,
}
use native.Mathlib.Decide.{ℕ_discrete, dec_lt}
use tee_demo.KeyStore.{StoredKey, KeyStore, DecryptErr, expired, unknown, lookup}
use tee_demo.KeyStore.Retention.{AreRecent, IsValid}

-- The three answers of a valid store, each with the versions that get it
abbrev Answers : ℕ → ℕ → Outcome DecryptErr StoredKey → Type 0
Answers c v r =
    ((k : StoredKey) × (r ≡ ok k) × (k.version ≡ v) × (1 ≤ v) × (v ≤ c) × (c ≤ v + 1))
    ⊎ (((r ≡ err expired) × (v + 2 ≤ c)) ⊎ ((r ≡ err unknown) × (c < v + 2) × ((c < v) ⊎ (v ≡ 0))))

Answers-one :
    (c v : ℕ) (k : StoredKey)
    → AreRecent c (k ∷ [])
    → Answers c v (lookup (record { current_version = c; keys = k ∷ [] }) v)
unfolding lookup find
Answers-one c v k h = elim (ℕ_discrete v 1) [
  | yes p ↦ inl (k, ground arith, ground arith, ground arith, ground arith, ground arith)
  | no p ↦ inr (inr (ground arith, ground arith, omega arith))
]

Answers-two :
    (c v : ℕ) (j k : StoredKey)
    → AreRecent c (j ∷ k ∷ [])
    → Answers c v (lookup (record { current_version = c; keys = j ∷ k ∷ [] }) v)
unfolding lookup find
Answers-two c v j k h = elim (ℕ_discrete v c) [
  | yes p ↦ inl (k, ground arith, ground arith, ground arith, ground arith, ground arith)
  | no p ↦ elim (ℕ_discrete (suc v) c) [
    | yes q ↦ inl (j, ground arith, ground arith, ground arith, ground arith, ground arith)
    | no q ↦ elim (dec_lt c (v + 2)) [
      | yes r ↦ inr (inr (ground arith, r, inl (omega arith)))
      | no r ↦ inr (inl (ground arith, omega arith))
    ]
  ]
]

-- A valid store answers each version in one of three ways: with a key of that version, if it is
-- the current one or the one before it; `expired`, if the current version is two or more ahead;
-- `unknown`, if it is ahead of the current version, or 0 while less than two rotations were made.
pub lookup_answers :
    (store : KeyStore) (v : ℕ)
    → IsValid store
    → ((k : StoredKey) × (lookup store v ≡ ok k)
        × (k.version ≡ v)
        × (1 ≤ v)
        × (v ≤ store.current_version)
        × (store.current_version ≤ v + 1))
      ⊎ (((lookup store v ≡ err expired) × (v + 2 ≤ store.current_version))
          ⊎ ((lookup store v ≡ err unknown)
              × (store.current_version < v + 2)
              × ((store.current_version < v) ⊎ (v ≡ 0))))
lookup_answers store v valid = by_keys store.current_version v store.keys valid
  where
    by_keys :
        (c v : ℕ) (keys : List StoredKey)
        → AreRecent c keys
        → Answers c v (lookup (record { current_version = c; keys = keys }) v)
    by_keys c v [] h = absurd h
    by_keys c v (k ∷ []) h = Answers-one c v k h
    by_keys c v (j ∷ k ∷ []) h = Answers-two c v j k h
    by_keys c v (i ∷ j ∷ k ∷ r) h = absurd h
