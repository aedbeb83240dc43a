-- ===== src/KeyStore/History.antt =====
-- The key store against the history of all keys ever made: it answers as a store would that keeps
-- every key and forgets by version.
use tee_demo.Base.{
  ℕ, suc, ◌+◌, ◌^◌, ◌<◌, ◌≡◌, refl, ◌&&◌, List, [], ◌∷◌, arith, leb, ◌==◌, if◌then◌else◌, length,
  find, last, Outcome, Fallible, ok, err, ◌>>=◌,
}
use tee_demo.Protocol.Platform.{Platform}
use tee_demo.Protocol.Aead.{generate_keypair}
use tee_demo.KeyStore.{StoredKey, KeyStore, DecryptErr, expired, unknown, lookup, rotate, new}
use tee_demo.KeyStore.Retention.{
  IsValid, key_of, keep_newest-append, rotated, rotate_keys, rotated-IsValid,
}

-- The draw that made the key of a version; `draws` are those of the rotations, the last first.
abbrev pub drawn : ℕ → List ℕ → ℕ → ℕ
drawn first [] v = first
drawn first (d ∷ older) v = if v == length older + 2 then d else drawn first older v

module _ ⦃plat : Platform⦄ where
  -- `new`, and then a `rotate` for each draw
  unfoldable pub history : ℕ → List ℕ → Fallible KeyStore
  history first [] = new first
  history first (d ∷ older) = do
    store ← history first older
    (store', key) ← rotate d store
    ok store'

  -- The specification: every key ever made, seen through the retention window
  abbrev pub ideal_lookup : ℕ → List ℕ → ℕ → Outcome DecryptErr StoredKey
  ideal_lookup first draws v =
      let newest = length draws + 1 in
      if leb (v + 2) newest
      then err expired
      else if leb 1 v && leb v newest
      then ok (key_of (drawn first draws v) v)
      else err unknown

  store_of : ℕ → List ℕ → KeyStore
  store_of first [] = record { current_version = 1; keys = key_of first 1 ∷ [] }
  store_of first (d ∷ older) = rotated d (store_of first older)

  store_of-version :
      (first : ℕ) (draws : List ℕ) → (store_of first draws).current_version ≡ length draws + 1
  unfolding store_of
  store_of-version first [] = omega arith
  store_of-version first (d ∷ older) = omega (arith, store_of-version first older)

  store_of-IsValid : (first : ℕ) (draws : List ℕ) → IsValid (store_of first draws)
  unfolding store_of
  store_of-IsValid first [] = omega arith
  store_of-IsValid first (d ∷ older) =
      rotated-IsValid d (store_of first older).current_version (store_of first older).keys
        (store_of-IsValid first older)

  history-store_of :
      (first : ℕ) (draws : List ℕ)
      → length draws + 1 < 2 ^ 64
      → history first draws ≡ ok (store_of first draws)
  unfolding history store_of new rotate generate_keypair last
  history-store_of first [] h = refl
  history-store_of first (d ∷ older) h =
      rw
        (
          history-store_of first older (omega arith),
          rotate_keys d (store_of first older).current_version (store_of first older).keys
              (store_of-IsValid first older) (omega (arith, store_of-version first older)),
        )
        refl

  drawn_newest : (first d : ℕ) (older : List ℕ) → drawn first (d ∷ older) (length older + 2) ≡ d
  drawn_newest first d older = ground arith

  -- The two keys that are left after a rotation
  store_of-keys :
      (first d : ℕ) (older : List ℕ)
      → (store_of first (d ∷ older)).keys
        ≡ key_of (drawn first older (length older + 1)) (length older + 1)
          ∷ key_of d (length older + 2)
          ∷ []
  unfolding store_of
  store_of-keys first d [] = refl
  store_of-keys first d (e ∷ r) =
      rw
        (
          keep_newest-append (store_of first r).current_version (store_of first r).keys
              (key_of e (suc (store_of first r).current_version)) (store_of-IsValid first r),
          store_of-version first r,
        )
        (ground arith)

  lookup-store_of :
      (first : ℕ) (draws : List ℕ) (v : ℕ)
      → lookup (store_of first draws) v ≡ ideal_lookup first draws v
  lookup-store_of first [] v = unfold lookup store_of find in ground arith
  lookup-store_of first (d ∷ older) v =
      unfold lookup find in
      rw (store_of-keys first d older, store_of-version first (d ∷ older)) (ground arith)

  -- After `new` and any sequence of rotations that a u64 can count, the store exists, is valid, is
  -- at the version of the newest key, and its answer for every version is that of the full history
  -- seen through the retention window: the key made for the version if it is one of the last two,
  -- `expired` below, `unknown` above and, before the first rotation, at 0.
  pub lookup-history :
      (first : ℕ) (draws : List ℕ) (v : ℕ)
      → length draws + 1 < 2 ^ 64
      → (store : KeyStore) × (history first draws ≡ ok store)
        × IsValid store
        × (store.current_version ≡ length draws + 1)
        × (lookup store v ≡ ideal_lookup first draws v)
  lookup-history first draws v h = (
    store_of first draws,
    history-store_of first draws h,
    store_of-IsValid first draws,
    store_of-version first draws,
    lookup-store_of first draws v,
  )
