-- ===== src/KeyStore/Fitting.antt =====
-- Rotations keep the key store within what its encoding can hold.
use tee_demo.Base.{
  ℕ, ◌+◌, ◌^◌, ◌%◌, ◌≤◌, ◌<◌, ◌≡◌, ap, List, [], ◌∷◌, ◌++◌, arith, length, All, All-append, last,
  ok, unwrap, >>=-ok, ok-injective,
}
use mathlib.Core.Path.{subst}
use native.Mathlib.Decide.{dec_lt}
use tee_demo.Base.{ltb-eq_true, ltb-eq_false}
use tee_demo.Base.Bytes.{Text}
use tee_demo.Protocol.Platform.{Platform}
use tee_demo.Protocol.Aead.{generate_keypair}
use tee_demo.KeyStore.{StoredKey, KeyStore, retention, evict, rotate}
use tee_demo.KeyStore.Codec.{KeyFits, Fits}

evict-Fits :
    (keys : List StoredKey)
    → All KeyFits keys
    → All KeyFits (evict keys) × (length (evict keys) ≤ retention)
unfolding evict
evict-Fits [] h = (tt, omega arith)
evict-Fits (k ∷ ks) (hk, hs) = elim (dec_lt retention (length (k ∷ ks))) [
  | yes p ↦ rw (ltb-eq_true retention (length (k ∷ ks)) p) (evict-Fits ks hs)
  | no p ↦ rw (ltb-eq_false retention (length (k ∷ ks)) p) ((hk, hs), omega arith)
]

-- The keys that the generator makes fit the encoding's lengths.
pub record KeysFit (plat : Platform) : Type 0 where
  pub public_keys : (draw : ℕ) → length (plat.gen_keypair draw).0 < 2 ^ 16
  pub private_keys : (draw : ℕ) → length (plat.gen_keypair draw).1 < 2 ^ 16

module _ ⦃plat : Platform⦄ where
  -- What `rotate` makes of the store
  abbrev next_store : ℕ → KeyStore → KeyStore
  next_store draw store =
      let version = (store.current_version + 1) % 2 ^ 64 in
      record {
        current_version = version;
        keys = evict (
            store.keys
            ++ record {
              version = version;
              public_key = (plat.gen_keypair draw).0;
              private_key = (plat.gen_keypair draw).1;
            }
              ∷ []);
      }

  rotate-next_store :
      (draw : ℕ) (store store' : KeyStore) (key : StoredKey)
      → rotate draw store ≡ ok (store', key)
      → next_store draw store ≡ store'
  unfolding rotate generate_keypair
  rotate-next_store draw store store' key e =
      let (newest, found, returned) =
        >>=-ok (unwrap {E = Text} (last (next_store draw store).keys))
          (λ k. ok (next_store draw store, k)) e in
      ap (λ (p : KeyStore × StoredKey). p.0) (ok-injective returned)

  next_store-Fits :
      (draw : ℕ) (store : KeyStore) → KeysFit plat → Fits store → Fits (next_store draw store)
  next_store-Fits draw store short fits =
      let (keys, few) = evict-Fits _ (
        All-append KeyFits store.keys _ fits.keys (
          record {
            version = omega arith;
            public_key = short.public_keys draw;
            private_key = short.private_keys draw;
          },
          tt,
        )) in
      record { current_version = omega arith; count = omega (arith, few); keys = keys }

  pub rotate-Fits :
      (draw : ℕ) (store store' : KeyStore) (key : StoredKey)
      → KeysFit plat
      → Fits store
      → rotate draw store ≡ ok (store', key)
      → Fits store'
  rotate-Fits draw store store' key short fits e =
      subst Fits (rotate-next_store draw store store' key e) (next_store-Fits draw store short fits)
