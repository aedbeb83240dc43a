-- ===== src/Tests/Keys.antt =====
-- The key store, its codec, the sealed blob and the envelope, at concrete stores and bytes.
use tee_demo.Base.{
  ℕ, ◌+◌, ◌^◌, ◌<◌, ◌≡◌, refl, ◌⊎◌, [], ◌∷◌, ◌++◌, arith, length, replicate, length-replicate,
  length-take, take, ok, sym, ◌∙◌,
}
use tee_demo.Base.Bytes.{Bytes, text, from_le_bytes, length-to_le_bytes}
use tee_demo.Protocol.Binding.Collision.{Collides, report_data_binding-collision}
use tee_demo.KeyStore.{StoredKey, KeyStore, lookup}
use tee_demo.KeyStore.Retention.{IsValid}
use tee_demo.KeyStore.History.{history, ideal_lookup, lookup-history}
use tee_demo.KeyStore.Codec.{KeyFits, Fits}
use tee_demo.Sealing.{seal, unseal}
use tee_demo.Sealing.RoundTrip.{SealSupport, unseal-seal}
use tee_demo.Tests.Toy.{toy, toy_peer}

abbrev some_key : ℕ → StoredKey
some_key v = record { version = v; public_key = 4 ∷ v ∷ []; private_key = v ∷ [] }

-- The store after four rotations of a first one
abbrev pub two_keys : KeyStore
two_keys = record { current_version = 5; keys = some_key 4 ∷ some_key 5 ∷ [] }

pub two_keys-IsValid : IsValid two_keys
two_keys-IsValid = ground arith

some_key-KeyFits : (v : ℕ) → v < 2 ^ 64 → KeyFits (some_key v)
some_key-KeyFits v h = record { version = h; public_key = omega arith; private_key = omega arith }

pub two_keys-Fits : Fits two_keys
two_keys-Fits = record {
  current_version = omega arith;
  count = omega arith;
  keys = (some_key-KeyFits 4 (omega arith), (some_key-KeyFits 5 (omega arith), tt));
}

lookup-history_example :
    (store : KeyStore) × (history 1 (3 ∷ 2 ∷ []) ≡ ok store)
    × IsValid store
    × (store.current_version ≡ 2 + 1)
    × (lookup store 2 ≡ ideal_lookup 1 (3 ∷ 2 ∷ []) 2)
lookup-history_example = lookup-history 1 (3 ∷ 2 ∷ []) 2 (omega arith)

pub toy-SealSupport : SealSupport toy
unfolding tee_demo.Sealing.seal_key
toy-SealSupport = record {
  isvsvn_width = omega arith;
  cpusvn_width = refl;
  random_bytes = λ draw n. (replicate n draw, refl, length-replicate n draw);
  derives = λ keyid h. (take 16 keyid, refl, length-take 16 keyid (omega (arith, h)));
  takes_key = λ key h. (key, rw h refl);
  takes_nonce = λ bytes h. (bytes, rw h refl);
  opens = λ key cipher bytes nonce m c n. (replicate 16 0 ++ m, refl, omega arith, refl);
}

unseal-seal_example : (blob : Bytes) × (seal 3 two_keys ≡ ok blob) × (unseal blob ≡ ok two_keys)
unseal-seal_example = unseal-seal 3 two_keys toy-SealSupport two_keys-Fits

pub digest_length : (a b : Bytes) → length (toy.sha256 a) ≡ length (toy.sha256 b)
digest_length a b =
    length-to_le_bytes 32 (from_le_bytes a) ∙ sym (length-to_le_bytes 32 (from_le_bytes b))

report_data_binding-collision_example :
    ((◌≡◌ {A = ℕ} 2 2) × (text "pk" ≡ text "pk") × (text "n" ≡ text "n")) ⊎ Collides toy
report_data_binding-collision_example =
    report_data_binding-collision 2 2 (text "pk") (text "pk") (text "n") (text "n") digest_length
      (omega arith) (omega arith) (omega arith) (omega arith) refl
