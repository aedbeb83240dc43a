-- ===== src/Runtime/Connected/Durable.antt =====
-- The store on the disk along the loop of runtime/src/main.rs, whatever the host sends.
pub mod Gives
pub mod Rotate
pub mod Loop
use tee_demo.Base.State.{◌>>=◌, ◌>>◌, continue, lift, pure, bind-ok}
use mathlib.Core.Path.{subst}
use tee_demo.Base.{
  ℕ, zero, suc, ◌+◌, ◌^◌, ◌≤◌, ◌<◌, ◌≡◌, refl, sym, ap, ◌∙◌, Bool, true, false, none, some, List,
  [], ◌∷◌, arith, if◌then◌else◌, Fallible, ok, err, panic, ok-injective,
}
use tee_demo.Base.Bytes.{Bytes, text, to_le_bytes}
use tee_demo.Protocol.Frame.{Frame}
use tee_demo.Protocol.Platform.{Platform}
use tee_demo.KeyStore
use tee_demo.KeyStore.{KeyStore, StoredKey}
use tee_demo.KeyStore.Codec.{Fits}
use tee_demo.KeyStore.Retention.{IsValid, rotate-IsValid}
use tee_demo.KeyStore.Fitting.{KeysFit, rotate-Fits}
use tee_demo.Sealing.RoundTrip.{SealSupport}
use tee_demo.Loader.Blobs.{Machine}
use tee_demo.Runtime.Link.{Io, M}
use tee_demo.Runtime.Server.{Session}
use tee_demo.Runtime.Connected.{World}
use tee_demo.Runtime.Connected.Restart.{Holds}

-- `n` rotations, each with some draw of the generator, lead from one store to the other.
abbrev pub Rotations : ⦃plat : Platform⦄ → ℕ → KeyStore → KeyStore → Type 0
Rotations zero from to = from ≡ to
Rotations (suc n) from to =
    (draw : ℕ) × (mid : KeyStore) × (key : StoredKey) × (KeyStore.rotate draw from ≡ ok (mid, key))
    × Rotations n mid to

-- The session that goes on, if one does, has this store.
abbrev pub GoesOn : Fallible Session → KeyStore → Type 0
GoesOn (ok session) store = session.store ≡ store
GoesOn (err e) store = Unit
GoesOn panic store = Unit

module _ {ℓ κ} {D : Type ℓ} {H : Type κ} ⦃plat : Platform⦄ (machine : Machine D) where
  -- However it ended: at most `n` rotations later, the store is on the disk.
  pub record Durable (n : ℕ) (from : KeyStore) (r : Fallible Session × Io (World D H))
      : Type 0 where
    pub rotations : ℕ
    pub at_most : rotations ≤ n
    pub store : KeyStore
    pub rotated : Rotations rotations from store
    pub fits : Fits store
    pub held : Holds plat machine r.1.peer.disk store
    pub goes_on : GoesOn r.0 store

module _ ⦃plat : Platform⦄ where
  Rotations-add :
      (m n : ℕ) (a b c : KeyStore) → Rotations m a b → Rotations n b c → Rotations (m + n) a c
  Rotations-add zero n a b c p q =
      let same_count : n ≡ 0 + n = omega arith in
      subst (λ k. Rotations k a c) same_count (subst (λ s. Rotations n s c) (sym p) q)
  Rotations-add (suc m) n a b c (d, mid, key, e, p) q =
      let one_more : suc (m + n) ≡ suc m + n = omega arith in
      subst (λ k. Rotations k a c) one_more (d, mid, key, e, Rotations-add m n mid b c p q)

  pub Rotations-IsValid :
      (n : ℕ) (from to : KeyStore)
      → Rotations n from to
      → IsValid from
      → from.current_version + n < 2 ^ 64
      → IsValid to × (to.current_version ≡ from.current_version + n)
  Rotations-IsValid zero from to e valid small =
      (subst IsValid e valid, sym (ap (λ (s : KeyStore). s.current_version) e) ∙ omega arith)
  Rotations-IsValid (suc n) from to (draw, mid, key, e, rest) valid small =
      let (store', key', e', valid', version, cur, made, few) =
        rotate-IsValid draw from valid (omega arith) in
      let same_store : store' ≡ mid =
        ap (λ (p : KeyStore × StoredKey). p.0) (ok-injective (sym e' ∙ e)) in
      let version' : mid.current_version ≡ from.current_version + 1 =
        sym (ap (λ (s : KeyStore). s.current_version) same_store) ∙ version in
      let (valid_to, last_version) =
        Rotations-IsValid n mid to rest (subst IsValid same_store valid')
          (omega (arith, version')) in
      (valid_to, omega (arith, last_version, version'))

module _ {ℓ κ} {D : Type ℓ} {H : Type κ} ⦃plat : Platform⦄ (machine : Machine D) where
  -- A part of the loop, and then the rest from the store that it left
  pub Durable-continue :
      (m n : ℕ) (from : KeyStore) (r : Fallible Session) (io : Io (World D H))
      (f : Session → M (World D H) Session)
      → Durable machine m from (r, io)
      → ((s : Session)
          → Fits s.store
          → Holds plat machine io.peer.disk s.store
          → Durable machine n s.store (f s io))
      → Durable machine (m + n) from (continue (r, io) f)
  Durable-continue m n from (ok s) io f first rest =
      let then_ =
        rest s (subst Fits (sym first.goes_on) first.fits)
          (subst (Holds plat machine io.peer.disk) (sym first.goes_on) first.held) in
      record {
        rotations = first.rotations + then_.rotations;
        at_most = omega (arith, first.at_most, then_.at_most);
        store = then_.store;
        rotated =
            Rotations-add first.rotations then_.rotations from s.store then_.store
              (subst (Rotations first.rotations from) (sym first.goes_on) first.rotated)
              then_.rotated;
        fits = then_.fits;
        held = then_.held;
        goes_on = then_.goes_on;
      }
  Durable-continue m n from (err e) io f first rest = record {
    rotations = first.rotations;
    at_most = omega (arith, first.at_most);
    store = first.store;
    rotated = first.rotated;
    fits = first.fits;
    held = first.held;
    goes_on = tt;
  }
  Durable-continue m n from panic io f first rest = record {
    rotations = first.rotations;
    at_most = omega (arith, first.at_most);
    store = first.store;
    rotated = first.rotated;
    fits = first.fits;
    held = first.held;
    goes_on = tt;
  }

  -- Nothing was rotated.
  pub Durable-same :
      (n : ℕ) (from : KeyStore) (r : Fallible Session × Io (World D H))
      → Fits from
      → Holds plat machine r.1.peer.disk from
      → GoesOn r.0 from
      → Durable machine n from r
  Durable-same n from r fits held on = record {
    rotations = 0;
    at_most = omega arith;
    store = from;
    rotated = refl;
    fits = fits;
    held = held;
    goes_on = on;
  }
