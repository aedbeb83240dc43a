-- ===== src/Runtime/Connected/Disk.antt =====
-- What a frame of the runtime does to the loader's files.
use tee_demo.Base.{
  ◌≡◌, ◌≢◌, refl, ap, ◌∙◌, inl, inr, true, false, some, [], ◌∷◌, Bool-cases, Fallible, ok, err,
  panic,
}
use tee_demo.Base.Bytes.{Bytes, Text}
use tee_demo.Protocol.Frame.{Frame}
use tee_demo.Protocol.Platform.{Platform}
use tee_demo.Loader.Blobs.{Machine}
use tee_demo.Loader.Operations.{handle_loader_op}
use tee_demo.Loader.Names.{IsFileName}
use tee_demo.Loader.Operations.Files.{Files, handle_loader_op-spares}
use tee_demo.Loader.Multiplexer.{Mux, is_loader_request, after_reply, route_rounds}
use tee_demo.Runtime.Connected.{round_of}

-- A disk that takes every write to a file name
pub record Writes {ℓ} {D : Type ℓ} (machine : Machine D) : Type ℓ where
  pub creates : (d : D) → (machine.create_dir_all d).0 ≡ ok tt
  pub writes :
      (name : Text) (b : Bytes) → IsFileName name → (d : D) → (machine.write name b d).0 ≡ ok tt

module _ {ℓ} {D : Type ℓ} ⦃plat : Platform⦄ ⦃machine : Machine D⦄ where
  replied_machine :
      (r : Fallible Frame) (mux : Mux D)
      → (after_reply r (ok tt) mux (route_rounds [])).1.machine ≡ mux.machine
  unfolding route_rounds
  replied_machine (ok reply) mux = refl
  replied_machine (err e) mux = refl
  replied_machine panic mux = refl

  -- A frame leaves every file that it does not name.
  pub round_of-spares :
      (files : Files machine) (f : Frame) (d : D) (n : Text)
      → IsFileName n
      → f.path ≢ some n
      → machine.read n (round_of f d).machine ≡ machine.read n d
  unfolding route_rounds
  round_of-spares files f d n file h = elim (Bool-cases (is_loader_request f)) [
    | inl r ↦
        rw (r, round_of)
          (ap (machine.read n) (replied_machine (handle_loader_op f d).0 _)
            ∙ handle_loader_op-spares files f d n file h)
    | inr nr ↦ rw (nr, round_of) refl
  ]

  -- A request that the loader answers: the reply is what the runtime reads next.
  pub round_of-request :
      (f reply : Frame) (d d' : D)
      → is_loader_request f ≡ true
      → handle_loader_op f d ≡ (ok reply, d')
      → round_of f d ≡ record { machine = d'; to_enclave = reply ∷ []; to_host = [] }
  unfolding route_rounds
  round_of-request f reply d d' r e = rw (r, e, round_of) refl

  -- A frame for the host
  pub round_of-for_host :
      (f : Frame) (d : D)
      → is_loader_request f ≡ false
      → round_of f d ≡ record { machine = d; to_enclave = []; to_host = f ∷ [] }
  unfolding route_rounds
  round_of-for_host f d r = rw (r, round_of) refl
