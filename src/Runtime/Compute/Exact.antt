-- ===== src/Runtime/Compute/Exact.antt =====
-- When `compute` of runtime/src/main.rs is the polynomial, and when it is not.
use tee_demo.Base.{◌^◌, ◌≡◌, ◌≢◌, sym, ap, ◌∙◌, arith}
use mathlib.Core.Path.{subst}
use tee_demo.Base.Int.{ℤ, pos, ◌+ℤ◌, ◌*ℤ◌, IsI64, wrap_i64, wrap_i64-IsI64, wrap_i64-eq_self}
use tee_demo.Base.Int.Wrap.{wrap-mul-wrap, wrap-add-wrap, wrap_i64-multiple}
use tee_demo.Runtime.Compute.{compute}

-- x³ + 5y over the integers
abbrev pub polynomial : ℤ → ℤ → ℤ
polynomial x y = x *ℤ (x *ℤ x) +ℤ pos 5 *ℤ y

compute-eq-wrap : (x y : ℤ) → compute x y ≡ wrap_i64 (polynomial x y)
unfolding compute
compute-eq-wrap x y =
    ap (λ c. wrap_i64 (c +ℤ wrap_i64 (pos 5 *ℤ y))) (wrap-mul-wrap x (x *ℤ x))
    ∙ wrap-add-wrap (x *ℤ (x *ℤ x)) (pos 5 *ℤ y)

-- Wherever x³ + 5y is in the range of `i64`, `compute` returns it, also if x³ or 5y is not.
pub compute-exact : (x y : ℤ) → IsI64 (polynomial x y) → compute x y ≡ polynomial x y
compute-exact x y h = compute-eq-wrap x y ∙ wrap_i64-eq_self (polynomial x y) h

+ℤ_none : (a : ℤ) → a +ℤ pos 0 *ℤ pos (2 ^ 64) ≡ a
unfolding ◌+ℤ◌ ◌*ℤ◌
+ℤ_none a = ground arith

-- Wherever x³ + 5y is out of the range of `i64`, `compute` returns, with no error, the i64 that
-- x³ + 5y is congruent to modulo 2 ^ 64, and it is another number: they differ by a multiple of
-- 2 ^ 64 that is not 0.
pub compute-overflow :
    (x y : ℤ)
    → ¬ IsI64 (polynomial x y)
    → IsI64 (compute x y)
      × (k : ℤ) × (k ≢ pos 0)
      × (compute x y +ℤ k *ℤ pos (2 ^ 64) ≡ polynomial x y)
compute-overflow x y h =
    let p = polynomial x y in
    let (k, whole) = wrap_i64-multiple p in
    let range : IsI64 (compute x y) = subst IsI64 (sym (compute-eq-wrap x y)) (wrap_i64-IsI64 p) in
    (
      range,
      k,
      (λ zero. h (
          subst IsI64
            (sym (+ℤ_none (wrap_i64 p))
              ∙ ap (λ j. wrap_i64 p +ℤ j *ℤ pos (2 ^ 64)) (sym zero)
              ∙ whole)
            (wrap_i64-IsI64 p))),
      ap (λ c. c +ℤ k *ℤ pos (2 ^ 64)) (compute-eq-wrap x y) ∙ whole,
    )
