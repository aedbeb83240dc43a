-- ===== src/Base/Int/Wrap.antt =====
-- Wrapping to `i64` keeps a number modulo 2 ^ 64, so that it may be put off to the end of a
-- computation with sums and products.
use tee_demo.Base.{ℕ, ◌+◌, ◌-◌, ◌*◌, ◌/◌, ◌%◌, ◌^◌, ◌≡◌, ap, arith, if◌then◌else◌, ltb}
use tee_demo.Base.Int.{
  ℤ, pos, negsuc, pos_part, neg_part, sub_ℕ, to_bits, of_bits, ◌+ℤ◌, ◌*ℤ◌, wrap_i64,
}

-- a + k * 2 ^ 64 ≡ b + l * 2 ^ 64, told by the parts of the integers
pub record Congruent (a b : ℤ) : Type 0 where
  pub k : ℕ
  pub l : ℕ
  pub law : pos_part a + neg_part b + k * 2 ^ 64 ≡ pos_part b + neg_part a + l * 2 ^ 64

pub +ℤ_parts :
    (a b : ℤ)
    → pos_part (a +ℤ b) + neg_part a + neg_part b ≡ neg_part (a +ℤ b) + pos_part a + pos_part b
unfolding ◌+ℤ◌
+ℤ_parts a b = ground arith

sub_ℕ_parts : (a b : ℕ) → pos_part (sub_ℕ a b) + b ≡ neg_part (sub_ℕ a b) + a
sub_ℕ_parts a b = ground arith

pub *ℤ_parts :
    (a b : ℤ)
    → pos_part (a *ℤ b) + (pos_part a * neg_part b + neg_part a * pos_part b)
      ≡ neg_part (a *ℤ b) + (pos_part a * pos_part b + neg_part a * neg_part b)
unfolding ◌*ℤ◌
*ℤ_parts a b = sub_ℕ_parts _ _

Congruent-wrap_i64 : (a : ℤ) → Congruent (wrap_i64 a) a
unfolding wrap_i64
Congruent-wrap_i64 (pos n) = record {
  k = if ltb (n % 2 ^ 64) (2 ^ 63) then n / 2 ^ 64 else n / 2 ^ 64 + 1;
  l = 0;
  law = ground arith;
}
Congruent-wrap_i64 (negsuc n) = record {
  k = 0;
  l = if ltb (2 ^ 64 - 1 - n % 2 ^ 64) (2 ^ 63) then n / 2 ^ 64 + 1 else n / 2 ^ 64;
  law = ground arith;
}

to_bits-eq : (a b : ℤ) → Congruent a b → to_bits a ≡ to_bits b
to_bits-eq (pos m) (pos n) c = omega arith
to_bits-eq (pos m) (negsuc n) c = omega arith
to_bits-eq (negsuc m) (pos n) c = omega arith
to_bits-eq (negsuc m) (negsuc n) c = omega arith

pub wrap_i64-eq : (a b : ℤ) → Congruent a b → wrap_i64 a ≡ wrap_i64 b
unfolding wrap_i64
wrap_i64-eq a b c = ap of_bits (to_bits-eq a b c)

Congruent-add : (a b c d : ℤ) → Congruent a b → Congruent c d → Congruent (a +ℤ c) (b +ℤ d)
Congruent-add a b c d p q = record {
  k = p.k + q.k;
  l = p.l + q.l;
  law = omega (arith, +ℤ_parts a c, +ℤ_parts b d);
}

Congruent-mul : (x a b : ℤ) → Congruent a b → Congruent (x *ℤ a) (x *ℤ b)
Congruent-mul x a b p = record {
  k = pos_part x * p.k + neg_part x * p.l;
  l = pos_part x * p.l + neg_part x * p.k;
  law = omega (
    arith,
    *ℤ_parts x a,
    *ℤ_parts x b,
    ap (λ (t : ℕ). pos_part x * t) p.law,
    ap (λ (t : ℕ). neg_part x * t) p.law,
  );
}

pub wrap-mul-wrap : (x a : ℤ) → wrap_i64 (x *ℤ wrap_i64 a) ≡ wrap_i64 (x *ℤ a)
wrap-mul-wrap x a = wrap_i64-eq _ _ (Congruent-mul x (wrap_i64 a) a (Congruent-wrap_i64 a))

pub wrap-add-wrap : (a b : ℤ) → wrap_i64 (wrap_i64 a +ℤ wrap_i64 b) ≡ wrap_i64 (a +ℤ b)
wrap-add-wrap a b =
    wrap_i64-eq _ _ (Congruent-add _ _ _ _ (Congruent-wrap_i64 a) (Congruent-wrap_i64 b))

-- Wrapping takes a multiple of 2 ^ 64 away.
pub wrap_i64-multiple : (a : ℤ) → (k : ℤ) × (wrap_i64 a +ℤ k *ℤ pos (2 ^ 64) ≡ a)
unfolding wrap_i64 ◌+ℤ◌ ◌*ℤ◌
wrap_i64-multiple (pos n) =
    (pos (if ltb (n % 2 ^ 64) (2 ^ 63) then n / 2 ^ 64 else n / 2 ^ 64 + 1), ground arith)
wrap_i64-multiple (negsuc n) = (
  (if ltb (2 ^ 64 - 1 - n % 2 ^ 64) (2 ^ 63) then negsuc (n / 2 ^ 64) else sub_ℕ 0 (n / 2 ^ 64)),
  ground arith,
)
