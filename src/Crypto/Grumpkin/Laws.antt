-- ===== src/Crypto/Grumpkin/Laws.antt =====
-- Scalar multiplication, commitments and the key agreement, as operations of the group.
use lumengate.Prelude.{
  ℕ, zero, suc, ◌+◌, ◌-◌, ◌*◌, ◌/◌, ◌%◌, ◌≤◌, ◌<◌, ◌≡◌, refl, sym, ap, ◌∙◌, ◌≢◌, arith, pos,
}
use native.Mathlib.Nat.{zero-add, zero-mul, mul_comm}
use lumengate.Crypto.Grumpkin.{Curve, CurveLaws, times, fp_modulus, scalar_mul, commit, ecdh}
use lumengate.Crypto.Field.{fr_modulus, fr_add}
use lumengate.Crypto.Field.Reduce.{fr_add-pos}

module _ {Point : Type 0} ⦃C : Curve Point⦄ (L : CurveLaws C) where
  add-infinity : (p : Point) → C.add p C.infinity ≡ p
  add-infinity p = L.add_comm p C.infinity ∙ L.infinity-add p

  -- (p + q) + (r + s) = (p + r) + (q + s).
  pub add_swap : (p q r s : Point) → C.add (C.add p q) (C.add r s) ≡ C.add (C.add p r) (C.add q s)
  add_swap p q r s = cc (
    L.add_assoc p q (C.add r s),
    L.add_assoc q r s,
    L.add_comm q r,
    L.add_assoc r q s,
    L.add_assoc p r (C.add q s),
  )

  times-zero : (p : Point) → times C 0 p ≡ C.infinity
  unfolding times
  times-zero p = refl

  pub times-add : (j k : ℕ) (p : Point) → times C (j + k) p ≡ C.add (times C j p) (times C k p)
  unfolding times
  times-add zero k p = rw zero-add (sym (L.infinity-add (times C k p)))
  times-add (suc j) k p =
      let e : suc j + k ≡ suc (j + k) = omega arith in
      rw (e, times)
        (ap (C.add p) (times-add j k p) ∙ sym (L.add_assoc p (times C j p) (times C k p)))

  times-infinity : (k : ℕ) → times C k C.infinity ≡ C.infinity
  unfolding times
  times-infinity zero = refl
  times-infinity (suc k) = L.infinity-add _ ∙ times-infinity k

  pub times-point_add :
      (k : ℕ) (p q : Point) → times C k (C.add p q) ≡ C.add (times C k p) (times C k q)
  unfolding times
  times-point_add zero p q = sym (L.infinity-add C.infinity)
  times-point_add (suc k) p q =
      ap (C.add (C.add p q)) (times-point_add k p q) ∙ add_swap p q (times C k p) (times C k q)

  times-times : (j k : ℕ) (p : Point) → times C j (times C k p) ≡ times C (j * k) p
  unfolding times
  times-times zero k p = rw zero-mul refl
  times-times (suc j) k p =
      let e : suc j * k ≡ k + j * k = grind arith in
      rw e (ap (C.add (times C k p)) (times-times j k p) ∙ sym (times-add k (j * k) p))

  times-mul_order : (q : ℕ) (p : Point) → times C (q * fp_modulus) p ≡ C.infinity
  times-mul_order q p =
      sym (times-times q fp_modulus p) ∙ ap (times C q) (L.order p) ∙ times-infinity q

  pub times-mod : (k : ℕ) (p : Point) → times C (k % fp_modulus) p ≡ times C k p
  times-mod k p =
      let e : k ≡ k / fp_modulus * fp_modulus + k % fp_modulus = omega arith in
      sym (
        ap (λ n. times C n p) e
        ∙ times-add (k / fp_modulus * fp_modulus) (k % fp_modulus) p
        ∙ ap (λ q. C.add q (times C (k % fp_modulus) p)) (times-mul_order (k / fp_modulus) p)
        ∙ L.infinity-add _)

  -- On a scalar that is not negative `scalarMul` is the scalar multiple.
  pub scalar_mul-times : (k : ℕ) (p : Point) → scalar_mul (pos k) p ≡ times C k p
  unfolding scalar_mul
  scalar_mul-times k p =
      ground (arith, L.multiply-times (k % fp_modulus) p, times-mod k p, times-zero p)

  pub scalar_mul-add :
      (j k : ℕ) (p : Point)
      → scalar_mul (pos (j + k)) p ≡ C.add (scalar_mul (pos j) p) (scalar_mul (pos k) p)
  scalar_mul-add j k p = simp scalar_mul-times (times-add j k p)

  pub scalar_mul_comm :
      (j k : ℕ) (p : Point)
      → scalar_mul (pos j) (scalar_mul (pos k) p) ≡ scalar_mul (pos k) (scalar_mul (pos j) p)
  scalar_mul_comm j k p =
      simp (scalar_mul-times, times-times) (ap (λ n. times C n p) (mul_comm j k))

  -- Two holders of scalars compute the same shared secret from each other's multiple of a
  -- point, or both throw.
  pub ecdh_comm :
      (a b : ℕ) (p : Point)
      → ecdh (pos a) (scalar_mul (pos b) p) ≡ ecdh (pos b) (scalar_mul (pos a) p)
  unfolding ecdh
  ecdh_comm a b p = rw (scalar_mul_comm a b p) refl

  pub commit-add :
      (v w r s : ℕ)
      → commit (pos (v + w)) (pos (r + s)) ≡ C.add (commit (pos v) (pos r)) (commit (pos w) (pos s))
  unfolding commit
  commit-add v w r s =
      rw (commit, scalar_mul-add v w C.g, scalar_mul-add r s C.h)
        (add_swap (scalar_mul (pos v) C.g) (scalar_mul (pos w) C.g) (scalar_mul (pos r) C.h)
          (scalar_mul (pos s) C.h))

  negate_of :
      (m n : ℕ) (p : Point)
      → m ≡ suc n
      → times C m p ≡ C.infinity
      → C.add (times C n p) p ≡ C.infinity
  unfolding times
  negate_of m n p e h = L.add_comm (times C n p) p ∙ (rw e at h)

  negate : (p : Point) → (q : Point) × (C.add q p ≡ C.infinity)
  negate p =
      let n : ℕ = fp_modulus - 1 in
      (times C n p, negate_of fp_modulus n p (omega arith) (L.order p))

  pub add_cancel : (p q r : Point) → C.add p q ≡ C.add p r → q ≡ r
  add_cancel p q r h =
      let (m, e) = negate p in
      cc (L.add_assoc m p q, L.add_assoc m p r, e, L.infinity-add q, L.infinity-add r, h)

  -- A multiple of `h` that a commitment absorbs is the identity.
  h_multiple :
      (v r k : ℕ)
      → ◌≡◌ {A = Point} (commit (pos v) (pos (r + k))) (commit (pos v) (pos r))
      → times C k C.h ≡ C.infinity
  unfolding commit
  h_multiple v r k same =
      let g : Point = scalar_mul (pos v) C.g in
      let p : Point = scalar_mul (pos r) C.h in
      let q : Point = scalar_mul (pos k) C.h in
      cc (
        add_cancel (C.add g p) q C.infinity
            (cc (L.add_assoc g p q, scalar_mul-add r k C.h, add-infinity (C.add g p), same)),
        scalar_mul-times k C.h,
      )

  -- A blinding sum that reaches the field's modulus opens another commitment: the order of `h` is
  -- p, and the sum was reduced by r.
  pub commit_wrap :
      (v w r s : ℕ)
      → r < fr_modulus
      → s < fr_modulus
      → fr_modulus ≤ r + s
      → commit (pos (v + w)) (fr_add (pos r) (pos s))
        ≢ C.add (commit (pos v) (pos r)) (commit (pos w) (pos s))
  commit_wrap v w r s hr hs wrap same =
      let t : ℕ = r + s - fr_modulus in
      let reduced : fr_add (pos r) (pos s) ≡ pos t = rw (fr_add-pos r s hr hs) (ground arith) in
      let whole : r + s ≡ t + fr_modulus = omega arith in
      let overshoot : ◌≡◌ {A = Point} (commit (pos (v + w)) (pos (t + fr_modulus)))
          (commit (pos (v + w)) (pos t)) =
        rw (← whole) (commit-add v w r s ∙ sym same ∙ ap (commit (pos (v + w))) reduced) in
      L.h_order fr_modulus (omega arith) (omega arith) (h_multiple (v + w) t fr_modulus overshoot)
