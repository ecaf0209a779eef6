-- ===== src/Crypto/Grumpkin/Toy.antt =====
-- A concrete curve for tests and witnesses: the integers modulo p under addition, which satisfy
-- every law that the code relies on (and hide nothing).
use lumengate.Prelude.{
  ℕ, zero, suc, ◌+◌, ◌*◌, ◌/◌, ◌%◌, ◌^◌, ◌<◌, ◌≡◌, sym, ap, ◌≢◌, ◌&&◌, Option, none, some, arith,
  ltb, ◌==◌, if◌then◌else◌, lt→ltb, ℤ, pos,
}
use mathlib.Core.HLevel.{Σ_prop_path}
use native.Mathlib.Bridge.{le_prop}
use lumengate.Crypto.Grumpkin.{Curve, CurveLaws, times, fp_modulus}

abbrev pub Residue : Type 0
Residue = (n : ℕ) × (n < fp_modulus)

unfoldable pub reduce : ℕ → Residue
reduce n = (n % fp_modulus, omega arith)

Residue-path : (a b : Residue) → a.0 ≡ b.0 → a ≡ b
Residue-path a b h = Σ_prop_path (λ n. le_prop) h

-- Coordinates that are rebuilt to the residue.
unfoldable pub rebuild : ℤ × ℤ → Option Residue
unfolding reduce
rebuild (pos x, pos y) =
    if ltb y (2 ^ 128) && ltb (x * 2 ^ 128 + y) fp_modulus
    then some (reduce (x * 2 ^ 128 + y))
    else none
rebuild (_, _) = none

instance unfoldable pub toy : Curve Residue
unfolding reduce rebuild
toy = record {
  infinity = reduce 0;
  g = reduce 2;
  h = reduce 1;
  add = λ a b. reduce (a.0 + b.0);
  multiply = λ k a. reduce (k * a.0);
  is0 = λ a. a.0 == 0;
  equals = λ a b. a.0 == b.0;
  to_affine = λ a. (pos (a.0 / 2 ^ 128), pos (a.0 % 2 ^ 128));
  from_affine = rebuild;
}

times-val : (k : ℕ) (a : Residue) → (times toy k a).0 ≡ k * a.0 % fp_modulus
unfolding times toy
times-val zero a = omega arith
times-val (suc k) a =
    let e : suc k * a.0 ≡ a.0 + k * a.0 = grind arith in rw e (omega (arith, times-val k a))

split_join : (n : ℕ) → n / 2 ^ 128 * 2 ^ 128 + n % 2 ^ 128 ≡ n
split_join n = omega arith

rebuild_split : (a : Residue) → rebuild (pos (a.0 / 2 ^ 128), pos (a.0 % 2 ^ 128)) ≡ some a
unfolding rebuild
rebuild_split a =
    rw (split_join a.0, lt→ltb (a.0 % 2 ^ 128) (2 ^ 128) (omega arith), lt→ltb a.0 fp_modulus a.1)
      (ap some (Residue-path (reduce a.0) a (unfold reduce in omega arith)))

reduced : (a : Residue) → a.0 % fp_modulus ≡ a.0
reduced a = omega arith

toy_h_order : (k : ℕ) → 0 < k → k < fp_modulus → times toy k (reduce 1) ≢ reduce 0
unfolding reduce
toy_h_order k p q e = absurd (omega (arith, ap (λ (a : Residue). a.0) e, times-val k (reduce 1)))

pub toy_laws : CurveLaws toy
unfolding toy
toy_laws = record {
  add_assoc = λ p q r. Residue-path _ _ (omega arith);
  add_comm = λ p q. Residue-path _ _ (omega arith);
  infinity-add = λ p. Residue-path _ _ (omega arith);
  order = λ p. Residue-path _ _ (omega (arith, times-val fp_modulus p));
  h_order = toy_h_order;
  multiply-times = λ k p _ _. Residue-path _ _ (sym (times-val k p));
  is0_iff =
      λ p. (λ h. Residue-path _ _ (ground arith), λ e. ground (arith, ap (λ (a : Residue). a.0) e));
  equals_iff = λ p q.
      (λ h. Residue-path _ _ (ground arith), λ e. ground (arith, ap (λ (a : Residue). a.0) e));
  affine_x = λ p h. omega arith;
  affine_y = λ p h. omega arith;
  affine_ne =
      λ p h e. ground (arith, split_join p.0, ap (λ (c : ℤ × ℤ). c.0) e, ap (λ (c : ℤ × ℤ). c.1) e);
  from_affine-to_affine = λ p h. rebuild_split p;
}
