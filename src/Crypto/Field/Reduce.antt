-- ===== src/Crypto/Field/Reduce.antt =====
-- Reduction into the field.
use lumengate.Prelude.{
  ℕ, ◌+◌, ◌-◌, ◌<◌, ◌≡◌, ◌↔◌, true, arith, ltb, if◌then◌else◌, ◌-ℤ◌, ℤ, pos, negsuc,
}
use lumengate.Crypto.Field.{fr_modulus, fr_mod, fr_add, is_canonical_fr, IsCanonical}

pub fr_mod-IsCanonical : (x : ℤ) → IsCanonical (fr_mod x)
unfolding fr_mod
fr_mod-IsCanonical (pos n) = ground arith
fr_mod-IsCanonical (negsuc n) = ground arith

pub fr_mod_of_IsCanonical : (x : ℤ) → IsCanonical x → fr_mod x ≡ x
unfolding fr_mod
fr_mod_of_IsCanonical (pos n) h = ground arith
fr_mod_of_IsCanonical (negsuc n) h = ground arith

-- A canonical value that frAdd masked is recovered by subtracting the mask and frMod, whatever
-- the mask.
pub fr_mod-sub-fr_add : (a b : ℤ) → IsCanonical a → fr_mod (fr_add a b -ℤ b) ≡ a
unfolding fr_mod fr_add
fr_mod-sub-fr_add (pos a) (pos b) h = ground arith
fr_mod-sub-fr_add (pos a) (negsuc b) h = ground arith
fr_mod-sub-fr_add (negsuc a) b h = ground arith

pub is_canonical_fr_iff : (x : ℤ) → (is_canonical_fr x ≡ true) ↔ IsCanonical x
unfolding is_canonical_fr
is_canonical_fr_iff (pos n) = ground arith
is_canonical_fr_iff (negsuc n) = ground arith

-- On canonical values `frAdd` is the integer sum, less r if that reaches r.
pub fr_add-pos :
    (a b : ℕ)
    → a < fr_modulus
    → b < fr_modulus
    → fr_add (pos a) (pos b) ≡ pos (if ltb (a + b) fr_modulus then a + b else a + b - fr_modulus)
unfolding fr_mod fr_add
fr_add-pos a b ha hb = ground arith
