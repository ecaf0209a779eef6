-- ===== src/Prelude/Texts.antt =====
-- Texts and bytes, as lists of numbers.
use Prim.Native.Nat.{ℕ}
use mathlib.Core.Path.{◌≡◌, refl, ap₂}
use mathlib.Core.Logic.{inl, inr}
use mathlib.Core.Bool.{Bool, true, false}
use mathlib.Core.List.{List, [], ◌∷◌}
use lumengate.Prelude.Tests.{◌==◌, ==_iff, Bool-cases, if◌then◌else◌}

-- `===` on texts, and on bytes the comparison of the lengths and of each byte.
unfoldable pub same_list : List ℕ → List ℕ → Bool
same_list [] [] = true
same_list (a ∷ s) (b ∷ t) = let rest = same_list s t in if a == b then rest else false
same_list [] (b ∷ t) = false
same_list (a ∷ s) [] = false

pub same_list→eq : (s t : List ℕ) → same_list s t ≡ true → s ≡ t
unfolding same_list
same_list→eq [] [] h = refl
same_list→eq [] (b ∷ t) h = cc
same_list→eq (a ∷ s) [] h = cc
same_list→eq (a ∷ s) (b ∷ t) h = elim (Bool-cases (a == b)) [
  | inl y ↦ ap₂ (λ c l. c ∷ l) ((==_iff a b).0 y) (same_list→eq s t (rw y at h))
  | inr n ↦ let e : false ≡ true = rw n at h in cc
]

pub same_list_refl : (s : List ℕ) → same_list s s ≡ true
unfolding same_list
same_list_refl [] = refl
same_list_refl (a ∷ s) = rw ((==_iff a a).1 refl, same_list_refl s) refl
