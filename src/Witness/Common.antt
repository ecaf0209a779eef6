-- ===== src/Witness/Common.antt =====
-- witness/common.ts. A circuit input is a parameter name with the hex text of a field element.
use lumengate.Prelude.{ℕ, Option, none, some, List, [], ◌∷◌, ℤ}
use Prim.Native.String
use Prim.Native.String.{String}
use lumengate.Crypto.Field.{to_hex_32}
use lumengate.Crypto.Grumpkin.{Curve, point_coords}

abbrev pub NoirInputs : Type 0
NoirInputs = List (String × List ℕ)

unfoldable pub field_in : ℤ → List ℕ
field_in x = to_hex_32 x

module _ {Point : Type 0} ⦃C : Curve Point⦄ where
  unfoldable pub point_in : String → Point → NoirInputs
  point_in prefix p =
      let xy = point_coords p in
      (String.◌++◌ prefix "_x", to_hex_32 xy.0) ∷ (String.◌++◌ prefix "_y", to_hex_32 xy.1) ∷ []

-- `a ?? b`.
abbrev pub or_else : Option ℤ → ℤ → ℤ
or_else none fresh = fresh
or_else (some x) fresh = x
