-- ===== src/Crypto/Field.antt =====
-- crypto/field.ts and the modulus `r` of crypto/constants.ts. The proofs are in the modules below.
pub mod Reduce
pub mod Bytes
pub mod Hex
pub mod Numeral
pub mod Pairs
use lumengate.Prelude.{
  ℕ, zero, suc, ◌+◌, ◌-◌, ◌*◌, ◌/◌, ◌%◌, ◌^◌, ◌<◌, ◌≡◌, Bool, not, ◌&&◌, ◌||◌, Option, none, some,
  List, [], ◌∷◌, ◌++◌, ltb, if◌then◌else◌, length, replicate, pos_part, neg_part, ◌+ℤ◌, ◌-ℤ◌, ltb_ℤ,
  leb_ℤ, eqb_ℤ, ℤ, pos, negsuc,
}
use lumengate.Prelude.Result.{Result, ok, err, value_out_of_range}

abbrev pub fr_modulus : ℕ
fr_modulus = 0x30644e72e131a029b85045b68181585d2833e84879b9709143e1f593f0000001

-- JavaScript's `%` on bigints: the result has the sign of the dividend.
abbrev pub rem_ℤ : ℤ → ℕ → ℤ
rem_ℤ (pos n) m = pos (n % m)
rem_ℤ (negsuc n) m = pos 0 -ℤ pos ((n + 1) % m)

unfoldable pub fr_mod : ℤ → ℤ
unfolding ◌+ℤ◌ ◌-ℤ◌
fr_mod x = let m = rem_ℤ x fr_modulus in if ltb_ℤ m (pos 0) then m +ℤ pos fr_modulus else m

unfoldable pub fr_add : ℤ → ℤ → ℤ
fr_add a b = fr_mod (a +ℤ b)

unfoldable pub fr_sub : ℤ → ℤ → ℤ
fr_sub a b = fr_mod (a -ℤ b)

unfoldable pub is_canonical_fr : ℤ → Bool
is_canonical_fr x = leb_ℤ (pos 0) x && ltb_ℤ x (pos fr_modulus)

-- The loop of `toBytes32BE`, from the last byte to the first: `out[i] = v & 0xff; v >>= 8`.
unfoldable pub fill_be : ℕ → ℕ → List ℕ → List ℕ
fill_be zero v out = out
fill_be (suc i) v out = fill_be i (v / 256) ((v % 256) ∷ out)

unfoldable pub to_bytes_32_be : ℤ → Result (List ℕ)
to_bytes_32_be x =
    if ltb_ℤ x (pos 0) || leb_ℤ (pos (2 ^ 256)) x
    then err value_out_of_range
    else ok (fill_be 32 (pos_part x) [])

-- The loop of `fromBytesBE`: `v = (v << 8) | byte`, a byte being below 256.
unfoldable pub read_be : ℕ → List ℕ → ℕ
read_be v [] = v
read_be v (byte ∷ bytes) = read_be (v * 256 + byte) bytes

unfoldable pub from_bytes_be : List ℕ → ℤ
from_bytes_be b = pos (read_be 0 b)

-- The loop of `fromBytesLE` starts at the last byte.
unfoldable pub read_le : List ℕ → ℕ
read_le [] = 0
read_le (byte ∷ bytes) = read_le bytes * 256 + byte

unfoldable pub from_bytes_le : List ℕ → ℤ
unfolding read_le
from_bytes_le b = pos (read_le b)

abbrev clear_first : List ℕ → List ℕ
clear_first [] = []
clear_first (byte ∷ bytes) = 0 ∷ bytes

-- The rejection loop of `randomScalar`, over the arrays that `getRandomValues` draws; `none` when
-- the draws are used up.
unfoldable pub random_scalar : List (List ℕ) → Option ℤ
random_scalar [] = none
random_scalar (bytes ∷ draws) =
    let v = from_bytes_be (clear_first bytes) in
    let again = random_scalar draws in
    if not (eqb_ℤ v (pos 0)) && ltb_ℤ v (pos fr_modulus) then some v else again

-- 0 ≤ x < r.
abbrev pub IsCanonical : ℤ → Type 0
IsCanonical x = (neg_part x ≡ 0) × (pos_part x < fr_modulus)

abbrev pub hex_digit : ℕ → ℕ
hex_digit d = if ltb d 10 then b'0' + d else b'a' + (d - 10)

-- `n.toString(16)`, as code points, digit by digit from the last; n + 1 rounds are enough.
unfoldable pub digits_16 : ℕ → ℕ → List ℕ → List ℕ
digits_16 zero n acc = acc
digits_16 (suc fuel) n acc =
    let rest = digits_16 fuel (n / 16) (hex_digit (n % 16) ∷ acc) in
    if ltb n 16 then hex_digit n ∷ acc else rest

abbrev pub to_string_16 : ℕ → List ℕ
to_string_16 n = digits_16 (suc n) n []

abbrev pub pad_start : ℕ → ℕ → List ℕ → List ℕ
pad_start width c s = replicate (width - length s) c ++ s

unfoldable pub to_hex_32 : ℤ → List ℕ
to_hex_32 x = b'0' ∷ b'x' ∷ pad_start 64 b'0' (to_string_16 (pos_part (fr_mod x)))

-- `b.toString(16).padStart(2, "0")` for each byte.
unfoldable pub bytes_to_hex : List ℕ → List ℕ
bytes_to_hex [] = []
bytes_to_hex (byte ∷ b) = pad_start 2 b'0' (to_string_16 byte) ++ bytes_to_hex b
