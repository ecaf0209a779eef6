-- ===== src/Passport/Numbers.antt =====
-- The numbers of assetScope.ts and contracts.ts: `toBigInt`, `fieldToHex`, `nullifierHexFromBundle`,
-- over texts as lists of code points.
pub mod Hex
use lumengate.Prelude.{
  ℕ, suc, ◌+◌, ◌-◌, ◌*◌, not, ◌&&◌, ◌||◌, Option, none, some, List, [], ◌∷◌, ltb, ◌==◌,
  if◌then◌else◌, ◌-ℤ◌, ℤ, pos, negsuc,
}
use lumengate.Prelude.Result.{Result, ok, err, ◌>>=◌, bad_bigint}
use lumengate.Crypto.Field.{pad_start, to_string_16}
use lumengate.Crypto.Field.Hex.{digit_value}
use lumengate.Crypto.Field.Numeral.{is_empty, trim_end, from_hex}
use lumengate.Product.Amount.{trim_start, span_digits, read_10}

-- `BigInt` of decimal digits, all of the text.
unfoldable pub decimal : List ℕ → Result ℤ
unfolding span_digits read_10
decimal s =
    let split = span_digits s in
    if not (is_empty split.0) && is_empty split.1
    then ok (pos (read_10 0 split.0))
    else err bad_bigint

abbrev pub negated : Result ℤ → Result ℤ
negated (ok value) = ok (pos 0 -ℤ value)
negated (err thrown) = err thrown

-- An optional sign before decimal digits.
unfoldable pub signed : List ℕ → Result ℤ
unfolding decimal ◌-ℤ◌
signed [] = ok (pos 0)
signed (c ∷ s) =
    if c == b'-' then negated (decimal s) else if c == b'+' then decimal s else decimal (c ∷ s)

-- The digits of base 2 or 8 behind their prefix.
unfoldable pub read_radix : ℕ → ℕ → List ℕ → Option ℕ
read_radix base v [] = some v
read_radix base v (c ∷ s) = elim (digit_value c) [
  | none ↦ none
  | some d ↦ let rest = read_radix base (v * base + d) s in if ltb d base then rest else none
]

abbrev radix_value : ℕ → List ℕ → Result ℤ
radix_value base [] = err bad_bigint
radix_value base (c ∷ s) = elim (read_radix base 0 (c ∷ s)) [
  | none ↦ err bad_bigint
  | some v ↦ ok (pos v)
]

-- A text without white space around it: hexadecimal, octal or binary behind its prefix, or decimal.
unfoldable pub numeral : List ℕ → Result ℤ
unfolding from_hex read_radix signed
numeral (c ∷ c' ∷ s) =
    if c == b'0' && (c' == b'x' || c' == b'X')
    then from_hex (c ∷ c' ∷ s)
    else if c == b'0' && (c' == b'o' || c' == b'O')
    then radix_value 8 s
    else if c == b'0' && (c' == b'b' || c' == b'B')
    then radix_value 2 s
    else signed (c ∷ c' ∷ s)
numeral s = signed s

-- `BigInt(text)`, which reads an empty text as 0; so does `toBigInt`.
unfoldable pub to_big_int : List ℕ → Result ℤ
unfolding trim_start trim_end numeral
to_big_int text = numeral (trim_end (trim_start text))

abbrev hex_digits : ℤ → List ℕ
hex_digits (pos n) = to_string_16 n
hex_digits (negsuc n) = b'-' ∷ to_string_16 (suc n)

-- `0x` and at least 64 digits.
abbrev pub hex_64 : ℤ → List ℕ
hex_64 value = b'0' ∷ b'x' ∷ pad_start 64 b'0' (hex_digits value)

unfoldable pub field_to_hex : List ℕ → Result (List ℕ)
unfolding to_big_int
field_to_hex value = do n ← to_big_int value; ok (hex_64 n)
