-- ===== src/Crypto/Field/Hex.antt =====
-- crypto/field.ts, `hexToBytes`, over texts as lists of code points; a typed array keeps a number
-- modulo 256, and what is no number as 0.
use lumengate.Prelude.{
  ℕ, zero, suc, ◌+◌, ◌-◌, ◌*◌, ◌/◌, ◌%◌, ◌<◌, ◌≡◌, refl, ap, ◌∙◌, inl, inr, Bool, true, false, ◌&&◌,
  ◌||◌, Option, none, some, List, [], ◌∷◌, arith, ltb, leb, ◌==◌, if◌then◌else◌, Bool-cases, All,
}
use lumengate.Prelude.Result.{Result, ok, err, odd_length_hex, err}
use mathlib.Core.Option
use lumengate.Crypto.Field.{hex_digit, digits_16, to_string_16, pad_start, bytes_to_hex}

-- The white space that `parseInt` skips.
abbrev pub is_space : ℕ → Bool
is_space c =
    (leb 9 c && leb c 13)
    || c == 0x20
    || c == 0xa0
    || c == 0x1680
    || (leb 0x2000 c && leb c 0x200a)
    || c == 0x2028
    || c == 0x2029
    || c == 0x202f
    || c == 0x205f
    || c == 0x3000
    || c == 0xfeff

-- The value of a hexadecimal digit.
unfoldable pub digit_value : ℕ → Option ℕ
digit_value c =
    if leb b'0' c && leb c b'9'
    then some (c - b'0')
    else if leb b'a' c && leb c b'f'
    then some (c - b'a' + 10)
    else if leb b'A' c && leb c b'F'
    then some (c - b'A' + 10)
    else none

-- The second character behind one that is no digit: it counts behind white space and a sign.
abbrev behind : ℕ → Option ℕ → ℕ
behind c none = 0
behind c (some d) = if c == b'-' then (256 - d) % 256 else if c == b'+' || is_space c then d else 0

abbrev two_digits : ℕ → Option ℕ → Option ℕ → ℕ
two_digits c none second = behind c second
two_digits c (some d) none = d
two_digits c (some d) (some e) = d * 16 + e

-- `parseInt(pair, 16)` as a byte.
unfoldable pub parse_pair : ℕ → ℕ → ℕ
unfolding digit_value
parse_pair c c' = two_digits c (digit_value c) (digit_value c')

-- The loop over the pairs; `none` where a character is left over.
unfoldable pub parse_pairs : List ℕ → Option (List ℕ)
unfolding parse_pair
parse_pairs [] = some []
parse_pairs (c ∷ []) = none
parse_pairs (c ∷ c' ∷ s) = Option.map (λ out. parse_pair c c' ∷ out) (parse_pairs s)

-- `h.startsWith("0x") || h.startsWith("0X") ? h.slice(2) : h`.
unfoldable pub without_prefix : List ℕ → List ℕ
without_prefix (c ∷ c' ∷ s) = if c == b'0' && (c' == b'x' || c' == b'X') then s else c ∷ c' ∷ s
without_prefix s = s

abbrev pub from_pairs : Option (List ℕ) → Result (List ℕ)
from_pairs none = err odd_length_hex
from_pairs (some out) = ok out

unfoldable pub hex_to_bytes : List ℕ → Result (List ℕ)
unfolding parse_pairs without_prefix
hex_to_bytes h = from_pairs (parse_pairs (without_prefix h))

pub digit_value-hex_digit : (d : ℕ) → d < 16 → digit_value (hex_digit d) ≡ some d
unfolding digit_value
digit_value-hex_digit d h = ground arith

-- `byte.toString(16).padStart(2, "0")`.
two_digits_of :
    (byte : ℕ)
    → byte < 256
    → pad_start 2 b'0' (to_string_16 byte) ≡ hex_digit (byte / 16) ∷ hex_digit (byte % 16) ∷ []
unfolding digits_16
two_digits_of zero h = refl
two_digits_of (suc n) h = elim (Bool-cases (ltb (suc n) 16)) [
  | inl small ↦
      let high : suc n / 16 ≡ 0 = ground arith in
      let low : suc n % 16 ≡ suc n = ground arith in rw (small, high, low) refl
  | inr large ↦ let high : ltb (suc n / 16) 16 ≡ true = ground arith in rw (large, high) refl
]

pub parse_pair-hex_digit :
    (a b : ℕ) → a < 16 → b < 16 → parse_pair (hex_digit a) (hex_digit b) ≡ a * 16 + b
unfolding parse_pair
parse_pair-hex_digit a b ha hb = rw (digit_value-hex_digit a ha, digit_value-hex_digit b hb) refl

parse_pair-halves :
    (byte : ℕ) → byte < 256 → parse_pair (hex_digit (byte / 16)) (hex_digit (byte % 16)) ≡ byte
parse_pair-halves byte h =
    parse_pair-hex_digit (byte / 16) (byte % 16) (omega arith) (omega arith) ∙ omega arith

parse_pairs-bytes_to_hex :
    (bs : List ℕ) → All (λ b. b < 256) bs → parse_pairs (bytes_to_hex bs) ≡ some bs
unfolding parse_pairs bytes_to_hex
parse_pairs-bytes_to_hex [] h = refl
parse_pairs-bytes_to_hex (byte ∷ bs) (h, hs) =
    rw (two_digits_of byte h, parse_pairs-bytes_to_hex bs hs, parse_pair-halves byte h) refl

pub not_prefix : (d : ℕ) → d < 16 → (hex_digit d == b'x') || (hex_digit d == b'X') ≡ false
not_prefix d h = ground arith

without_prefix-bytes_to_hex :
    (bs : List ℕ) → All (λ b. b < 256) bs → without_prefix (bytes_to_hex bs) ≡ bytes_to_hex bs
unfolding without_prefix bytes_to_hex
without_prefix-bytes_to_hex [] h = refl
without_prefix-bytes_to_hex (byte ∷ bs) (h, hs) =
    rw (two_digits_of byte h, not_prefix (byte % 16) (omega arith)) (ground arith)

-- The hexadecimal text that bytesToHex writes of bytes below 256 is read back to them by
-- hexToBytes.
pub hex_to_bytes-bytes_to_hex :
    (bs : List ℕ) → All (λ b. b < 256) bs → hex_to_bytes (bytes_to_hex bs) ≡ ok bs
unfolding hex_to_bytes
hex_to_bytes-bytes_to_hex bs h =
    ap from_pairs
      (ap parse_pairs (without_prefix-bytes_to_hex bs h) ∙ parse_pairs-bytes_to_hex bs h)

-- The same behind a prefix.
pub hex_to_bytes-prefixed :
    (bs : List ℕ) → All (λ b. b < 256) bs → hex_to_bytes (b'0' ∷ b'x' ∷ bytes_to_hex bs) ≡ ok bs
unfolding hex_to_bytes without_prefix
hex_to_bytes-prefixed bs h = ap from_pairs (parse_pairs-bytes_to_hex bs h)
