-- ===== src/Product/Amount.antt =====
-- assetAmount.ts, and `formatConfidentialAmount` of confidentialBalance.ts. Texts are lists of code
-- points.
pub mod RoundTrip
use lumengate.Prelude.{
  ℕ, zero, suc, ◌+◌, ◌-◌, ◌*◌, ◌/◌, ◌%◌, Bool, not, ◌&&◌, List, [], ◌∷◌, ◌++◌, ltb, leb, ◌==◌,
  if◌then◌else◌, length, replicate, ltb_ℤ, leb_ℤ, ℤ, pos, negsuc,
}
use lumengate.Prelude.Result.{Result, ok, err, ◌>>=◌, invalid_amount, too_many_decimals}
use lumengate.Crypto.Field.{pad_start}
use lumengate.Crypto.Field.Hex.{is_space}
use lumengate.Crypto.Field.Numeral.{is_empty, trim_end}

-- 10n ** BigInt(decimals).
unfoldable pub power_10 : ℕ → ℕ
power_10 zero = 1
power_10 (suc n) = power_10 n * 10

unfoldable pub trim_start : List ℕ → List ℕ
trim_start [] = []
trim_start (c ∷ s) = let rest = trim_start s in if is_space c then rest else c ∷ s

abbrev pub is_digit : ℕ → Bool
is_digit c = leb b'0' c && leb c b'9'

-- The digits at the start, and what follows them.
unfoldable pub span_digits : List ℕ → List ℕ × List ℕ
span_digits [] = ([], [])
span_digits (c ∷ s) =
    let rest = span_digits s in if is_digit c then (c ∷ rest.0, rest.1) else ([], c ∷ s)

-- `BigInt` of decimal digits.
unfoldable pub read_10 : ℕ → List ℕ → ℕ
read_10 v [] = v
read_10 v (c ∷ s) = read_10 (v * 10 + (c - b'0')) s

-- What follows the whole part in /^\d+(\.\d+)?$/: the digits behind the point.
unfoldable pub fraction : List ℕ → Result (List ℕ)
unfolding span_digits
fraction [] = ok []
fraction (c ∷ s) =
    let digits = span_digits s in
    if c == b'.' && not (is_empty digits.0) && is_empty digits.1
    then ok digits.0
    else err invalid_amount

abbrev pub pad_end : ℕ → ℕ → List ℕ → List ℕ
pad_end width c s = s ++ replicate (width - length s) c

-- `padded || "0"` reads as 0 where it is empty, as no digits do.
unfoldable pub parse_stellar_amount : List ℕ → ℕ → Result ℤ
unfolding trim_start span_digits fraction read_10 power_10
parse_stellar_amount amount decimals = do
  let split = span_digits (trim_end (trim_start amount))
  frac ← if is_empty split.0 then err invalid_amount else fraction split.1
  if ltb decimals (length frac)
      then err too_many_decimals
      else ok (pos (read_10 0 split.0 * power_10 decimals + read_10 0 (pad_end decimals b'0' frac)))

-- `toString()`, digit by digit from the last; n + 1 rounds are enough.
unfoldable pub digits_10 : ℕ → ℕ → List ℕ → List ℕ
digits_10 zero n acc = acc
digits_10 (suc fuel) n acc =
    let rest = digits_10 fuel (n / 10) ((b'0' + n % 10) ∷ acc) in
    if ltb n 10 then (b'0' + n) ∷ acc else rest

abbrev pub to_string : ℕ → List ℕ
to_string n = digits_10 (suc n) n []

-- `replace(/0+$/, "")`.
unfoldable pub strip_zeros : List ℕ → List ℕ
strip_zeros [] = []
strip_zeros (c ∷ s) =
    let rest = strip_zeros s in if c == b'0' && is_empty rest then [] else c ∷ rest

abbrev pub with_point : List ℕ → List ℕ → List ℕ
with_point whole [] = whole
with_point whole (c ∷ frac) = whole ++ b'.' ∷ c ∷ frac

abbrev pub format_natural : ℕ → ℕ → List ℕ
format_natural raw decimals =
    let base = power_10 decimals in
    with_point (to_string (raw / base))
      (strip_zeros (pad_start decimals b'0' (to_string (raw % base))))

unfoldable pub format_stellar_amount : ℤ → ℕ → List ℕ
unfolding power_10 digits_10 strip_zeros
format_stellar_amount (pos raw) decimals = format_natural raw decimals
format_stellar_amount (negsuc n) decimals = b'0' ∷ []

unfoldable pub format_confidential_amount : ℤ → ℕ → List ℕ
unfolding power_10 digits_10 strip_zeros
format_confidential_amount (pos raw) decimals = format_natural raw decimals
format_confidential_amount (negsuc n) decimals = b'-' ∷ format_natural (suc n) decimals

unfoldable pub has_sufficient_balance : ℤ → ℤ → Bool
has_sufficient_balance balance_raw amount_raw =
    leb_ℤ amount_raw balance_raw && ltb_ℤ (pos 0) amount_raw
