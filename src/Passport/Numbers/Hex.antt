-- ===== src/Passport/Numbers/Hex.antt =====
-- `BigInt` on the hexadecimal texts that the code writes.
use lumengate.Prelude.{
  ℕ, suc, ◌-◌, ◌≡◌, refl, ap, ◌∙◌, some, List, [], ◌∷◌, ◌++◌, arith, length, replicate, All,
  All-append, pos_part, ℤ, pos,
}
use lumengate.Prelude.Result.{ok}
use lumengate.Crypto.Field.{fr_mod, to_string_16, to_hex_32}
use lumengate.Crypto.Field.Hex.{without_prefix}
use lumengate.Crypto.Field.Numeral.{
  read_16, digits_value, from_hex, IsDigit16, trim_end_of_plain, All-IsPlain, digits_16-All,
  read_16-digits_16, length-digits_16, replicate-All, digits_value-some, from_hex-to_hex_32,
}
use lumengate.Product.Amount.RoundTrip.{trimmed}
use lumengate.Passport.Numbers.{numeral, to_big_int}

-- Digits behind the prefix are read as `fromHex` reads them.
to_big_int-prefixed :
    (s : List ℕ) → All IsDigit16 s → to_big_int (b'0' ∷ b'x' ∷ s) ≡ from_hex (b'0' ∷ b'x' ∷ s)
unfolding to_big_int numeral
to_big_int-prefixed s h = ap numeral (trimmed (b'0' ∷ b'x' ∷ s) (refl, (refl, All-IsPlain s h)))

pub to_big_int-to_string_16 : (n : ℕ) → to_big_int (b'0' ∷ b'x' ∷ to_string_16 n) ≡ ok (pos n)
unfolding from_hex without_prefix
to_big_int-to_string_16 n =
    let digits = digits_16-All (suc n) n [] tt in
    let printed : read_16 n [] ≡ some n = unfold read_16 in refl in
    to_big_int-prefixed (to_string_16 n) digits
    ∙ ap digits_value (trim_end_of_plain (to_string_16 n) (All-IsPlain (to_string_16 n) digits))
    ∙ digits_value-some (to_string_16 n) n (length-digits_16 (suc n) n [] (omega arith))
        (read_16-digits_16 (suc n) n [] (omega arith) ∙ printed)

pub to_big_int-to_hex_32 : (x : ℤ) → to_big_int (to_hex_32 x) ≡ ok (fr_mod x)
unfolding to_hex_32
to_big_int-to_hex_32 x =
    let n = pos_part (fr_mod x) in
    let zeros : List ℕ = replicate (64 - length (to_string_16 n)) b'0' in
    to_big_int-prefixed (zeros ++ to_string_16 n) (
      All-append IsDigit16 zeros (to_string_16 n) (replicate-All _) (digits_16-All (suc n) n [] tt))
    ∙ from_hex-to_hex_32 x
