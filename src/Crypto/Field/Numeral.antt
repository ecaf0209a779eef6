-- ===== src/Crypto/Field/Numeral.antt =====
-- crypto/field.ts, `fromHex`, over texts as lists of code points.
use lumengate.Prelude.{
  ℕ, zero, suc, ◌+◌, ◌-◌, ◌*◌, ◌/◌, ◌%◌, ◌≤◌, ◌<◌, ◌≡◌, refl, sym, ap, ◌∙◌, inl, inr, Bool, true,
  false, ◌&&◌, Option, none, some, List, [], ◌∷◌, ◌++◌, arith, ltb, if◌then◌else◌, ltb→lt,
  Bool-cases, length, replicate, length-append, All, All-append, pos_part, eq-pos, ℤ, pos,
}
use lumengate.Prelude.Result.{Result, ok, err, bad_bigint, err}
use lumengate.Crypto.Field.{digits_16, hex_digit, fr_mod, to_hex_32}
use lumengate.Crypto.Field.Reduce.{fr_mod-IsCanonical}
use lumengate.Crypto.Field.Hex.{is_space, digit_value, without_prefix, digit_value-hex_digit}

abbrev pub is_empty : List ℕ → Bool
is_empty [] = true
is_empty (c ∷ s) = false

-- `BigInt` drops white space behind the digits.
unfoldable pub trim_end : List ℕ → List ℕ
trim_end [] = []
trim_end (c ∷ s) = let rest = trim_end s in if is_space c && is_empty rest then [] else c ∷ rest

-- The value of digits, from the first.
unfoldable pub read_16 : ℕ → List ℕ → Option ℕ
read_16 v [] = some v
read_16 v (c ∷ s) = elim (digit_value c) [ none ↦ none | some d ↦ read_16 (v * 16 + d) s ]

abbrev pub digits_value : List ℕ → Result ℤ
digits_value [] = err bad_bigint
digits_value (c ∷ s) = elim (read_16 0 (c ∷ s)) [ none ↦ err bad_bigint | some v ↦ ok (pos v) ]

unfoldable pub from_hex : List ℕ → Result ℤ
unfolding trim_end read_16
from_hex h = digits_value (trim_end (without_prefix h))

-- A character that is a digit.
abbrev pub IsDigit16 : ℕ → Type 0
IsDigit16 c = (d : ℕ) × (c ≡ hex_digit d) × (d < 16)

not_space : (d : ℕ) → d < 16 → is_space (hex_digit d) ≡ false
not_space d h = ground arith

-- No white space.
abbrev pub IsPlain : ℕ → Type 0
IsPlain c = is_space c ≡ false

pub trim_end_of_plain : (s : List ℕ) → All IsPlain s → trim_end s ≡ s
unfolding trim_end
trim_end_of_plain [] h = refl
trim_end_of_plain (c ∷ s) (p, h) = rw p (ap (λ t. c ∷ t) (trim_end_of_plain s h))

pub All-IsPlain : (s : List ℕ) → All IsDigit16 s → All IsPlain s
All-IsPlain [] h = tt
All-IsPlain (c ∷ s) ((d, e, small), h) = (ap is_space e ∙ not_space d small, All-IsPlain s h)

pub read_16-digit :
    (v d : ℕ) (s : List ℕ) → d < 16 → read_16 v (hex_digit d ∷ s) ≡ read_16 (v * 16 + d) s
unfolding read_16
read_16-digit v d s h =
    ap (λ o. elim o as (λ _. Option ℕ) [ none ↦ none | some d' ↦ read_16 (v * 16 + d') s ])
      (digit_value-hex_digit d h)

pub digits_16-All :
    (fuel n : ℕ) (acc : List ℕ) → All IsDigit16 acc → All IsDigit16 (digits_16 fuel n acc)
unfolding digits_16
digits_16-All zero n acc h = h
digits_16-All (suc fuel) n acc h = elim (Bool-cases (ltb n 16)) [
  | inl small ↦ rw small ((n, refl, ltb→lt n 16 small), h)
  | inr large ↦
      rw large
        (digits_16-All fuel (n / 16) (hex_digit (n % 16) ∷ acc) ((n % 16, refl, omega arith), h))
]

pub read_16-digits_16 :
    (fuel n : ℕ) (acc : List ℕ) → n < fuel → read_16 0 (digits_16 fuel n acc) ≡ read_16 n acc
unfolding digits_16
read_16-digits_16 zero n acc h = absurd (omega arith)
read_16-digits_16 (suc fuel) n acc h = elim (Bool-cases (ltb n 16)) [
  | inl small ↦
      let e : 0 * 16 + n ≡ n = omega arith in
      rw small (read_16-digit 0 n acc (ltb→lt n 16 small) ∙ ap (λ k. read_16 k acc) e)
  | inr large ↦
      let ge : 16 ≤ n = ground arith in
      let e : n / 16 * 16 + n % 16 ≡ n = omega arith in
      rw large (
        read_16-digits_16 fuel (n / 16) (hex_digit (n % 16) ∷ acc) (omega arith)
        ∙ read_16-digit (n / 16) (n % 16) acc (omega arith)
        ∙ ap (λ k. read_16 k acc) e)
]

pub length-digits_16 :
    (fuel n : ℕ) (acc : List ℕ) → n < fuel → length acc < length (digits_16 fuel n acc)
unfolding digits_16
length-digits_16 zero n acc h = absurd (omega arith)
length-digits_16 (suc fuel) n acc h = elim (Bool-cases (ltb n 16)) [
  | inl small ↦ rw small (omega arith)
  | inr large ↦
      let ge : 16 ≤ n = ground arith in
      let longer = length-digits_16 fuel (n / 16) (hex_digit (n % 16) ∷ acc) (omega arith) in
      rw large (omega arith)
]

pub read_16-zeros : (k : ℕ) (s : List ℕ) → read_16 0 (replicate k b'0' ++ s) ≡ read_16 0 s
read_16-zeros zero s = refl
read_16-zeros (suc k) s =
    read_16-digit 0 0 (replicate k b'0' ++ s) (omega arith) ∙ read_16-zeros k s

pub replicate-All : (k : ℕ) → All IsDigit16 (replicate k b'0')
replicate-All zero = tt
replicate-All (suc k) = ((0, refl, omega arith), replicate-All k)

pub digits_value-some :
    (s : List ℕ) (v : ℕ) → 0 < length s → read_16 0 s ≡ some v → digits_value s ≡ ok (pos v)
digits_value-some [] v p h = absurd (omega arith)
digits_value-some (c ∷ s) v p h =
    ap (λ o. elim o as (λ _. Result ℤ) [ none ↦ err bad_bigint | some w ↦ ok (pos w) ]) h

-- fromHex reads from the text that toHex32 writes of a value that value modulo r.
pub from_hex-to_hex_32 : (x : ℤ) → from_hex (to_hex_32 x) ≡ ok (fr_mod x)
unfolding from_hex to_hex_32 without_prefix
from_hex-to_hex_32 x =
    let n = pos_part (fr_mod x) in
    let text = digits_16 (suc n) n [] in
    let zeros : List ℕ = replicate (64 - length text) b'0' in
    let digits : All IsDigit16 (zeros ++ text) =
      All-append IsDigit16 zeros text (replicate-All _) (digits_16-All (suc n) n [] tt) in
    let value : read_16 0 (zeros ++ text) ≡ some n =
      read_16-zeros (64 - length text) text
      ∙ read_16-digits_16 (suc n) n [] (omega arith)
      ∙ (unfold read_16 in refl) in
    let long : 0 < length (zeros ++ text) =
      omega (arith, length-append zeros text, length-digits_16 (suc n) n [] (omega arith)) in
    rw (trim_end_of_plain (zeros ++ text) (All-IsPlain (zeros ++ text) digits)) (
      digits_value-some (zeros ++ text) n long value
      ∙ ap ok (sym (eq-pos (fr_mod x) (fr_mod-IsCanonical x).0)))
