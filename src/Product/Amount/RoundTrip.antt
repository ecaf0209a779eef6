-- ===== src/Product/Amount/RoundTrip.antt =====
-- The amount that is read back from a printed amount.
use lumengate.Prelude.{
  ℕ, zero, suc, ◌+◌, ◌-◌, ◌*◌, ◌/◌, ◌%◌, ◌≤◌, ◌<◌, ◌≡◌, refl, sym, ap, ◌∙◌, inl, inr, Bool, true,
  false, ◌&&◌, List, [], ◌∷◌, ◌++◌, arith, ltb, ◌==◌, ==_iff, Bool-cases, length, replicate,
  length-replicate, length-append, All, All-append, pos,
}
use lumengate.Prelude.Result.{ok}
use mathlib.Core.Path.{ap₂}
use lumengate.Crypto.Field.{pad_start}
use lumengate.Crypto.Field.Hex.{is_space}
use lumengate.Crypto.Field.Numeral.{is_empty, trim_end, IsPlain, trim_end_of_plain}
use lumengate.Product.Amount.{
  power_10, trim_start, is_digit, span_digits, read_10, fraction, pad_end, parse_stellar_amount,
  digits_10, to_string, strip_zeros, with_point, format_stellar_amount,
}

abbrev pub IsDigit : ℕ → Type 0
IsDigit c = is_digit c ≡ true

digit_IsPlain : (c : ℕ) → IsDigit c → is_space c ≡ false
digit_IsPlain c h = ground arith

trim_start_of_plain : (s : List ℕ) → All IsPlain s → trim_start s ≡ s
unfolding trim_start
trim_start_of_plain [] h = refl
trim_start_of_plain (c ∷ s) (p, h) = rw p refl

digits_10-All : (fuel n : ℕ) (acc : List ℕ) → All IsDigit acc → All IsDigit (digits_10 fuel n acc)
unfolding digits_10
digits_10-All zero n acc h = h
digits_10-All (suc fuel) n acc h = elim (Bool-cases (ltb n 10)) [
  | inl small ↦ rw small (ground arith, h)
  | inr large ↦ rw large (digits_10-All fuel (n / 10) _ (ground arith, h))
]

read_10-digits_10 :
    (fuel n : ℕ) (acc : List ℕ) → n < fuel → read_10 0 (digits_10 fuel n acc) ≡ read_10 n acc
unfolding digits_10 read_10
read_10-digits_10 zero n acc h = absurd (omega arith)
read_10-digits_10 (suc fuel) n acc h = elim (Bool-cases (ltb n 10)) [
  | inl small ↦
      let e : 0 * 10 + (b'0' + n - b'0') ≡ n = omega arith in rw small (ap (λ k. read_10 k acc) e)
  | inr large ↦
      let ge : 10 ≤ n = ground arith in
      let e : n / 10 * 10 + (b'0' + n % 10 - b'0') ≡ n = omega arith in
      rw large (
        read_10-digits_10 fuel (n / 10) ((b'0' + n % 10) ∷ acc) (omega arith)
        ∙ ap (λ k. read_10 k acc) e)
]

pub digits_10-longer :
    (fuel n : ℕ) (acc : List ℕ) → n < fuel → length acc < length (digits_10 fuel n acc)
unfolding digits_10
digits_10-longer zero n acc h = absurd (omega arith)
digits_10-longer (suc fuel) n acc h = elim (Bool-cases (ltb n 10)) [
  | inl small ↦ rw small (omega arith)
  | inr large ↦
      let ge : 10 ≤ n = ground arith in
      let longer = digits_10-longer fuel (n / 10) ((b'0' + n % 10) ∷ acc) (omega arith) in
      rw large (omega arith)
]

-- A number of at most k + 1 digits.
length-digits_10 :
    (fuel n k : ℕ) (acc : List ℕ)
    → n < fuel
    → n < power_10 (suc k)
    → length (digits_10 fuel n acc) ≤ suc k + length acc
unfolding digits_10 power_10
length-digits_10 zero n k acc h fits = absurd (omega arith)
length-digits_10 (suc fuel) n zero acc h fits =
    let small : ltb n 10 ≡ true = ground arith in rw small (omega arith)
length-digits_10 (suc fuel) n (suc k) acc h fits = elim (Bool-cases (ltb n 10)) [
  | inl small ↦ rw small (omega arith)
  | inr large ↦
      let ge : 10 ≤ n = ground arith in
      let shorter =
        length-digits_10 fuel (n / 10) k ((b'0' + n % 10) ∷ acc) (omega arith) (omega arith) in
      rw large (omega arith)
]

read_10-zeros : (k : ℕ) (s : List ℕ) → read_10 0 (replicate k b'0' ++ s) ≡ read_10 0 s
unfolding read_10
read_10-zeros zero s = refl
read_10-zeros (suc k) s = read_10-zeros k s

is_empty→eq : (s : List ℕ) → is_empty s ≡ true → s ≡ []
is_empty→eq [] h = refl
is_empty→eq (c ∷ s) h = cc

-- What was stripped are zeros.
record Stripped (s : List ℕ) : Type 0 where
  k : ℕ
  split : strip_zeros s ++ replicate k b'0' ≡ s
  sizes : length (strip_zeros s) + k ≡ length s

pub and-true : (a b : Bool) → a && b ≡ true → (a ≡ true) × (b ≡ true)
and-true true true h = (refl, refl)
and-true true false h = cc
and-true false b h = cc

strip_zeros-Stripped : (s : List ℕ) → Stripped s
unfolding strip_zeros
strip_zeros-Stripped [] = record { k = 0; split = refl; sizes = omega arith }
strip_zeros-Stripped (c ∷ s) =
    let rest = strip_zeros-Stripped s in
    elim (Bool-cases (c == b'0' && is_empty (strip_zeros s))) [
      | inl y ↦
          let (zero_c, empty) = and-true (c == b'0') (is_empty (strip_zeros s)) y in
          let none_left = is_empty→eq (strip_zeros s) empty in
          let zeros : replicate rest.k b'0' ≡ s = rw none_left at rest.split in
          let sizes : length {A = ℕ} [] + rest.k ≡ length s = rw none_left at rest.sizes in
          record {
            k = suc rest.k;
            split = rw y (ap₂ (λ d t. d ∷ t) (sym ((==_iff c b'0').0 zero_c)) zeros);
            sizes = rw y (omega arith);
          }
      | inr n ↦ record {
        k = rest.k;
        split = rw n (ap (λ t. c ∷ t) rest.split);
        sizes = rw n (omega (arith, rest.sizes));
      }
    ]

strip_zeros-All : (s : List ℕ) → All IsDigit s → All IsDigit (strip_zeros s)
unfolding strip_zeros
strip_zeros-All [] h = tt
strip_zeros-All (c ∷ s) (p, h) = elim (Bool-cases (c == b'0' && is_empty (strip_zeros s))) [
  | inl y ↦ rw y tt
  | inr n ↦ rw n (p, strip_zeros-All s h)
]

pub span_digits-All : (s : List ℕ) → All IsDigit s → span_digits s ≡ (s, [])
unfolding span_digits
span_digits-All [] h = refl
span_digits-All (c ∷ s) (p, h) = rw (p, span_digits-All s h) refl

span_digits-point : (s t : List ℕ) → All IsDigit s → span_digits (s ++ b'.' ∷ t) ≡ (s, b'.' ∷ t)
unfolding span_digits
span_digits-point [] t h = refl
span_digits-point (c ∷ s) t (p, h) = rw (p, span_digits-point s t h) refl

pub is_empty_of_length : (s : List ℕ) → 0 < length s → is_empty s ≡ false
is_empty_of_length [] h = absurd (omega arith)
is_empty_of_length (c ∷ s) h = refl

pub All-digit_IsPlain : (s : List ℕ) → All IsDigit s → All IsPlain s
All-digit_IsPlain [] h = tt
All-digit_IsPlain (c ∷ s) (p, h) = (digit_IsPlain c p, All-digit_IsPlain s h)

pub trimmed : (s : List ℕ) → All IsPlain s → trim_end (trim_start s) ≡ s
trimmed s h = ap trim_end (trim_start_of_plain s h) ∙ trim_end_of_plain s h

-- A whole part and a fraction of digits, behind one another.
parse-with_point :
    (whole frac : List ℕ) (d : ℕ)
    → All IsDigit whole
    → 0 < length whole
    → All IsDigit frac
    → length frac ≤ d
    → parse_stellar_amount (with_point whole frac) d
      ≡ ok (pos (read_10 0 whole * power_10 d + read_10 0 (pad_end d b'0' frac)))
unfolding parse_stellar_amount fraction
parse-with_point whole [] d hw long hf fits =
    let fits' : ltb d 0 ≡ false = ground arith in
    rw
      (
        trimmed whole (All-digit_IsPlain whole hw),
        span_digits-All whole hw,
        is_empty_of_length whole long,
      )
      (rw fits' refl)
parse-with_point whole (c ∷ frac) d hw long hf fits =
    let fits' : ltb d (suc (length frac)) ≡ false = ground arith in
    let plain =
      All-append IsPlain whole (b'.' ∷ c ∷ frac) (All-digit_IsPlain whole hw)
        (refl, All-digit_IsPlain (c ∷ frac) hf) in
    rw
      (
        trimmed (whole ++ b'.' ∷ c ∷ frac) plain,
        span_digits-point whole (c ∷ frac) hw,
        is_empty_of_length whole long,
        span_digits-All (c ∷ frac) hf,
      )
      (rw fits' refl)

power_10-positive : (d : ℕ) → 0 < power_10 d
unfolding power_10
power_10-positive zero = omega arith
power_10-positive (suc d) = omega (arith, power_10-positive d)

pub to_string-All : (n : ℕ) → All IsDigit (to_string n)
to_string-All n = digits_10-All (suc n) n [] tt

pub read_10-to_string : (n : ℕ) → read_10 0 (to_string n) ≡ n
read_10-to_string n = read_10-digits_10 (suc n) n [] (omega arith) ∙ (unfold read_10 in refl)

zeros-All : (k : ℕ) → All IsDigit (replicate k b'0')
zeros-All zero = tt
zeros-All (suc k) = (refl, zeros-All k)

-- The fraction padded to its width.
abbrev padded : ℕ → ℕ → List ℕ
padded m d = pad_start d b'0' (to_string m)

padded-length : (m d : ℕ) → m < power_10 (suc d) → length (padded m (suc d)) ≡ suc d
padded-length m d h =
    let short = length-digits_10 (suc m) m d [] (omega arith) h in
    let k = suc d - length (to_string m) in
    omega (arith, length-append (replicate k b'0') (to_string m), length-replicate {A = ℕ} k b'0')

fraction-value :
    (m d : ℕ) → m < power_10 d → read_10 0 (pad_end d b'0' (strip_zeros (padded m d))) ≡ m
unfolding strip_zeros digits_10 read_10 power_10
fraction-value zero zero h = refl
fraction-value (suc m) zero h = absurd (omega arith)
fraction-value m (suc d) h =
    let parts = strip_zeros-Stripped (padded m (suc d)) in
    let left : suc d - length (strip_zeros (padded m (suc d))) ≡ parts.k =
      omega (arith, parts.sizes, padded-length m d h) in
    rw left (
      ap (read_10 0) parts.split
      ∙ read_10-zeros (suc d - length (to_string m)) (to_string m)
      ∙ read_10-to_string m)

padded-All : (m d : ℕ) → All IsDigit (padded m d)
padded-All m d = All-append IsDigit (replicate _ b'0') (to_string m) (zeros-All _) (to_string-All m)

padded-short : (m d : ℕ) → m < power_10 d → length (strip_zeros (padded m d)) ≤ d
unfolding strip_zeros digits_10 power_10
padded-short zero zero h = omega arith
padded-short (suc m) zero h = absurd (omega arith)
padded-short m (suc d) h =
    omega (arith, (strip_zeros-Stripped (padded m (suc d))).sizes, padded-length m d h)

-- An amount that is not negative is read back by parseStellarAmount from the text that
-- formatStellarAmount prints of it, at every number of decimals.
pub parse_stellar_amount-format_stellar_amount :
    (raw decimals : ℕ)
    → parse_stellar_amount (format_stellar_amount (pos raw) decimals) decimals ≡ ok (pos raw)
unfolding format_stellar_amount
parse_stellar_amount-format_stellar_amount raw decimals =
    let base = power_10 decimals in
    let whole = raw / base in
    let rest = raw % base in
    let positive = power_10-positive decimals in
    let small : rest < base = omega arith in
    let frac = strip_zeros (padded rest decimals) in
    let sum : whole * base + rest ≡ raw = omega arith in
    parse-with_point (to_string whole) frac decimals (to_string-All whole)
      (digits_10-longer (suc whole) whole [] (omega arith))
      (strip_zeros-All (padded rest decimals) (padded-All rest decimals))
      (padded-short rest decimals small)
    ∙ ap (λ v. ok (pos v))
        (ap₂ (λ a b. a * base + b) (read_10-to_string whole) (fraction-value rest decimals small)
          ∙ sum)
