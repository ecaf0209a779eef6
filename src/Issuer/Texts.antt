-- ===== src/Issuer/Texts.antt =====
-- The texts that the issuer writes, as they are read back, and the path of eight zeros.
use lumengate.Prelude.{
  ℕ, zero, suc, ◌+◌, ◌-◌, ◌*◌, ◌/◌, ◌%◌, ◌≤◌, ◌<◌, ◌≡◌, refl, sym, ap, ◌∙◌, inl, inr, true, false,
  some, List, [], ◌∷◌, ◌++◌, arith, ltb, lt→ltb, Bool-cases, length, replicate, take, take-append,
  length-replicate, length-append, All, All-append, ◌-ℤ◌, ℤ, int_laws, pos, negsuc,
}
use lumengate.Prelude.Result.{ok}
use mathlib.Core.Path.{ap₂}
use lumengate.Crypto.Field.{fr_modulus, hex_digit, digits_16, to_string_16, to_hex_32}
use lumengate.Crypto.Field.Reduce.{fr_mod_of_IsCanonical}
use lumengate.Crypto.Field.Hex.{without_prefix}
use lumengate.Crypto.Field.Numeral.{IsDigit16, digits_16-All, replicate-All}
use lumengate.Product.Amount.{to_string}
use lumengate.Product.Amount.RoundTrip.{
  All-digit_IsPlain, trimmed, to_string-All, read_10-to_string,
}
use lumengate.Passport.Numbers.{to_big_int, numeral, signed, decimal, negated}
use lumengate.Passport.Numbers.Hex.{to_big_int-to_hex_32}
use lumengate.Passport.Nullifier.{to_big_int-to_string, decimal-digits, length-to_string}
use lumengate.Chain.IssuerRows.{big_text}
use lumengate.Issuer.Fields.{
  field_to_bytes_32_hex, read_all, texts_of, first_eight, hash_2_fields, accumulate,
}
use lumengate.Issuer.Circuit.{climb}
use lumengate.Issuer.Prover.{to_lower_case, normalize_hex_32}

-- A number is read back from its decimal text.
pub to_big_int-big_text : (x : ℤ) → to_big_int (big_text x) ≡ ok x
unfolding to_big_int numeral signed ◌-ℤ◌
to_big_int-big_text (pos n) = to_big_int-to_string n
to_big_int-big_text (negsuc n) =
    let digits = to_string-All (suc n) in
    ap numeral
      (trimmed (b'-' ∷ to_string (suc n)) (refl, All-digit_IsPlain (to_string (suc n)) digits))
    ∙ minus (to_string (suc n))
    ∙ ap negated (decimal-digits (to_string (suc n)) digits (length-to_string (suc n)))
    ∙ ap (λ k. negated (ok (pos k))) (read_10-to_string (suc n))
    ∙ ap ok (grind int_laws)
  where
    minus : (s : List ℕ) → numeral (b'-' ∷ s) ≡ negated (decimal s)
    minus [] = refl
    minus (c ∷ s) = refl

pub read_all-texts_of : (xs : List ℤ) → read_all (texts_of xs) ≡ ok xs
unfolding read_all texts_of
read_all-texts_of [] = refl
read_all-texts_of (x ∷ xs) = rw (to_big_int-big_text x) (rw (read_all-texts_of xs) refl)

-- Sixteen to a power.
unfoldable pow_16 : ℕ → ℕ
pow_16 zero = 1
pow_16 (suc k) = 16 * pow_16 k

digits_16-short :
    (k fuel n : ℕ) (acc : List ℕ)
    → n < pow_16 (suc k)
    → length (digits_16 fuel n acc) ≤ suc k + length acc
unfolding digits_16 pow_16
digits_16-short k zero n acc h = omega arith
digits_16-short zero (suc fuel) n acc h =
    let small : ltb n 16 ≡ true = lt→ltb n 16 (omega arith) in rw small (omega arith)
digits_16-short (suc k) (suc fuel) n acc h = elim (Bool-cases (ltb n 16)) [
  | inl small ↦ rw small (omega arith)
  | inr large ↦
      let shorter = digits_16-short k fuel (n / 16) (hex_digit (n % 16) ∷ acc) (omega arith) in
      rw large (omega arith)
]

below_pow : fr_modulus ≤ pow_16 64
unfolding pow_16
below_pow = omega arith

pub length-to_string_16 : (n : ℕ) → n < fr_modulus → length (to_string_16 n) ≤ 64
length-to_string_16 n h = omega (arith, digits_16-short 63 (suc n) n [] (omega (arith, below_pow)))

-- Of a hash, nothing is cut off.
pub field_to_bytes_32_hex-canonical :
    (n : ℕ) → n < fr_modulus → field_to_bytes_32_hex (pos n) ≡ to_hex_32 (pos n)
unfolding field_to_bytes_32_hex to_hex_32
field_to_bytes_32_hex-canonical n h =
    let fits : ltb 64 (length (to_string_16 n)) ≡ false = ground (arith, length-to_string_16 n h) in
    rw (fr_mod_of_IsCanonical (pos n) (refl, h)) (rw fits refl)

pub to_big_int-field_to_bytes_32_hex :
    (n : ℕ) → n < fr_modulus → to_big_int (field_to_bytes_32_hex (pos n)) ≡ ok (pos n)
to_big_int-field_to_bytes_32_hex n h =
    ap to_big_int (field_to_bytes_32_hex-canonical n h)
    ∙ to_big_int-to_hex_32 (pos n)
    ∙ ap ok (fr_mod_of_IsCanonical (pos n) (refl, h))

-- A prefix and 64 digits in lower case, as the chain's roots are printed.
abbrev pub IsHex32 : List ℕ → Type 0
IsHex32 t = (s : List ℕ) × (t ≡ b'0' ∷ b'x' ∷ s) × (length s ≡ 64) × All IsDigit16 s

pub field_to_bytes_32_hex-IsHex32 :
    (n : ℕ) → n < fr_modulus → IsHex32 (field_to_bytes_32_hex (pos n))
unfolding field_to_bytes_32_hex
field_to_bytes_32_hex-IsHex32 n h =
    let fits : ltb 64 (length (to_string_16 n)) ≡ false = ground (arith, length-to_string_16 n h) in
    let zeros : List ℕ = replicate (64 - length (to_string_16 n)) b'0' in
    (
      zeros ++ to_string_16 n,
      rw fits refl,
      omega (
        arith,
        length-append zeros (to_string_16 n),
        length-replicate {A = ℕ} (64 - length (to_string_16 n)) b'0',
        length-to_string_16 n h,
      ),
      All-append IsDigit16 zeros (to_string_16 n) (replicate-All _) (digits_16-All (suc n) n [] tt),
    )

to_lower_case-digits : (s : List ℕ) → All IsDigit16 s → to_lower_case s ≡ s
unfolding to_lower_case
to_lower_case-digits [] h = refl
to_lower_case-digits (c ∷ s) ((d, e, small), h) =
    rw e (ap₂ (λ a t. a ∷ t) (ground arith) (to_lower_case-digits s h))

normalize_hex_32-IsHex32 :
    (s : List ℕ) → length s ≡ 64 → All IsDigit16 s → normalize_hex_32 (b'0' ∷ b'x' ∷ s) ≡ s
unfolding normalize_hex_32 without_prefix
normalize_hex_32-IsHex32 s long h = rw (to_lower_case-digits s h) (rw long refl)

pub normalize_hex_32-inj :
    (t u : List ℕ) → IsHex32 t → IsHex32 u → normalize_hex_32 t ≡ normalize_hex_32 u → t ≡ u
normalize_hex_32-inj t u (s, is_t, long, h) (s', is_u, long', h') e =
    let same : s ≡ s' =
      sym (normalize_hex_32-IsHex32 s long h)
      ∙ ap normalize_hex_32 (sym is_t)
      ∙ e
      ∙ ap normalize_hex_32 is_u
      ∙ normalize_hex_32-IsHex32 s' long' h' in
    is_t ∙ ap (λ x. b'0' ∷ b'x' ∷ x) same ∙ sym is_u

to_lower_case-IsHex32 : (t : List ℕ) → IsHex32 t → to_lower_case t ≡ t
unfolding to_lower_case
to_lower_case-IsHex32 t (s, is_t, long, h) =
    rw is_t (ap (λ x. b'0' ∷ b'x' ∷ x) (to_lower_case-digits s h))

pub to_lower_case-inj :
    (t u : List ℕ) → IsHex32 t → IsHex32 u → to_lower_case t ≡ to_lower_case u → t ≡ u
to_lower_case-inj t u h k e = sym (to_lower_case-IsHex32 t h) ∙ e ∙ to_lower_case-IsHex32 u k

length-first : (n : ℕ) (xs : List ℤ) → length (take n (xs ++ replicate (n - length xs) (pos 0))) ≡ n
length-first zero xs = refl
length-first (suc n) [] =
    let e : suc n - 0 ≡ suc n = omega arith in
    let e' : n ≡ n - 0 = omega arith in
    rw e (ap suc (ap (λ m. length (take n (replicate m (pos 0)))) e' ∙ length-first n []))
length-first (suc n) (x ∷ xs) =
    let e : suc n - suc (length xs) ≡ n - length xs = omega arith in
    rw e (ap suc (length-first n xs))

pub length-first_eight : (xs : List ℤ) → length (first_eight xs) ≡ 8
length-first_eight xs = length-first 8 xs

pub first_eight_of_length : (xs : List ℤ) → length xs ≡ 8 → first_eight xs ≡ xs
first_eight_of_length xs h = take-append xs (replicate (8 - length xs) (pos 0)) 8 h

module _ (poseidon2_hash : List ℤ → ℕ) where
  -- The path with all bits zero.
  pub climb-zeros :
      (k : ℕ) (cur : ℤ) (xs : List ℤ)
      → length xs ≡ k
      → climb poseidon2_hash cur xs (replicate k (pos 0)) ≡ some (accumulate poseidon2_hash cur xs)
  unfolding climb accumulate
  climb-zeros k cur [] h = refl
  climb-zeros zero cur (x ∷ xs) h = absurd (omega arith)
  climb-zeros (suc k) cur (x ∷ xs) h =
      climb-zeros k (hash_2_fields poseidon2_hash cur x) xs (omega (arith, h))

  -- A root is a hash.
  pub accumulate-hash :
      (cur : ℤ) (xs : List ℤ)
      → 0 < length xs
      → (ys : List ℤ) × (accumulate poseidon2_hash cur xs ≡ pos (poseidon2_hash ys))
  unfolding accumulate
  accumulate-hash cur [] h = absurd (omega arith)
  accumulate-hash cur (x ∷ []) h = (cur ∷ x ∷ [], refl)
  accumulate-hash cur (x ∷ y ∷ xs) h =
      accumulate-hash (hash_2_fields poseidon2_hash cur x) (y ∷ xs) (omega arith)
