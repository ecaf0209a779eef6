-- ===== src/Crypto/Field/Pairs.antt =====
-- `hexToBytes` on the text that `toString(16)` prints of a number, which has no leading zeros.
use lumengate.Prelude.{
  ℕ, suc, ◌+◌, ◌*◌, ◌≡◌, refl, sym, ap, ◌∙◌, inl, inr, Bool, true, false, ◌||◌, none, some, List,
  [], ◌∷◌, arith, ◌==◌, if◌then◌else◌, Bool-cases, All, ℤ, pos,
}
use lumengate.Prelude.Result.{Result, ok, err, ◌>>=◌, odd_length_hex, err}
use mathlib.Core.Path.{ap₂}
use lumengate.Crypto.Field.{hex_digit, to_string_16, read_be, from_bytes_be}
use lumengate.Crypto.Field.Hex.{
  parse_pair, parse_pairs, without_prefix, hex_to_bytes, parse_pair-hex_digit, not_prefix,
}
use lumengate.Crypto.Field.Numeral.{
  read_16, IsDigit16, read_16-digit, digits_16-All, read_16-digits_16,
}

-- An even number of characters.
unfoldable pub is_paired : List ℕ → Bool
is_paired [] = true
is_paired (c ∷ []) = false
is_paired (c ∷ c' ∷ s) = is_paired s

parse_pairs-unpaired : (s : List ℕ) → is_paired s ≡ false → parse_pairs s ≡ none
unfolding is_paired parse_pairs
parse_pairs-unpaired [] h = cc
parse_pairs-unpaired (c ∷ []) h = refl
parse_pairs-unpaired (c ∷ c' ∷ s) h = rw (parse_pairs-unpaired s h) refl

-- The bytes of paired digits have the value of the digits.
parse_pairs-paired :
    (v : ℕ) (s : List ℕ)
    → All IsDigit16 s
    → is_paired s ≡ true
    → (bytes : List ℕ) × (parse_pairs s ≡ some bytes) × (read_16 v s ≡ some (read_be v bytes))
unfolding is_paired parse_pairs read_be
parse_pairs-paired v [] h even = ([], refl, (unfold read_16 in refl))
parse_pairs-paired v (c ∷ []) h even = cc
parse_pairs-paired v (c ∷ c' ∷ s) ((a, e, ha), ((b, e', hb), h)) even =
    let (bytes, parsed, value) = parse_pairs-paired (v * 256 + (a * 16 + b)) s h even in
    let byte = ap₂ parse_pair e e' ∙ parse_pair-hex_digit a b ha hb in
    let shift : (v * 16 + a) * 16 + b ≡ v * 256 + (a * 16 + b) = omega arith in
    (
      (a * 16 + b) ∷ bytes,
      rw parsed (ap (λ x. some (x ∷ bytes)) byte),
      ap₂ (λ x y. read_16 v (x ∷ y ∷ s)) e e'
          ∙ read_16-digit v a (hex_digit b ∷ s) ha
          ∙ read_16-digit (v * 16 + a) b s hb
          ∙ ap (λ x. read_16 x s) shift
          ∙ value,
    )

without_prefix-digits : (s : List ℕ) → All IsDigit16 s → without_prefix s ≡ s
unfolding without_prefix
without_prefix-digits [] h = refl
without_prefix-digits (c ∷ []) h = refl
without_prefix-digits (c ∷ c' ∷ s) (_, ((d, e, small), h)) =
    let no : (c' == b'x') || (c' == b'X') ≡ false =
      ap (λ k. (k == b'x') || (k == b'X')) e ∙ not_prefix d small in
    rw no (ground arith)

some_inj : {a b : ℕ} → some a ≡ some b → a ≡ b
some_inj e = cc

-- The number behind a text of digits.
abbrev pub of_digits : List ℕ → Result ℤ
of_digits hex = do b ← hex_to_bytes hex; ok (from_bytes_be b)

pub of_digits-to_string_16 :
    (n : ℕ)
    → of_digits (to_string_16 n)
      ≡ (if is_paired (to_string_16 n) then ok (pos n) else err odd_length_hex)
unfolding hex_to_bytes from_bytes_be
of_digits-to_string_16 n =
    let text = to_string_16 n in
    let digits = digits_16-All (suc n) n [] tt in
    let plain = without_prefix-digits text digits in
    elim (Bool-cases (is_paired text)) [
      | inl y ↦
          let (bytes, parsed, value) = parse_pairs-paired 0 text digits y in
          let is_n = read_16-digits_16 (suc n) n [] (omega arith) in
          let printed : read_16 n [] ≡ some n = unfold read_16 in refl in
          let same : read_be 0 bytes ≡ n = some_inj (sym value ∙ is_n ∙ printed) in
          rw plain (rw parsed (rw y (ap (λ m. ok (pos m)) same)))
      | inr odd ↦ rw plain (rw (parse_pairs-unpaired text odd) (rw odd refl))
    ]
