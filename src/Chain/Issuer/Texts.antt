-- ===== src/Chain/Issuer/Texts.antt =====
-- What the client reads of the texts that the service writes of a transfer.
use lumengate.Prelude.{
  ℕ, zero, suc, ◌+◌, ◌*◌, ◌≡◌, refl, sym, ◌∙◌, inl, inr, Bool, true, false, ◌&&◌, Option, none,
  some, List, [], ◌∷◌, arith, if◌then◌else◌, ==_iff, Bool-cases, take, drop, eqb_ℤ, ℤ, pos,
}
use lumengate.Prelude.Result.{Error, Result, ok, err, ◌>>=◌, odd_length_hex, err}
use lumengate.Product.Amount.RoundTrip.{and-true}
use lumengate.Crypto.Field.{from_bytes_be, to_string_16, read_be}
use lumengate.Crypto.Field.Hex.{without_prefix}
use lumengate.Crypto.Field.Pairs.{is_paired, of_digits-to_string_16}
use lumengate.Crypto.Grumpkin.{Curve, from_affine, all_zero}
use lumengate.Chain.Events.{ConfidentialEvent}
use lumengate.Chain.IssuerRows.{big_hex, hex_point}
use lumengate.Chain.Issuer.{parse_hex_field, parse_hex_point, affine_or_zero, or_null}

-- The number that bytes encode, and whether the service prints it with an even number of digits.
abbrev pub number_of : List ℕ → ℕ
number_of b = read_be 0 b

abbrev pub is_even_text : List ℕ → Bool
is_even_text b = is_paired (to_string_16 (number_of b))

-- The bytes of a transfer's data.
pub record TransferBytes : Type 0 where
  pub r_e : List ℕ
  pub v_tilde : List ℕ
  pub sigma : List ℕ
  pub b_tilde : List ℕ
  pub v_aud_r : List ℕ
  pub r_aud_r : List ℕ
  pub v_aud_s : List ℕ
  pub b_aud_s : List ℕ

-- All of the service's texts have an even number of digits.
abbrev pub is_readable : TransferBytes → Bool
is_readable b =
    (is_even_text (take 32 b.r_e) && is_even_text (drop 32 b.r_e))
    && (is_even_text b.v_tilde
        && (is_even_text b.sigma
            && (is_even_text b.b_tilde
                && (is_even_text b.v_aud_r
                    && (is_even_text b.r_aud_r
                        && (is_even_text b.v_aud_s && (is_even_text b.b_aud_s && true)))))))

pub parse_hex_field-big_hex :
    (b : List ℕ)
    → parse_hex_field (some (big_hex (from_bytes_be b)))
      ≡ (if is_even_text b then ok (from_bytes_be b) else err odd_length_hex)
unfolding parse_hex_field from_bytes_be without_prefix
parse_hex_field-big_hex b = of_digits-to_string_16 (number_of b)

all_zero-read_be : (v : ℕ) (s : List ℕ) → read_be v s ≡ 0 → (v ≡ 0) × (all_zero s ≡ true)
unfolding read_be all_zero
all_zero-read_be v [] h = (h, refl)
all_zero-read_be v (byte ∷ s) h =
    let (front, rest) = all_zero-read_be (v * 256 + byte) s h in
    let last : byte ≡ 0 = omega arith in (omega arith, rw (last, rest) refl)

all_zero-halves :
    (n : ℕ) (s : List ℕ)
    → all_zero (take n s) ≡ true
    → all_zero (drop n s) ≡ true
    → all_zero s ≡ true
unfolding all_zero
all_zero-halves zero s h k = k
all_zero-halves (suc n) [] h k = refl
all_zero-halves (suc n) (c ∷ s) h k = ground (arith, all_zero-halves n s)

zero_bytes : (s : List ℕ) → eqb_ℤ (from_bytes_be s) (pos 0) ≡ true → all_zero s ≡ true
unfolding from_bytes_be
zero_bytes s h =
    let e = (==_iff (number_of s + 0) 0).0 h in (all_zero-read_be 0 s (omega (arith, e))).1

-- The bytes of a point that is not the identity are not those of (0, 0).
not_both :
    (s : List ℕ)
    → all_zero s ≡ false
    → eqb_ℤ (from_bytes_be (take 32 s)) (pos 0) && eqb_ℤ (from_bytes_be (drop 32 s)) (pos 0) ≡ false
unfolding from_bytes_be
not_both s h =
    let x = eqb_ℤ (from_bytes_be (take 32 s)) (pos 0) in
    let y = eqb_ℤ (from_bytes_be (drop 32 s)) (pos 0) in
    elim (Bool-cases (x && y)) [
      | inl both ↦
          let (zx, zy) = and-true x y both in
          let e : true ≡ false =
            sym (all_zero-halves 32 s (zero_bytes (take 32 s) zx) (zero_bytes (drop 32 s) zy))
            ∙ h in
          cc
      | inr neither ↦ neither
    ]

module _ {Point : Type 0} where
  -- A field that cannot be read makes the row no event.
  pub or_null-guard :
      {A : Type 0} (even readable : Bool) (a : A) (e : Error)
      (next : A → Result (Option (ConfidentialEvent Point))) (ev : ConfidentialEvent Point)
      → or_null (next a) ≡ (if readable then some ev else none)
      → or_null ((if even then ok a else err e) >>= next)
        ≡ (if even && readable then some ev else none)
  or_null-guard true readable a e next ev h = h
  or_null-guard false readable a e next ev h = refl

module _ {Point : Type 0} ⦃C : Curve Point⦄ where
  coordinates :
      (even_x even_y : Bool) (x y : ℤ) (p : Point)
      → affine_or_zero (x, y) ≡ ok p
      → (if even_x then ok x else err odd_length_hex) >>= (λ x'.
          (if even_y then ok y else err odd_length_hex) >>= (λ y'. affine_or_zero (x', y')))
        ≡ (if even_x && even_y then ok p else err odd_length_hex)
  coordinates true true x y p h = h
  coordinates true false x y p h = refl
  coordinates false even_y x y p h = refl

  pub parse_hex_point-hex_point :
      (b : List ℕ) (p : Point)
      → all_zero b ≡ false
      → from_affine (from_bytes_be (take 32 b), from_bytes_be (drop 32 b)) ≡ ok p
      → parse_hex_point (some (hex_point b)) ≡ (
          if is_even_text (take 32 b) && is_even_text (drop 32 b) then ok p else err odd_length_hex)
  unfolding parse_hex_point
  parse_hex_point-hex_point b p finite on = rw finite (
      rw (parse_hex_field-big_hex (take 32 b), parse_hex_field-big_hex (drop 32 b))
        (coordinates (is_even_text (take 32 b)) (is_even_text (drop 32 b)) _ _ p
          (rw (not_both b finite) on)))
