-- ===== src/Crypto/Field/Bytes.antt =====
-- The byte encodings of values; `randomScalar`.
use lumengate.Prelude.{
  ℕ, zero, suc, ◌+◌, ◌*◌, ◌/◌, ◌%◌, ◌^◌, ◌≤◌, ◌<◌, ◌≡◌, refl, ap, ◌∙◌, some, List, [], ◌∷◌, ◌++◌,
  arith, length, All, ◌<ℤ◌, ℤ, pos, negsuc,
}
use lumengate.Prelude.Result.{ok}
use lumengate.Crypto.Field.{
  fill_be, to_bytes_32_be, read_be, from_bytes_be, IsCanonical, random_scalar,
}
use mathlib.Core.List.{append-nil}
use native.Mathlib.Nat.{zero-add}

-- 256 ^ n, by recursion.
abbrev pub radix : ℕ → ℕ
radix zero = 1
radix (suc n) = radix n * 256

read_be-fill_be :
    (n v : ℕ) (out : List ℕ) → v < radix n → read_be 0 (fill_be n v out) ≡ read_be v out
unfolding fill_be read_be
read_be-fill_be zero zero out h = refl
read_be-fill_be zero (suc v) out h = absurd (omega arith)
read_be-fill_be (suc n) v out h =
    let e : v / 256 * 256 + v % 256 ≡ v = omega arith in
    read_be-fill_be n (v / 256) ((v % 256) ∷ out) (omega arith) ∙ ap (λ w. read_be w out) e

length-fill_be : (n v : ℕ) (out : List ℕ) → length (fill_be n v out) ≡ n + length out
unfolding fill_be
length-fill_be zero v out = omega arith
length-fill_be (suc n) v out = omega (arith, length-fill_be n (v / 256) ((v % 256) ∷ out))

abbrev pub IsByte : ℕ → Type 0
IsByte b = b < 256

All-fill_be : (n v : ℕ) (out : List ℕ) → All IsByte out → All IsByte (fill_be n v out)
unfolding fill_be
All-fill_be zero v out h = h
All-fill_be (suc n) v out h = All-fill_be n (v / 256) ((v % 256) ∷ out) (omega arith, h)

fill_be-read_be :
    (bs : List ℕ) (j v : ℕ) (out : List ℕ)
    → All IsByte bs
    → fill_be (length bs + j) (read_be v bs) out ≡ fill_be j v (bs ++ out)
unfolding fill_be read_be
fill_be-read_be [] j v out h = rw zero-add refl
fill_be-read_be (b ∷ bs) j v out (p, h) =
    let q : (v * 256 + b) / 256 ≡ v = omega arith in
    let r : (v * 256 + b) % 256 ≡ b = omega arith in
    let k : suc (length bs) + j ≡ length bs + suc j = omega arith in
    rw k (fill_be-read_be bs (suc j) (v * 256 + b) out h ∙ (rw (q, r) refl))

read_be-lt : (bs : List ℕ) (v : ℕ) → All IsByte bs → read_be v bs < (v + 1) * radix (length bs)
unfolding read_be
read_be-lt [] v h = omega arith
read_be-lt (b ∷ bs) v (p, h) =
    let step : (v * 256 + b + 1) * radix (length bs) ≤ (v + 1) * 256 * radix (length bs) =
      grind arith in
    omega (arith, read_be-lt bs (v * 256 + b) h)

abbrev pub Encodes : List ℕ → ℤ → Type 0
Encodes out x = (from_bytes_be out ≡ x) × (length out ≡ 32) × All IsByte out

fill_be-Encodes : (n : ℕ) → n < 2 ^ 256 → Encodes (fill_be 32 n []) (pos n)
unfolding from_bytes_be
fill_be-Encodes n h = (
  ap pos (read_be-fill_be 32 n [] h ∙ (unfold read_be in refl)),
  length-fill_be 32 n [],
  All-fill_be 32 n [] tt,
)

-- The encoding of a value, where it is not refused, is 32 bytes below 256 that decode to the
-- value.
pub from_bytes_be-to_bytes_32_be :
    (x : ℤ) (out : List ℕ) → to_bytes_32_be x ≡ ok out → Encodes out x
unfolding to_bytes_32_be
from_bytes_be-to_bytes_32_be (pos n) out h =
    let fits : n < 2 ^ 256 = ground arith in
    let e : fill_be 32 n [] ≡ out = ground arith in rw e at (fill_be-Encodes n fits)
from_bytes_be-to_bytes_32_be (negsuc n) out h = ground arith

-- Thirty-two bytes are the encoding of the value that they decode to.
to_bytes_32_be-from_bytes_be :
    (bs : List ℕ) → length bs ≡ 32 → All IsByte bs → to_bytes_32_be (from_bytes_be bs) ≡ ok bs
unfolding to_bytes_32_be from_bytes_be
to_bytes_32_be-from_bytes_be bs len h =
    let fits : read_be 0 bs < 2 ^ 256 = rw len at (read_be-lt bs 0 h) in
    let e : fill_be (length bs + 0) (read_be 0 bs) [] ≡ bs ++ [] =
      (unfold fill_be in fill_be-read_be bs 0 0 [] h) in
    let e' : fill_be 32 (read_be 0 bs) [] ≡ bs = rw (len, append-nil) at e in ground arith

-- A scalar that randomScalar returns lies in [1, r).
random_scalar_range :
    (draws : List (List ℕ)) (x : ℤ) → random_scalar draws ≡ some x → IsCanonical x × (pos 0 <ℤ x)
unfolding random_scalar from_bytes_be
random_scalar_range [] x h = cc
random_scalar_range (bytes ∷ draws) x h = ground (arith, random_scalar_range draws x)
