-- ===== src/Crypto/Grumpkin/Bytes.antt =====
-- The on-chain encoding of points: 64 bytes, all zero for the identity.
use lumengate.Prelude.{
  ℕ, ◌≡◌, refl, sym, ap, ◌∙◌, inl, inr, true, false, some, List, [], ◌∷◌, ◌++◌, arith, Bool-cases,
  length, replicate, take-append, drop-append, length-append, ℤ, pos, negsuc,
}
use lumengate.Prelude.Result.{ok}
use mathlib.Core.Path.{Σ_path}
use lumengate.Crypto.Field.{IsCanonical, to_bytes_32_be, from_bytes_be, fill_be, read_be}
use lumengate.Crypto.Field.Bytes.{from_bytes_be-to_bytes_32_be}
use lumengate.Crypto.Grumpkin.{
  Curve, CurveLaws, all_zero, from_affine, point_to_bytes, point_from_bytes,
}

pub read_be-all_zero :
    (b c : List ℕ) → all_zero (b ++ c) ≡ true → (read_be 0 b ≡ 0) × (read_be 0 c ≡ 0)
unfolding all_zero read_be
read_be-all_zero [] [] h = (refl, refl)
read_be-all_zero [] (x ∷ c) h = (refl, ground (arith, read_be-all_zero [] c))
read_be-all_zero (x ∷ b) c h = ground (arith, read_be-all_zero b c)

-- A canonical value is always encoded.
to_bytes_32_be_total : (x : ℤ) → IsCanonical x → (out : List ℕ) × (to_bytes_32_be x ≡ ok out)
unfolding to_bytes_32_be
to_bytes_32_be_total (pos n) h = (fill_be 32 n [], ground arith)
to_bytes_32_be_total (negsuc n) h = absurd (omega arith)

module _ {Point : Type 0} ⦃C : Curve Point⦄ (L : CurveLaws C) where
  abbrev pub RoundTrip : Point → Type 0
  RoundTrip p =
      (out : List ℕ) × (point_to_bytes p ≡ ok out)
      × (length out ≡ 64)
      × (point_from_bytes out ≡ ok p)

  infinity-RoundTrip : (p : Point) → C.is0 p ≡ true → RoundTrip p
  unfolding point_to_bytes point_from_bytes
  infinity-RoundTrip p h = (replicate 64 0, rw h, refl, ap ok (sym ((L.is0_iff p).0 h)))

  pub from_affine_of : {p : Point} (xy : ℤ × ℤ) → C.from_affine xy ≡ some p → from_affine xy ≡ ok p
  from_affine_of xy h = ground arith

  -- The two halves of an encoding decode to the coordinates.
  record Halves (p : Point) (x y : List ℕ) : Type 0 where
    read_x : from_bytes_be x ≡ (C.to_affine p).0
    read_y : from_bytes_be y ≡ (C.to_affine p).1
    length_x : length x ≡ 32
    length_y : length y ≡ 32

  Halves-not_all_zero :
      {p : Point} {x y : List ℕ} → C.is0 p ≡ false → Halves p x y → all_zero (x ++ y) ≡ false
  unfolding from_bytes_be
  Halves-not_all_zero {p} {x} {y} h e = elim (Bool-cases (all_zero (x ++ y))) [
    | inl z ↦
        let (zx, zy) = read_be-all_zero x y z in
        absurd (L.affine_ne p h (Σ_path (sym e.read_x ∙ ap pos zx) (sym e.read_y ∙ ap pos zy)))
    | inr n ↦ n
  ]

  point_from_bytes_of_Halves :
      {p : Point} {x y : List ℕ} → C.is0 p ≡ false → Halves p x y → point_from_bytes (x ++ y) ≡ ok p
  unfolding point_from_bytes
  point_from_bytes_of_Halves {p} {x} {y} h e =
      let len : length (x ++ y) ≡ 64 = omega (arith, length-append x y, e.length_x, e.length_y) in
      rw
        (
          len,
          Halves-not_all_zero h e,
          take-append x y 32 e.length_x,
          drop-append x y 32 e.length_x,
          e.read_x,
          e.read_y,
        )
        (from_affine_of (C.to_affine p) (L.from_affine-to_affine p h))

  affine-RoundTrip : (p : Point) → C.is0 p ≡ false → RoundTrip p
  unfolding point_to_bytes
  affine-RoundTrip p h =
      let (x, ex) = to_bytes_32_be_total (C.to_affine p).0 (L.affine_x p h) in
      let (y, ey) = to_bytes_32_be_total (C.to_affine p).1 (L.affine_y p h) in
      let (dx, lx, _) = from_bytes_be-to_bytes_32_be _ x ex in
      let (dy, ly, _) = from_bytes_be-to_bytes_32_be _ y ey in
      let halves : Halves p x y = record {
        read_x = dx;
        read_y = dy;
        length_x = lx;
        length_y = ly;
      } in
      (
        x ++ y,
        rw (h, ex, ey),
        omega (arith, length-append x y),
        point_from_bytes_of_Halves h halves,
      )

  -- Every point, the identity included, is encoded in 64 bytes without an error, and they
  -- decode to the point.
  pub point_from_bytes-point_to_bytes : (p : Point) → RoundTrip p
  point_from_bytes-point_to_bytes p = elim (Bool-cases (C.is0 p)) [
    | inl h ↦ infinity-RoundTrip p h
    | inr h ↦ affine-RoundTrip p h
  ]
