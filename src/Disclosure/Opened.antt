-- ===== src/Disclosure/Opened.antt =====
-- What the JSON forms of points and of values are read back to, and what a bundle opens to.
use lumengate.Prelude.{
  ℕ, ◌^◌, ◌≡◌, refl, sym, ap, ◌∙◌, inl, inr, false, List, [], ◌∷◌, arith, Bool-cases, ◌+ℤ◌, ◌<ℤ◌,
  leb_ℤ, ℤ, pos, negsuc,
}
use lumengate.Prelude.Result.{ok}
use lumengate.Crypto.Field.{IsCanonical, fr_mod, fr_add, to_hex_32}
use lumengate.Crypto.Field.Reduce.{fr_mod-IsCanonical, fr_mod_of_IsCanonical, fr_mod-sub-fr_add}
use lumengate.Crypto.Field.Numeral.{from_hex, from_hex-to_hex_32}
use lumengate.Crypto.Poseidon.{Poseidon, PoseidonLaws, encrypt_disclosure, decrypt_with_domain}
use lumengate.Crypto.Grumpkin.{Curve, CurveLaws, scalar_mul, ecdh, point_coords}
use lumengate.Crypto.Grumpkin.Bytes.{from_affine_of}
use lumengate.Crypto.Grumpkin.Laws.{scalar_mul-times}
use lumengate.Witness.Transfer.Laws.{ecdh_agree}
use lumengate.Disclosure.{
  DisclosureBundle, point_to_json, point_from_json, decrypt_disclosure, new_disclosure_request,
  recipient_keys_from_secret,
}
use lumengate.Disclosure.Verify.{normalize, open_sealed}

-- A text that toHex32 wrote of a canonical value.
pub from_hex-canonical : (x : ℤ) → IsCanonical x → from_hex (to_hex_32 x) ≡ ok x
from_hex-canonical x h = from_hex-to_hex_32 x ∙ ap ok (fr_mod_of_IsCanonical x h)

abbrev pub hex_texts : List ℤ → List (List ℕ)
hex_texts [] = []
hex_texts (x ∷ xs) = to_hex_32 x ∷ hex_texts xs

to_hex_32-fr_mod : (x : ℤ) → to_hex_32 (fr_mod x) ≡ to_hex_32 x
unfolding to_hex_32
to_hex_32-fr_mod x = rw (fr_mod_of_IsCanonical (fr_mod x) (fr_mod-IsCanonical x)) refl

pub normalize-hex_texts : (xs : List ℤ) → normalize (hex_texts xs) ≡ ok (hex_texts xs)
unfolding normalize
normalize-hex_texts [] = refl
normalize-hex_texts (x ∷ xs) =
    rw (from_hex-to_hex_32 x, normalize-hex_texts xs, to_hex_32-fr_mod x) refl

-- What `randomScalar` returns.
abbrev pub IsScalar : ℤ → Type 0
IsScalar x = IsCanonical x × (pos 0 <ℤ x)

fr_add-IsCanonical : (a b : ℤ) → IsCanonical (fr_add a b)
unfolding fr_add
fr_add-IsCanonical a b = fr_mod-IsCanonical (a +ℤ b)

below_limit : (v : ℤ) → v <ℤ pos (2 ^ 127) → leb_ℤ (pos (2 ^ 127)) v ≡ false
below_limit (pos v) h = ground arith
below_limit (negsuc v) h = ground arith

module _ {Point : Type 0} ⦃C : Curve Point⦄ (L : CurveLaws C) where
  pub is0-scalar_mul : (x : ℤ) → IsScalar x → C.is0 (scalar_mul x C.h) ≡ false
  is0-scalar_mul (negsuc n) h = absurd (omega arith)
  is0-scalar_mul (pos n) h = elim (Bool-cases (C.is0 (scalar_mul (pos n) C.h))) [
    | inr other ↦ other
    | inl y ↦
        let e = sym (scalar_mul-times L n C.h) ∙ (L.is0_iff (scalar_mul (pos n) C.h)).0 y in
        absurd (L.h_order n (omega arith) (omega arith) e)
  ]

  -- Every point but the identity is read back from its JSON form.
  pub point_from_json-point_to_json :
      (p : Point) → C.is0 p ≡ false → point_from_json (point_to_json p) ≡ ok p
  unfolding point_from_json point_to_json point_coords
  point_from_json-point_to_json p h = rw h (
      rw
        (
          from_hex-canonical (C.to_affine p).0 (L.affine_x p h),
          from_hex-canonical (C.to_affine p).1 (L.affine_y p h),
        )
        (from_affine_of L (C.to_affine p) (L.from_affine-to_affine p h)))

module _ {Point : Type 0} ⦃P : Poseidon⦄ ⦃C : Curve Point⦄ (PL : PoseidonLaws P)
    (L : CurveLaws C) where
  -- The holder of the request's key opens what was sealed to it.
  pub open_sealed-sealed :
      (r_r fresh nu amount s : ℤ) (bundle : DisclosureBundle)
      → IsScalar r_r
      → IsScalar fresh
      → IsCanonical nu
      → IsCanonical amount
      → amount <ℤ pos (2 ^ 127)
      → ecdh fresh (scalar_mul r_r C.h) ≡ ok s
      → bundle.r_disc ≡ point_to_json (scalar_mul fresh C.h)
      → bundle.v_tilde_disc ≡ to_hex_32 (encrypt_disclosure amount s nu)
      → let keys = recipient_keys_from_secret Point r_r in
        open_sealed Point bundle (new_disclosure_request keys nu) keys ≡ ok amount
  unfolding open_sealed decrypt_disclosure decrypt_with_domain encrypt_disclosure
      recipient_keys_from_secret
  open_sealed-sealed r_r fresh nu amount s bundle hr hf hn ha small secret e_disc e_tilde =
      let shared : ecdh r_r (scalar_mul fresh C.h) ≡ ok s =
        ecdh_agree PL L r_r fresh hr.0.0 hf.0.0 ∙ secret in
      rw (e_disc, e_tilde)
        (rw
          (
            point_from_json-point_to_json L (scalar_mul fresh C.h) (is0-scalar_mul L fresh hf),
            from_hex-canonical _ (fr_add-IsCanonical amount _),
            from_hex-canonical nu hn,
            shared,
            fr_mod-sub-fr_add amount _ ha,
            below_limit amount small,
          )
          refl)
