-- ===== src/Crypto/Grumpkin.antt =====
-- crypto/grumpkin.ts. The curve itself is that of @noble/curves, a parameter.
pub mod Laws
pub mod Bytes
pub mod Toy
use lumengate.Prelude.{
  ℕ, zero, suc, ◌+◌, ◌-◌, ◌*◌, ◌/◌, ◌%◌, ◌^◌, ◌≤◌, ◌<◌, max, ◌≡◌, refl, sym, ap, ◌∙◌, ◌≢◌, ◌↔◌, ◌⊎◌,
  inl, inr, Bool, true, false, not, ◌&&◌, ◌||◌, Option, none, some, List, [], ◌∷◌, ◌++◌, map, arith,
  ltb, leb, ◌==◌, if◌then◌else◌, ltb→lt, lt→ltb, leb→le, le→leb, ==_iff, Bool-cases, Option-cases,
  length, replicate, take, drop, take-append, drop-append, length-replicate, length-append, All,
  All-append, same_list, same_list→eq, same_list_refl, pos_part, neg_part, sub_ℕ, ◌+ℤ◌, ◌-ℤ◌, ◌≤ℤ◌,
  ◌<ℤ◌, ltb_ℤ, leb_ℤ, eqb_ℤ, +ℤ_parts, -ℤ_parts, eq_of_parts, ltb_ℤ-eq-false, eq-pos, +ℤ-nonneg, ℤ,
  int_laws, pos, negsuc,
}
use lumengate.Prelude.Result.{
  Error, Result, ok, err, ◌>>=◌, value_out_of_range, odd_length_hex, bad_bigint, degenerate_key,
  bad_point_length, not_on_curve, zero_ephemeral, bad_strkey_length, negative_amount,
  exceeds_balance, not_this_account, r_e_mismatch, no_start, missing_field, rpc_error, sync_timeout,
  transaction_failed, confirmation_timeout, keys_locked, keys_mismatch, local_keys_missing,
  keys_missing, not_positive, recipient_unregistered, recipient_unreadable, spendable_syncing,
  receiving_syncing, insufficient, sender_missing, nothing_to_merge, nothing_shielded,
  shield_mismatch, invalid_amount, too_many_decimals, missing_note_secret, missing_nullifier,
  nullifier_spent, roots_missing, root_mismatch, revocation_mismatch, err, vk_pinning,
  resolve_event, resolve_account, verify_proof, decrypt, disclosure_verify, VerifyStage, >>=-eq-ok,
  ok_inj, guard-eq-ok,
}
use lumengate.Crypto.Field.{rem_ℤ, IsCanonical, to_bytes_32_be, from_bytes_be}

abbrev pub fp_modulus : ℕ
fp_modulus = 0x30644e72e131a029b85045b68181585d97816a916871ca8d3c208c16d87cfd47

-- What the code calls of the library's `WeierstrassPoint`, and the two generators. `multiply` is
-- called with a scalar in [1, p); `from_affine` is `none` where the
-- library throws, for a coordinate out of range.
pub record Curve (Point : Type 0) : Type 0 where
  pub infinity : Point
  pub g : Point
  pub h : Point
  pub add : Point → Point → Point
  pub multiply : ℕ → Point → Point
  pub is0 : Point → Bool
  pub equals : Point → Point → Bool
  pub to_affine : Point → ℤ × ℤ
  pub from_affine : ℤ × ℤ → Option Point

-- The scan of `pointFromBytes` for a byte that is not zero.
unfoldable pub all_zero : List ℕ → Bool
all_zero [] = true
all_zero (byte ∷ b) = if byte == 0 then all_zero b else false

-- The k-fold sum of a point: what a scalar multiple means.
unfoldable pub times : {Point : Type 0} → Curve Point → ℕ → Point → Point
times C zero p = C.infinity
times C (suc k) p = C.add p (times C k p)

-- What the code relies on: the points are a commutative group in which p times any point is the
-- identity, `multiply` is the scalar multiple, `h` has the order p, and a point that is not the
-- identity has canonical coordinates, not both zero, from which `from_affine` rebuilds it.
pub record CurveLaws {Point : Type 0} (C : Curve Point) : Type 0 where
  pub add_assoc : (p q r : Point) → C.add (C.add p q) r ≡ C.add p (C.add q r)
  pub add_comm : (p q : Point) → C.add p q ≡ C.add q p
  pub infinity-add : (p : Point) → C.add C.infinity p ≡ p
  pub order : (p : Point) → times C fp_modulus p ≡ C.infinity
  pub h_order : (k : ℕ) → 0 < k → k < fp_modulus → times C k C.h ≢ C.infinity
  pub multiply-times : (k : ℕ) (p : Point) → 0 < k → k < fp_modulus → C.multiply k p ≡ times C k p
  pub is0_iff : (p : Point) → (C.is0 p ≡ true) ↔ (p ≡ C.infinity)
  pub equals_iff : (p q : Point) → (C.equals p q ≡ true) ↔ (p ≡ q)
  pub affine_x : (p : Point) → C.is0 p ≡ false → IsCanonical (C.to_affine p).0
  pub affine_y : (p : Point) → C.is0 p ≡ false → IsCanonical (C.to_affine p).1
  pub affine_ne : (p : Point) → C.is0 p ≡ false → C.to_affine p ≢ (pos 0, pos 0)
  pub from_affine-to_affine : (p : Point) → C.is0 p ≡ false → C.from_affine (C.to_affine p) ≡ some p

module _ {Point : Type 0} ⦃C : Curve Point⦄ where
  unfoldable pub is_identity : Point → Bool
  is_identity p = C.is0 p

  unfoldable pub scalar_mul : ℤ → Point → Point
  unfolding ◌+ℤ◌ ◌-ℤ◌
  scalar_mul scalar p =
      let m = rem_ℤ scalar fp_modulus in
      let s = if ltb_ℤ m (pos 0) then m +ℤ pos fp_modulus else m in
      if eqb_ℤ s (pos 0) then C.infinity else C.multiply (pos_part s) p

  unfoldable pub commit : ℤ → ℤ → Point
  commit value randomness = C.add (scalar_mul value C.g) (scalar_mul randomness C.h)

  unfoldable pub ecdh : ℤ → Point → Result ℤ
  ecdh scalar p =
      let s = scalar_mul scalar p in if C.is0 s then err degenerate_key else ok (C.to_affine s).0

  -- `Grumpkin.fromAffine`.
  abbrev pub from_affine : ℤ × ℤ → Result Point
  from_affine xy = elim (C.from_affine xy) [ none ↦ err not_on_curve | some p ↦ ok p ]

  unfoldable pub point_coords : Point → ℤ × ℤ
  point_coords p = if C.is0 p then (pos 0, pos 0) else C.to_affine p

  unfoldable pub point_to_bytes : Point → Result (List ℕ)
  point_to_bytes p = if C.is0 p then ok (replicate 64 0) else do
    x ← to_bytes_32_be (C.to_affine p).0
    y ← to_bytes_32_be (C.to_affine p).1
    ok (x ++ y)

  unfoldable pub point_from_bytes : List ℕ → Result Point
  unfolding all_zero
  point_from_bytes b =
      if not (length b == 64)
      then err bad_point_length
      else if all_zero b
      then ok C.infinity
      else from_affine (from_bytes_be (take 32 b), from_bytes_be (drop 32 b))
