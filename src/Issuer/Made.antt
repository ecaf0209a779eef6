-- ===== src/Issuer/Made.antt =====
-- The credential of a wallet and the witness of the revocations, with roots that are read back.
use lumengate.Prelude.{
  ℕ, ◌≤◌, ◌<◌, ◌≡◌, refl, sym, Bool, true, false, List, [], ◌∷◌, arith, length, replicate, take,
  pos_part, ℤ, pos,
}
use lumengate.Prelude.Result.{Error, ok, >>=-eq-ok, ok_inj}
use mathlib.Core.Path.{subst}
use lumengate.Crypto.Field.{fr_modulus}
use lumengate.Product.Amount.{to_string}
use lumengate.Passport.Numbers.{to_big_int}
use lumengate.Issuer.Fields.{
  field_to_bytes_32_hex, texts_of, first_eight, hash_2_fields, hash_3_fields, accumulate, hex_all,
  RevocationWitness, compute_revocation_root_from_siblings, compute_revocation_witness,
}
use lumengate.Issuer.Prover.{
  PolicyKey, general_eligibility, accredited_investor, us_jurisdiction, sanctions_clear_policy,
  age_verified, proof_of_funds, policy_overrides, Material, require, field_from_hash,
  single_leaf_root, build_credential_material,
}
use lumengate.Issuer.Texts.{
  to_big_int-field_to_bytes_32_hex, IsHex32, field_to_bytes_32_hex-IsHex32, length-first_eight,
  first_eight_of_length, accumulate-hash,
}

pub require-eq-ok : (b : Bool) (thrown : Error) {x : Unit {0}} → require b thrown ≡ ok x → b ≡ true
require-eq-ok true thrown h = refl
require-eq-ok false thrown h = cc

-- The policies let the one jurisdiction pass.
pub policy_overrides-fits :
    (key : PolicyKey)
    → (lo : ℕ) × (hi : ℕ) × (id : ℕ) × ((policy_overrides key).min_jurisdiction ≡ to_string lo)
      × ((policy_overrides key).max_jurisdiction ≡ to_string hi)
      × ((policy_overrides key).policy_id ≡ to_string id)
      × (lo ≤ 840)
      × (840 ≤ hi)
      × (hi < 1000)
policy_overrides-fits general_eligibility =
    (1, 999, 1, refl, refl, refl, omega arith, omega arith, omega arith)
policy_overrides-fits accredited_investor =
    (1, 999, 1, refl, refl, refl, omega arith, omega arith, omega arith)
policy_overrides-fits us_jurisdiction =
    (840, 840, 1, refl, refl, refl, omega arith, omega arith, omega arith)
policy_overrides-fits sanctions_clear_policy =
    (1, 999, 1, refl, refl, refl, omega arith, omega arith, omega arith)
policy_overrides-fits age_verified =
    (1, 999, 1, refl, refl, refl, omega arith, omega arith, omega arith)
policy_overrides-fits proof_of_funds =
    (1, 999, 2, refl, refl, refl, omega arith, omega arith, omega arith)

module _ (sha_256 : List ℕ → List ℕ) (poseidon2_hash : List ℤ → ℕ)
    (bounded : (xs : List ℤ) → poseidon2_hash xs < fr_modulus) where
  -- The text of a root, and what it is read as.
  abbrev pub IsRoot : List ℕ → ℤ → Type 0
  IsRoot t root = IsHex32 t × (to_big_int t ≡ ok root)

  accumulate-IsRoot :
      (cur : ℤ) (xs : List ℤ)
      → length xs ≡ 8
      → IsRoot
          (field_to_bytes_32_hex (accumulate poseidon2_hash cur xs))
          (accumulate poseidon2_hash cur xs)
  accumulate-IsRoot cur xs long =
      let (ys, e) = accumulate-hash poseidon2_hash cur xs (omega (arith, long)) in
      rw e (
        field_to_bytes_32_hex-IsHex32 (poseidon2_hash ys) (bounded ys),
        to_big_int-field_to_bytes_32_hex (poseidon2_hash ys) (bounded ys),
      )

  abbrev pub leaf_of : ℤ → ℤ → ℤ
  leaf_of issuer salt =
      hash_2_fields poseidon2_hash
        (hash_3_fields poseidon2_hash (hash_2_fields poseidon2_hash (pos 1) (pos 840))
          (hash_2_fields poseidon2_hash (pos 631152000) (pos 1)) issuer)
        salt

  -- What a material is of.
  abbrev pub IsMaterial : List ℕ → Material → ℤ → ℤ → Type 0
  IsMaterial issuer_id m issuer salt =
      (to_big_int m.commitment ≡ ok (leaf_of issuer salt))
      × (to_big_int m.issuer_id ≡ ok issuer)
      × (to_big_int m.salt ≡ ok salt)
      × (m.jurisdiction_code ≡ to_string 840)
      × (m.dob_timestamp ≡ to_string 631152000)
      × (m.path_siblings ≡ replicate 8 (b'0' ∷ []))
      × (m.path_bits ≡ replicate 8 (b'0' ∷ []))
      × IsRoot m.root (accumulate poseidon2_hash (leaf_of issuer salt) (replicate 8 (pos 0)))

  single_leaf_root-IsRoot :
      (n : ℕ) (root : List ℕ)
      → n < fr_modulus
      → single_leaf_root sha_256 poseidon2_hash (field_to_bytes_32_hex (pos n)) ≡ ok root
      → IsRoot root (accumulate poseidon2_hash (pos n) (replicate 8 (pos 0)))
  unfolding single_leaf_root
  single_leaf_root-IsRoot n root low h =
      let e : ok (field_to_bytes_32_hex (accumulate poseidon2_hash (pos n) (replicate 8 (pos 0))))
          ≡ ok root =
        rw (to_big_int-field_to_bytes_32_hex n low) at h in
      subst (λ t. IsRoot t (accumulate poseidon2_hash (pos n) (replicate 8 (pos 0)))) (ok_inj e)
        (accumulate-IsRoot (pos n) (replicate 8 (pos 0)) refl)

  pub build_credential_material-IsMaterial :
      (wallet_field issuer_id : List ℕ) (m : Material)
      → build_credential_material sha_256 poseidon2_hash wallet_field issuer_id ≡ ok m
      → (issuer : ℤ) × (salt : ℤ) × IsMaterial issuer_id m issuer salt
  unfolding build_credential_material
  build_credential_material-IsMaterial wallet_field issuer_id m h =
      let (salt, hashed, h1) = >>=-eq-ok (field_from_hash sha_256 poseidon2_hash _) _ h in
      let (issuer, read, h2) = >>=-eq-ok (to_big_int issuer_id) _ h1 in
      let (salt_value, read_salt, h3) = >>=-eq-ok (to_big_int salt) _ h2 in
      let (root, rooted, last) =
        >>=-eq-ok
          (single_leaf_root sha_256 poseidon2_hash
            (field_to_bytes_32_hex (leaf_of issuer salt_value)))
          _ h3 in
      (
        issuer,
        salt_value,
        subst (λ x. IsMaterial issuer_id x issuer salt_value) (ok_inj last)
            (
              to_big_int-field_to_bytes_32_hex (pos_part (leaf_of issuer salt_value)) (bounded _),
              read,
              read_salt,
              refl,
              refl,
              refl,
              refl,
              single_leaf_root-IsRoot (pos_part (leaf_of issuer salt_value)) root (bounded _)
                  rooted,
            ),
      )

  -- What a witness of the revocations is of.
  abbrev pub IsWitness : RevocationWitness → List ℤ → Type 0
  IsWitness w xs =
      (length xs ≡ 8)
      × (w.rev_path_siblings ≡ texts_of xs)
      × (w.rev_path_bits ≡ replicate 8 (b'0' ∷ []))
      × IsRoot w.root (accumulate poseidon2_hash (pos 0) xs)

  pub compute_revocation_witness-IsWitness :
      (revoked : List (List ℕ)) (w : RevocationWitness)
      → compute_revocation_witness poseidon2_hash revoked ≡ ok w
      → (xs : List ℤ) × IsWitness w xs
  unfolding compute_revocation_witness compute_revocation_root_from_siblings
  compute_revocation_witness-IsWitness revoked w h =
      let (values, read, last) = >>=-eq-ok (hex_all (take 8 revoked)) _ h in
      let xs = first_eight values in
      let long = length-first_eight values in
      (
        xs,
        subst (λ x. IsWitness x xs) (ok_inj last)
            (
              long,
              refl,
              refl,
              subst
                  (λ ys.
                    IsRoot (field_to_bytes_32_hex (accumulate poseidon2_hash (pos 0) ys))
                      (accumulate poseidon2_hash (pos 0) xs))
                  (sym (first_eight_of_length xs long)) (accumulate-IsRoot (pos 0) xs long),
            ),
      )
