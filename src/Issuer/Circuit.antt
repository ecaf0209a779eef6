-- ===== src/Issuer/Circuit.antt =====
-- circuits/lumengate/src/main.nr: what a proof of eligibility shows. A field element is a number, which
-- whoever hands it in keeps below r, and `Poseidon2::hash` is a parameter, the hash that the issuer
-- uses. `none` is a constraint that fails.
use lumengate.Prelude.{
  ℕ, ◌+◌, ◌%◌, ◌^◌, Bool, false, not, ◌&&◌, Option, none, some, List, [], ◌∷◌, ltb, leb,
  if◌then◌else◌, pos_part, eqb_ℤ, ℤ, pos,
}
use lumengate.Issuer.Fields.{hash_2_fields, hash_3_fields}

pub record PublicInputs : Type 0 where
  pub root : ℤ
  pub revocation_root : ℤ
  pub policy_id : ℤ
  pub asset_id : ℤ
  pub action_id : ℤ
  pub nullifier : ℤ

pub record PrivateInputs : Type 0 where
  pub note_secret : ℤ
  pub note_blinding : ℤ
  pub accredited : Bool
  pub jurisdiction_code : ℤ
  pub dob_timestamp : ℤ
  pub sanctions_clear : Bool
  pub issuer_id : ℤ
  pub salt : ℤ
  pub current_time : ℤ
  pub min_jurisdiction : ℤ
  pub max_jurisdiction : ℤ
  pub path_siblings : List ℤ
  pub path_bits : List ℤ
  pub rev_path_siblings : List ℤ
  pub rev_path_bits : List ℤ

abbrev pub eighteen_years_seconds : ℕ
eighteen_years_seconds = 568036800

-- A cast keeps the low bits.
abbrev pub as_u32 : ℤ → ℕ
as_u32 x = pos_part x % 2 ^ 32

abbrev pub as_u64 : ℤ → ℕ
as_u64 x = pos_part x % 2 ^ 64

abbrev pub field_from_u1 : Bool → ℤ
field_from_u1 v = if v then pos 1 else pos 0

-- An addition of u64 fails where it would wrap.
abbrev pub is_adult : ℕ → ℕ → Bool
is_adult now dob =
    ltb (dob + eighteen_years_seconds) (2 ^ 64) && leb (dob + eighteen_years_seconds) now

abbrev pub equals? : Option ℤ → ℤ → Bool
equals? none x = false
equals? (some root) x = eqb_ℤ root x

module _ (poseidon2_hash : List ℤ → ℕ) where
  -- The loop of both roots; of a bit that `constrain_bit` lets pass, one step.
  unfoldable pub climb : ℤ → List ℤ → List ℤ → Option ℤ
  climb cur (sib ∷ siblings) (bit ∷ bits) =
      let left = climb (hash_2_fields poseidon2_hash cur sib) siblings bits in
      let right = climb (hash_2_fields poseidon2_hash sib cur) siblings bits in
      if eqb_ℤ bit (pos 0) then left else if eqb_ℤ bit (pos 1) then right else none
  climb cur [] bits = some cur
  climb cur (sib ∷ siblings) [] = some cur

  abbrev pub compute_merkle_root : ℤ → List ℤ → List ℤ → Option ℤ
  compute_merkle_root leaf siblings bits = climb leaf siblings bits

  abbrev pub compute_revocation_root : List ℤ → List ℤ → Option ℤ
  compute_revocation_root siblings bits = climb (pos 0) siblings bits

  abbrev pub commitment_of : PrivateInputs → ℤ
  commitment_of p =
      let attrs_hash =
        hash_3_fields poseidon2_hash
          (hash_2_fields poseidon2_hash (field_from_u1 p.accredited) p.jurisdiction_code)
          (hash_2_fields poseidon2_hash p.dob_timestamp (field_from_u1 p.sanctions_clear))
          p.issuer_id in
      hash_2_fields poseidon2_hash attrs_hash p.salt

  -- The assertions, in their order.
  unfoldable pub is_eligible : PublicInputs → PrivateInputs → Bool
  unfolding climb
  is_eligible q p =
      not (eqb_ℤ (hash_2_fields poseidon2_hash p.note_secret p.note_blinding) (pos 0))
      && (p.accredited
          && (p.sanctions_clear
              && (leb (as_u32 p.min_jurisdiction) (as_u32 p.jurisdiction_code)
                  && (leb (as_u32 p.jurisdiction_code) (as_u32 p.max_jurisdiction)
                      && (is_adult (as_u64 p.current_time) (as_u64 p.dob_timestamp)
                          && (equals?
                                (compute_merkle_root (commitment_of p) p.path_siblings p.path_bits)
                                q.root
                              && (equals?
                                    (compute_revocation_root p.rev_path_siblings p.rev_path_bits)
                                    q.revocation_root
                                  && (not (eqb_ℤ (commitment_of p) (pos 0))
                                      && eqb_ℤ
                                          (pos (
                                            poseidon2_hash (
                                              p.note_secret ∷ q.policy_id ∷ q.asset_id ∷ q.action_id
                                              ∷ [])))
                                          q.nullifier))))))))
