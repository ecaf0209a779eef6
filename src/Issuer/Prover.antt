-- ===== src/Issuer/Prover.antt =====
-- issuer-service/lib/credentialCommitment.js, policies.js and scripts/generate_prover_toml.js: the
-- credential of a wallet, and the inputs of its proof. SHA-256 is a parameter, as the digits that it gives;
-- what is drawn and the time are arguments. The issuer's signature, which the circuit does not read, is
-- left out.
use lumengate.Prelude.{
  ℕ, ◌+◌, Bool, true, not, ◌&&◌, ◌||◌, List, [], ◌∷◌, ◌++◌, leb, if◌then◌else◌, replicate, take,
  same_list, ℤ, pos,
}
use lumengate.Prelude.Result.{
  Error, Result, ok, err, ◌>>=◌, roots_missing, root_mismatch, revocation_mismatch, err,
}
use lumengate.Crypto.Field.{pad_start}
use lumengate.Crypto.Field.Hex.{without_prefix}
use lumengate.Crypto.Field.Numeral.{is_empty}
use lumengate.Product.Amount.{to_string}
use lumengate.Passport.Numbers.{to_big_int}
use lumengate.Chain.Paging.{codes}
use lumengate.Chain.IssuerRows.{big_text}
use lumengate.Issuer.Fields.{
  field_to_bytes_32_hex, hash_2_fields, hash_3_fields, compute_nullifier, accumulate,
  RevocationWitness, compute_revocation_witness,
}

pub data PolicyKey : Type 0 where
  general_eligibility accredited_investor us_jurisdiction sanctions_clear_policy age_verified
        proof_of_funds :
      PolicyKey

-- `POLICY_OVERRIDES`.
pub record Policy : Type 0 where
  pub min_jurisdiction : List ℕ
  pub max_jurisdiction : List ℕ
  pub policy_id : List ℕ

abbrev pub policy_overrides : PolicyKey → Policy
policy_overrides us_jurisdiction = record {
  min_jurisdiction = to_string 840;
  max_jurisdiction = to_string 840;
  policy_id = to_string 1;
}
policy_overrides proof_of_funds = record {
  min_jurisdiction = to_string 1;
  max_jurisdiction = to_string 999;
  policy_id = to_string 2;
}
policy_overrides _ = record {
  min_jurisdiction = to_string 1;
  max_jurisdiction = to_string 999;
  policy_id = to_string 1;
}

abbrev lower : ℕ → ℕ
lower c = if leb b'A' c && leb c b'Z' then c + 32 else c

unfoldable pub to_lower_case : List ℕ → List ℕ
to_lower_case [] = []
to_lower_case (c ∷ s) = lower c ∷ to_lower_case s

-- `normalizeHex32`; the letters of other alphabets stay here.
unfoldable pub normalize_hex_32 : List ℕ → List ℕ
unfolding without_prefix to_lower_case
normalize_hex_32 hex = pad_start 64 b'0' (to_lower_case (without_prefix hex))

-- Of the material, what `buildProverInputs` reads.
pub record Material : Type 0 where
  pub commitment : List ℕ
  pub root : List ℕ
  pub issuer_id : List ℕ
  pub salt : List ℕ
  pub jurisdiction_code : List ℕ
  pub dob_timestamp : List ℕ
  pub path_siblings : List (List ℕ)
  pub path_bits : List (List ℕ)

pub record ChainRoots : Type 0 where
  pub root : List ℕ
  pub revocation_root : List ℕ

-- `proverInputs`.
pub record IssuedInputs : Type 0 where
  pub accredited : Bool
  pub sanctions_clear : Bool
  pub jurisdiction_code : List ℕ
  pub dob_timestamp : List ℕ
  pub issuer_id : List ℕ
  pub salt : List ℕ
  pub note_secret : List ℕ
  pub note_blinding : List ℕ
  pub current_time : List ℕ
  pub min_jurisdiction : List ℕ
  pub max_jurisdiction : List ℕ
  pub policy_id : List ℕ
  pub asset_id : List ℕ
  pub action_id : List ℕ
  pub root : List ℕ
  pub revocation_root : List ℕ
  pub nullifier : List ℕ
  pub path_siblings : List (List ℕ)
  pub path_bits : List (List ℕ)
  pub rev_path_siblings : List (List ℕ)
  pub rev_path_bits : List (List ℕ)

-- What is drawn for a note, and the time in seconds.
pub record Draw : Type 0 where
  pub note_secret : ℕ
  pub note_blinding : ℕ
  pub current_time : ℕ

abbrev pub require : Bool → Error → Result (Unit {0})
require passes thrown = if passes then ok tt else err thrown

-- `fieldHexToDecimal`.
unfoldable pub field_hex_to_decimal : List ℕ → Result (List ℕ)
unfolding to_big_int
field_hex_to_decimal hex = do n ← to_big_int hex; ok (big_text n)

module _ (sha_256 : List ℕ → List ℕ) (poseidon2_hash : List ℤ → ℕ) where
  -- Of the parts with colons between them, the first 62 digits.
  unfoldable pub field_from_hash : List ℕ → Result (List ℕ)
  unfolding to_big_int
  field_from_hash joined = do
    n ← to_big_int (b'0' ∷ b'x' ∷ take 62 (sha_256 joined))
    ok (big_text n)

  unfoldable pub single_leaf_root : List ℕ → Result (List ℕ)
  unfolding to_big_int accumulate field_to_bytes_32_hex
  single_leaf_root commitment = do
    leaf ← to_big_int commitment
    ok (field_to_bytes_32_hex (accumulate poseidon2_hash leaf (replicate 8 (pos 0))))

  unfoldable pub build_credential_material : List ℕ → List ℕ → Result Material
  unfolding field_from_hash single_leaf_root codes
  build_credential_material wallet_field issuer_id = do
    salt ← field_from_hash (codes "lumengate-credential-v1:" ++ wallet_field ++ b':' ∷ issuer_id)
    issuer ← to_big_int issuer_id
    salt_value ← to_big_int salt
    let attrs_hash =
        hash_3_fields poseidon2_hash (hash_2_fields poseidon2_hash (pos 1) (pos 840))
          (hash_2_fields poseidon2_hash (pos 631152000) (pos 1)) issuer
    let commitment = field_to_bytes_32_hex (hash_2_fields poseidon2_hash attrs_hash salt_value)
    root ← single_leaf_root commitment
    ok (record {
      commitment = commitment;
      root = root;
      issuer_id = issuer_id;
      salt = salt;
      jurisdiction_code = to_string 840;
      dob_timestamp = to_string 631152000;
      path_siblings = replicate 8 (b'0' ∷ []);
      path_bits = replicate 8 (b'0' ∷ []);
    })

  -- What follows the checks.
  unfoldable pub issued :
      Material
      → RevocationWitness
      → ChainRoots
      → Policy
      → List ℕ
      → List ℕ
      → Draw
      → Result IssuedInputs
  unfolding compute_nullifier field_hex_to_decimal
  issued material rev_witness chain_roots policy asset_id action_id draw = do
    nullifier ←
        compute_nullifier poseidon2_hash (to_string draw.note_secret) policy.policy_id asset_id
          action_id
    root ← field_hex_to_decimal chain_roots.root
    revocation_root ← field_hex_to_decimal chain_roots.revocation_root
    nullifier_decimal ← field_hex_to_decimal nullifier
    ok (record {
      accredited = true;
      sanctions_clear = true;
      jurisdiction_code = material.jurisdiction_code;
      dob_timestamp = material.dob_timestamp;
      issuer_id = material.issuer_id;
      salt = material.salt;
      note_secret = to_string draw.note_secret;
      note_blinding = to_string draw.note_blinding;
      current_time = to_string draw.current_time;
      min_jurisdiction = policy.min_jurisdiction;
      max_jurisdiction = policy.max_jurisdiction;
      policy_id = policy.policy_id;
      asset_id = asset_id;
      action_id = action_id;
      root = root;
      revocation_root = revocation_root;
      nullifier = nullifier_decimal;
      path_siblings = material.path_siblings;
      path_bits = material.path_bits;
      rev_path_siblings = rev_witness.rev_path_siblings;
      rev_path_bits = rev_witness.rev_path_bits;
    })

  unfoldable pub build_prover_inputs :
      List ℕ
      → List ℕ
      → ChainRoots
      → List (List ℕ)
      → PolicyKey
      → List ℕ
      → List ℕ
      → Draw
      → Result IssuedInputs
  unfolding build_credential_material normalize_hex_32 compute_revocation_witness to_lower_case
      issued same_list
  build_prover_inputs wallet_field issuer_id chain_roots revoked policy_key asset_id action_id
        draw =
      do
        material ← build_credential_material wallet_field issuer_id
        is_there ←
            require (not (is_empty chain_roots.root || is_empty chain_roots.revocation_root))
              roots_missing
        matches ←
            require (same_list (normalize_hex_32 chain_roots.root) (normalize_hex_32 material.root))
              root_mismatch
        rev_witness ← compute_revocation_witness poseidon2_hash revoked
        is_current ←
            require
              (same_list (to_lower_case rev_witness.root)
                (to_lower_case chain_roots.revocation_root))
              revocation_mismatch
        issued material rev_witness chain_roots (policy_overrides policy_key) asset_id action_id
            draw
