-- ===== src/Passport/Proof.antt =====
-- credentialProof.ts: the proof of eligibility that belongs to a credential; with the proof bundle of
-- contracts.ts, of which the code here reads the public inputs.
use lumengate.Prelude.{
  ℕ, Bool, false, ◌&&◌, Option, none, some, List, [], ◌∷◌, if◌then◌else◌, same_list, ℤ,
}
use lumengate.Prelude.Result.{Result, ok, ◌>>=◌}
use lumengate.Passport.Numbers.{field_to_hex}
use lumengate.Passport.Scope.{
  SettlementAsset, rwa, usdc, eurc, AssetScope, asset_scopes, ProverInputs, Credential, truthy,
  policy_text, scoped_nullifier_decimal,
}

-- `ProofBundle`, with its public inputs.
pub record ProofBundle : Type 0 where
  pub proof_hex : List ℕ
  pub public_inputs_hex : List ℕ
  pub root : List ℕ
  pub revocation_root : List ℕ
  pub policy_id : List ℕ
  pub asset_id : List ℕ
  pub action_id : List ℕ
  pub nullifier : List ℕ

unfoldable pub proof_scope_matches : ProofBundle → AssetScope → Bool
unfolding same_list
proof_scope_matches proof scope =
    same_list proof.asset_id scope.asset_id && same_list proof.action_id scope.action_id

unfoldable pub find_scope : ProofBundle → List SettlementAsset → Option AssetScope
unfolding proof_scope_matches
find_scope proof [] = none
find_scope proof (asset ∷ assets) =
    let rest = find_scope proof assets in
    if proof_scope_matches proof (asset_scopes asset) then some (asset_scopes asset) else rest

unfoldable pub scope_for_proof : ProofBundle → Option AssetScope
unfolding find_scope
scope_for_proof proof = find_scope proof (rwa ∷ usdc ∷ eurc ∷ [])

unfoldable pub nullifier_hex_from_bundle : ProofBundle → Result (List ℕ)
unfolding field_to_hex
nullifier_hex_from_bundle proof = field_to_hex proof.nullifier

abbrev pub is_expected : List ℕ → Option (List ℕ) → Bool
is_expected nullifier none = false
is_expected nullifier (some expected) = same_list nullifier expected

module _ (poseidon2_hash : List ℤ → ℕ) where
  -- The scoped nullifier where there are a secret and a scope, or the one that the issuer sent.
  unfoldable pub expected_from :
      Credential → ProverInputs → Option (List ℕ) → Option AssetScope → Result (Option (List ℕ))
  unfolding scoped_nullifier_decimal
  expected_from credential inputs (some note_secret) (some scope) = do
    let policy = policy_text credential inputs
    scoped ←
        scoped_nullifier_decimal poseidon2_hash note_secret policy scope.asset_id scope.action_id
    ok (some scoped)
  expected_from credential inputs none scope = ok inputs.nullifier
  expected_from credential inputs (some note_secret) none = ok inputs.nullifier

  unfoldable pub expected_nullifier_for_credential :
      Credential → ProofBundle → Result (Option (List ℕ))
  unfolding expected_from scope_for_proof
  expected_nullifier_for_credential credential proof = elim credential.prover_inputs [
    | none ↦ ok none
    | some inputs ↦
        expected_from credential inputs (truthy inputs.note_secret) (scope_for_proof proof)
  ]

  unfoldable pub proof_matches_credential : Option ProofBundle → Option Credential → Result Bool
  unfolding expected_nullifier_for_credential same_list
  proof_matches_credential none credential = ok false
  proof_matches_credential (some proof) none = ok false
  proof_matches_credential (some proof) (some credential) = do
    expected ← expected_nullifier_for_credential credential proof
    ok (is_expected proof.nullifier expected)
