-- ===== src/Tests/PassportRuns.antt =====
-- A credential of which the scope of the treasury units is spent, with a proof for USDC.
use lumengate.Prelude.{
  ℕ, ◌+◌, ◌*◌, ◌≡◌, refl, ◌↔◌, Bool, true, false, Option, none, some, List, [], ◌∷◌, map,
  if◌then◌else◌, same_list, pos_part, ℤ, pos,
}
use lumengate.Prelude.Result.{Result, ok}
use lumengate.Product.Amount.{digits_10}
use lumengate.Passport.Numbers.{hex_64}
use lumengate.Passport.Spent.{
  VerifierCall, without_0x, is_scoped_nullifier_spent, is_nullifier_spent, read_nullifier_spent,
  read_scoped,
}
use lumengate.Passport.Scope.{
  usdc, asset_scopes, ProverInputs, Credential, truthy, policy_text, scope_nullifier_hex,
  assert_scope_nullifier_available,
}
use lumengate.Passport.Proof.{
  ProofBundle, nullifier_hex_from_bundle, proof_scope_matches, proof_matches_credential,
}
use lumengate.Passport.Lifecycle.{PassportPhase, can_settle}
use lumengate.Passport.Nullifier.{IsScoped}
use lumengate.Passport.Settleable.{phase_now, IsSettleable, can_settle-IsSettleable_iff}
use lumengate.Passport.Preflight.{
  IsUnspent, nullifier_hex_from_bundle-scope_nullifier_hex,
  assert_scope_nullifier_available-Unspent,
}
use lumengate.Passport.Lifecycle.{ready}
use lumengate.Passport.Steps.{
  ProductInput, ready_tone, flags_of, build_product_steps, get_product_readiness,
}
use lumengate.Passport.Progress.{
  IsProgress, states, is_complete, build_product_steps-IsProgress, get_product_readiness-tone,
}
use lumengate.Passport.Rows.{
  fetch_passport_scope_rows, offering_settlement_asset, is_offering_scope_ready,
}
use lumengate.Passport.Offered.{IsOpen, is_offering_scope_ready-IsOpen_iff}

abbrev toy_hash : List ℤ → ℕ
toy_hash [] = 7
toy_hash (x ∷ xs) = let rest = toy_hash xs in pos_part x + 10 * rest

-- The verifier has seen the nullifier of asset 1.
abbrev spent_units : List ℕ → List ℕ → List ℕ → List ℕ → Result Bool
unfolding same_list
spent_units hex policy asset action = ok (same_list asset (b'1' ∷ []))

abbrev inputs : ProverInputs
inputs = record {
  note_secret = some (b'5' ∷ []);
  policy_id = none;
  asset_id = none;
  action_id = none;
  nullifier = none;
}

abbrev credential : Credential
credential = record { nullifier = b'0' ∷ []; policy_id = 1; prover_inputs = some inputs }

abbrev proof : ProofBundle
proof = record {
  proof_hex = [];
  public_inputs_hex = [];
  root = [];
  revocation_root = [];
  policy_id = b'1' ∷ [];
  asset_id = b'2' ∷ [];
  action_id = b'1' ∷ [];
  nullifier = b'7' ∷ b'1' ∷ b'2' ∷ b'1' ∷ b'5' ∷ [];
}

matching : proof_matches_credential toy_hash (some proof) (some credential) ≡ ok true
unfolding proof_matches_credential digits_10
matching = refl

can_settle-IsSettleable_iff_example :
    ((phase : PassportPhase) × (phase_now toy_hash spent_units
          (some (b'G' ∷ []))
          (some credential)
          (some proof)
          none
        ≡ ok phase)
      × (can_settle phase ≡ true))
    ↔ IsSettleable toy_hash spent_units (some (b'G' ∷ [])) (some credential) (some proof)
can_settle-IsSettleable_iff_example =
    can_settle-IsSettleable_iff toy_hash spent_units (some (b'G' ∷ [])) (some credential)
      (some proof) none

nullifier_hex_from_bundle-scope_nullifier_hex_example :
    nullifier_hex_from_bundle proof ≡ scope_nullifier_hex toy_hash credential (asset_scopes usdc)
unfolding proof_scope_matches
nullifier_hex_from_bundle-scope_nullifier_hex_example =
    nullifier_hex_from_bundle-scope_nullifier_hex toy_hash credential inputs (b'5' ∷ []) proof usdc
      refl refl refl matching

-- A verifier that has spent everything in the scope of the first asset.
abbrev simulated : VerifierCall → Result (Option Bool)
simulated (is_scoped_nullifier_spent policy asset action digits) =
    if same_list asset (b'1' ∷ []) then ok (some true) else ok (some false)
simulated (is_nullifier_spent policy digits) = ok none

available_on_chain :
    assert_scope_nullifier_available toy_hash (read_scoped (b'1' ∷ []) simulated) credential usdc
    ≡ ok tt
unfolding assert_scope_nullifier_available digits_10 read_nullifier_spent same_list
available_on_chain = refl

assert_scope_nullifier_available-Unspent_example :
    (inputs' : ProverInputs) × (note_secret : List ℕ) × (n : ℕ) × (credential.prover_inputs
      ≡ some inputs')
    × (truthy inputs'.note_secret ≡ some note_secret)
    × IsScoped toy_hash credential inputs' (asset_scopes usdc) note_secret n
    × IsUnspent simulated (
        is_scoped_nullifier_spent
          (policy_text credential inputs')
          (asset_scopes usdc).asset_id
          (asset_scopes usdc).action_id
          (without_0x (hex_64 (pos n))))
assert_scope_nullifier_available-Unspent_example =
    assert_scope_nullifier_available-Unspent toy_hash (b'1' ∷ []) simulated credential usdc
      available_on_chain

abbrev product_input : ProductInput
product_input = record {
  address = none;
  settlement_address = some (b'C' ∷ []);
  credential = some credential;
  proof = some proof;
  lifecycle = ready;
  has_settlement = false;
  passkey_first = true;
}

build_product_steps-IsProgress_example :
    IsProgress (states (build_product_steps product_input))
    × (map is_complete (build_product_steps product_input) ≡ flags_of product_input)
build_product_steps-IsProgress_example = build_product_steps-IsProgress product_input

get_product_readiness-tone_example : (get_product_readiness product_input).tone ≡ ready_tone
unfolding build_product_steps
get_product_readiness-tone_example = get_product_readiness-tone product_input refl

is_offering_scope_ready-IsOpen_iff_example :
    (is_offering_scope_ready "usdc"
        (some (fetch_passport_scope_rows toy_hash spent_units (some credential) (some proof)))
      ≡ true)
    ↔ IsOpen toy_hash spent_units (some credential) (offering_settlement_asset "usdc")
is_offering_scope_ready-IsOpen_iff_example =
    is_offering_scope_ready-IsOpen_iff toy_hash spent_units "usdc" (some credential) (some proof)
