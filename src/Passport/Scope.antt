-- ===== src/Passport/Scope.antt =====
-- assetScope.ts and scopeNullifier.ts: a credential carries, for each asset, a nullifier of its own,
-- which the policy verifier spends. `poseidon2Hash` of @zkpassport/poseidon2 is a parameter, and so is
-- `readNullifierSpent` of contracts.ts, which Spent defines; it takes the policy as text, before
-- `Number`. The prover inputs are texts.
use lumengate.Prelude.{ℕ, Bool, Option, none, some, List, [], ◌∷◌, if◌then◌else◌, ℤ}
use lumengate.Prelude.Result.{
  Result, ok, err, ◌>>=◌, missing_note_secret, missing_nullifier, nullifier_spent, err,
}
use lumengate.Product.Amount.{to_string}
use lumengate.Passport.Numbers.{to_big_int, field_to_hex}

pub data SettlementAsset : Type 0 where
  rwa usdc eurc : SettlementAsset

-- The asset, and the two ids; the action is always "settlement".
pub record AssetScope : Type 0 where
  pub asset : SettlementAsset
  pub asset_id : List ℕ
  pub action_id : List ℕ

abbrev pub asset_scopes : SettlementAsset → AssetScope
asset_scopes rwa = record { asset = rwa; asset_id = b'1' ∷ []; action_id = b'1' ∷ [] }
asset_scopes usdc = record { asset = usdc; asset_id = b'2' ∷ []; action_id = b'1' ∷ [] }
asset_scopes eurc = record { asset = eurc; asset_id = b'3' ∷ []; action_id = b'1' ∷ [] }

-- `proverInputs`: the entries that the code reads or writes.
pub record ProverInputs : Type 0 where
  pub note_secret : Option (List ℕ)
  pub policy_id : Option (List ℕ)
  pub asset_id : Option (List ℕ)
  pub action_id : Option (List ℕ)
  pub nullifier : Option (List ℕ)

-- `IssuerCredentialResponse`: of `credential`, the nullifier and the policy.
pub record Credential : Type 0 where
  pub nullifier : List ℕ
  pub policy_id : ℕ
  pub prover_inputs : Option ProverInputs

-- A text that is present and not empty.
abbrev pub truthy : Option (List ℕ) → Option (List ℕ)
truthy none = none
truthy (some []) = none
truthy (some (c ∷ s)) = some (c ∷ s)

abbrev pub or_else {ℓ} : {A : Type ℓ} → Option A → A → A
or_else none other = other
or_else (some a) other = a

abbrev pub policy_text : Credential → ProverInputs → List ℕ
policy_text credential inputs = or_else inputs.policy_id (to_string credential.policy_id)

-- The credential whose nullifiers are those of the scope.
abbrev pub rescoped : Credential → ProverInputs → AssetScope → List ℕ → List ℕ → List ℕ → Credential
rescoped credential inputs scope policy scoped hex = record credential {
  nullifier = hex;
  prover_inputs = some (record inputs {
    policy_id = some policy;
    asset_id = some scope.asset_id;
    action_id = some scope.action_id;
    nullifier = some scoped;
  });
}

-- `scoped.proverInputs?.nullifier ?? scoped.credential.nullifier`.
abbrev pub nullifier_text : Credential → List ℕ
nullifier_text scoped = elim scoped.prover_inputs [
  | none ↦ scoped.nullifier
  | some inputs ↦ or_else inputs.nullifier scoped.nullifier
]

abbrev to_hex? : Option (List ℕ) → Result (List ℕ)
to_hex? none = err missing_nullifier
to_hex? (some text) = field_to_hex text

-- The policy that the verifier is asked about.
abbrev pub scoped_policy : Credential → List ℕ
scoped_policy scoped = elim scoped.prover_inputs [
  | none ↦ to_string scoped.policy_id
  | some inputs ↦ policy_text scoped inputs
]

module _ (poseidon2_hash : List ℤ → ℕ) where
  unfoldable pub scoped_nullifier_decimal : List ℕ → List ℕ → List ℕ → List ℕ → Result (List ℕ)
  unfolding to_big_int
  scoped_nullifier_decimal note_secret policy_id asset_id action_id = do
    secret ← to_big_int note_secret
    policy ← to_big_int policy_id
    asset ← to_big_int asset_id
    action ← to_big_int action_id
    ok (to_string (poseidon2_hash (secret ∷ policy ∷ asset ∷ action ∷ [])))

  unfoldable pub with_secret :
      Credential → ProverInputs → AssetScope → Option (List ℕ) → Result Credential
  unfolding scoped_nullifier_decimal field_to_hex
  with_secret credential inputs scope none = err missing_note_secret
  with_secret credential inputs scope (some note_secret) = do
    let policy = policy_text credential inputs
    scoped ← scoped_nullifier_decimal note_secret policy scope.asset_id scope.action_id
    hex ← field_to_hex scoped
    ok (rescoped credential inputs scope policy scoped hex)

  unfoldable pub credential_for_scope : Credential → AssetScope → Result Credential
  unfolding with_secret
  credential_for_scope credential scope = elim credential.prover_inputs [
    | none ↦ err missing_note_secret
    | some inputs ↦ with_secret credential inputs scope (truthy inputs.note_secret)
  ]

  unfoldable pub scope_nullifier_hex : Credential → AssetScope → Result (List ℕ)
  unfolding credential_for_scope field_to_hex
  scope_nullifier_hex credential scope = do
    scoped ← credential_for_scope credential scope
    to_hex? (truthy (some (nullifier_text scoped)))

  module _ (read_nullifier_spent : List ℕ → List ℕ → List ℕ → List ℕ → Result Bool) where
    unfoldable pub is_scope_nullifier_spent : Credential → AssetScope → Result Bool
    unfolding credential_for_scope scope_nullifier_hex
    is_scope_nullifier_spent credential scope = do
      scoped ← credential_for_scope credential scope
      hex ← scope_nullifier_hex credential scope
      read_nullifier_spent hex (scoped_policy scoped) scope.asset_id scope.action_id

    unfoldable pub assert_scope_nullifier_available :
        Credential → SettlementAsset → Result (Unit {0})
    unfolding is_scope_nullifier_spent
    assert_scope_nullifier_available credential asset = do
      spent ← is_scope_nullifier_spent credential (asset_scopes asset)
      if spent then err nullifier_spent else ok tt
