-- ===== src/Passport/Rows.antt =====
-- passportScopeStatus.ts: what the product shows of each scope of a passport, and of marketplaceActions.ts
-- the test of an offering's scope. The sentences of `detail` are left out.
use lumengate.Prelude.{
  ℕ, Bool, true, false, Option, none, some, List, [], ◌∷◌, map, if◌then◌else◌, ℤ,
}
use lumengate.Prelude.Result.{Result, ok, err, err}
use Prim.Native.String.{String}
use text.Mathlib.Text.{◌==◌ as str_eq}
use lumengate.Passport.Scope.{
  SettlementAsset, rwa, usdc, eurc, AssetScope, asset_scopes, Credential, is_scope_nullifier_spent,
}
use lumengate.Passport.Proof.{ProofBundle, proof_scope_matches}

-- `not_set_up` is 'none', `scope_ready` 'ready' and `scope_used` 'used'.
pub data PassportScopeUiStatus : Type 0 where
  not_set_up scope_ready scope_used renewal_required : PassportScopeUiStatus

pub record PassportScopeRow : Type 0 where
  pub asset : SettlementAsset
  pub label : String
  pub status : PassportScopeUiStatus
  pub badge : String

abbrev pub friendly_asset_name : SettlementAsset → String
friendly_asset_name usdc = "USDC"
friendly_asset_name eurc = "EURC"
friendly_asset_name rwa = "Treasury units"

abbrev pub scope_status_badge : PassportScopeUiStatus → String
scope_status_badge scope_ready = "Ready"
scope_status_badge scope_used = "Renewal required"
scope_status_badge renewal_required = "Renewal required"
scope_status_badge not_set_up = "Not set up"

abbrev pub row_of : SettlementAsset → PassportScopeUiStatus → PassportScopeRow
row_of asset status = record {
  asset = asset;
  label = friendly_asset_name asset;
  status = status;
  badge = scope_status_badge status;
}

-- An answer that was thrown is not spent.
abbrev pub taken_as_spent : Result Bool → Bool
taken_as_spent (ok spent) = spent
taken_as_spent (err thrown) = false

abbrev pub proof_is_for : Option ProofBundle → AssetScope → Bool
proof_is_for none scope = false
proof_is_for (some proof) scope = proof_scope_matches proof scope

abbrev scope_order : List SettlementAsset
scope_order = rwa ∷ usdc ∷ eurc ∷ []

abbrev pub same_asset : SettlementAsset → SettlementAsset → Bool
same_asset rwa rwa = true
same_asset rwa usdc = false
same_asset rwa eurc = false
same_asset usdc usdc = true
same_asset usdc rwa = false
same_asset usdc eurc = false
same_asset eurc eurc = true
same_asset eurc rwa = false
same_asset eurc usdc = false

-- `scopeRows.find((r) => r.asset === asset)`.
unfoldable pub find_row : SettlementAsset → List PassportScopeRow → Option PassportScopeRow
find_row asset [] = none
find_row asset (row ∷ rows) =
    let rest = find_row asset rows in if same_asset row.asset asset then some row else rest

abbrev pub is_scope_ready : PassportScopeUiStatus → Bool
is_scope_ready scope_ready = true
is_scope_ready not_set_up = false
is_scope_ready scope_used = false
is_scope_ready renewal_required = false

-- `row?.status === 'ready'`.
abbrev pub row_is_ready : Option PassportScopeRow → Bool
row_is_ready none = false
row_is_ready (some row) = is_scope_ready row.status

-- The asset of an offering, from its text.
unfoldable pub offering_settlement_asset : String → SettlementAsset
offering_settlement_asset text =
    if str_eq text "usdc" then usdc else if str_eq text "eurc" then eurc else rwa

unfoldable pub is_offering_scope_ready : String → Option (List PassportScopeRow) → Bool
unfolding find_row offering_settlement_asset
is_offering_scope_ready settlement_asset none = false
is_offering_scope_ready settlement_asset (some rows) =
    row_is_ready (find_row (offering_settlement_asset settlement_asset) rows)

module _ (poseidon2_hash : List ℤ → ℕ)
    (read_nullifier_spent : List ℕ → List ℕ → List ℕ → List ℕ → Result Bool) where
  -- The status in one scope, of a credential; its last branch, without a credential, is not reached.
  unfoldable pub status_of :
      Credential → Option ProofBundle → SettlementAsset → PassportScopeUiStatus
  unfolding is_scope_nullifier_spent proof_scope_matches
  status_of credential proof asset =
      let scope = asset_scopes asset in
      if taken_as_spent
        (is_scope_nullifier_spent poseidon2_hash read_nullifier_spent credential scope)
      then renewal_required
      else if proof_is_for proof scope
      then scope_ready
      else scope_ready

  unfoldable pub fetch_passport_scope_rows :
      Option Credential → Option ProofBundle → List PassportScopeRow
  unfolding status_of
  fetch_passport_scope_rows none proof = map (λ asset. row_of asset not_set_up) scope_order
  fetch_passport_scope_rows (some credential) proof =
      map (λ asset. row_of asset (status_of credential proof asset)) scope_order
