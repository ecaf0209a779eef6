-- ===== src/Passport/Offered.antt =====
-- When an offering's scope is ready.
use lumengate.Prelude.{
  ℕ, ◌≡◌, refl, sym, ap, ◌∙◌, ◌≢◌, ◌↔◌, Bool, true, false, Option, none, some, List, if◌then◌else◌,
  ℤ,
}
use lumengate.Prelude.Result.{Result, ok, err, err}
use Prim.Native.String.{String}
use lumengate.Passport.Scope.{
  SettlementAsset, rwa, usdc, eurc, asset_scopes, Credential, is_scope_nullifier_spent,
}
use lumengate.Passport.Proof.{ProofBundle}
use lumengate.Passport.Rows.{
  scope_ready, renewal_required, taken_as_spent, proof_is_for, find_row, is_scope_ready,
  row_is_ready, offering_settlement_asset, is_offering_scope_ready, status_of,
  fetch_passport_scope_rows,
}

taken_as_spent-eq-false : (r : Result Bool) → (taken_as_spent r ≡ false) ↔ (r ≢ ok true)
taken_as_spent-eq-false (ok true) = ((λ h. cc), (λ h. absurd (h refl)))
taken_as_spent-eq-false (ok false) = ((λ h. λ e. cc), (λ h. refl))
taken_as_spent-eq-false (err thrown) = ((λ h. λ e. cc), (λ h. refl))

status-ready :
    (spent for_scope : Bool)
    → (is_scope_ready
          (if spent then renewal_required else if for_scope then scope_ready else scope_ready)
        ≡ true)
      ↔ (spent ≡ false)
status-ready true for_scope = ((λ h. cc), (λ h. cc))
status-ready false true = ((λ h. refl), (λ h. refl))
status-ready false false = ((λ h. refl), (λ h. refl))

find_row-none :
    (proof : Option ProofBundle) (hash : List ℤ → ℕ)
    (read : List ℕ → List ℕ → List ℕ → List ℕ → Result Bool) (asset : SettlementAsset)
    → row_is_ready (find_row asset (fetch_passport_scope_rows hash read none proof)) ≡ false
unfolding find_row fetch_passport_scope_rows
find_row-none proof hash read rwa = refl
find_row-none proof hash read usdc = refl
find_row-none proof hash read eurc = refl

some_inj : {a b : Credential} → some a ≡ some b → a ≡ b
some_inj e = cc

module _ (poseidon2_hash : List ℤ → ℕ)
    (read_nullifier_spent : List ℕ → List ℕ → List ℕ → List ℕ → Result Bool) where
  -- A credential of which the chain does not say that the scope is spent.
  abbrev pub IsOpen : Option Credential → SettlementAsset → Type 0
  IsOpen credential asset =
      (c : Credential) × (credential ≡ some c)
      × (is_scope_nullifier_spent poseidon2_hash read_nullifier_spent c (asset_scopes asset)
          ≢ ok true)

  find_row-status :
      (c : Credential) (proof : Option ProofBundle) (asset : SettlementAsset)
      → row_is_ready (
          find_row asset
            (fetch_passport_scope_rows poseidon2_hash read_nullifier_spent (some c) proof))
        ≡ is_scope_ready (status_of poseidon2_hash read_nullifier_spent c proof asset)
  unfolding find_row fetch_passport_scope_rows
  find_row-status c proof rwa = refl
  find_row-status c proof usdc = refl
  find_row-status c proof eurc = refl

  status_of-ready :
      (c : Credential) (proof : Option ProofBundle) (asset : SettlementAsset)
      → (is_scope_ready (status_of poseidon2_hash read_nullifier_spent c proof asset) ≡ true) ↔ (
          is_scope_nullifier_spent poseidon2_hash read_nullifier_spent c (asset_scopes asset)
          ≢ ok true)
  unfolding status_of
  status_of-ready c proof asset =
      let scope = asset_scopes asset in
      let answer = is_scope_nullifier_spent poseidon2_hash read_nullifier_spent c scope in
      let ready = status-ready (taken_as_spent answer) (proof_is_for proof scope) in
      let free = taken_as_spent-eq-false answer in
      ((λ h. free.0 (ready.0 h)), (λ h. ready.1 (free.1 h)))

  -- Of the rows that were fetched for a passport, an offering's scope is ready exactly when
  -- there is a credential and the chain does not answer that its nullifier in the scope of the
  -- offering's asset is spent; the other scopes and the proof do not count.
  pub is_offering_scope_ready-IsOpen_iff :
      (text : String) (credential : Option Credential) (proof : Option ProofBundle)
      → (is_offering_scope_ready text
            (some (fetch_passport_scope_rows poseidon2_hash read_nullifier_spent credential proof))
          ≡ true)
        ↔ IsOpen credential (offering_settlement_asset text)
  unfolding is_offering_scope_ready
  is_offering_scope_ready-IsOpen_iff text none proof =
      let row =
        find_row-none proof poseidon2_hash read_nullifier_spent (offering_settlement_asset text) in
      ((λ h. cc), (λ (c, e, unspent). cc))
  is_offering_scope_ready-IsOpen_iff text (some c) proof =
      let asset = offering_settlement_asset text in
      let row = find_row-status c proof asset in
      let unspent_iff = status_of-ready c proof asset in
      (
        (λ h. (c, refl, unspent_iff.0 (sym row ∙ h))),
        (λ (c', e, unspent).
            row
            ∙ unspent_iff.1 (λ spent. unspent (
                ap
                  (λ x.
                    is_scope_nullifier_spent poseidon2_hash read_nullifier_spent x
                      (asset_scopes asset))
                  (sym (some_inj e))
                ∙ spent))),
      )
