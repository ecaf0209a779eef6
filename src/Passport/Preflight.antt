-- ===== src/Passport/Preflight.antt =====
-- The check before a settlement, against the proof's own nullifier and against the chain.
use lumengate.Prelude.{
  ℕ, ◌≡◌, refl, sym, ap, ◌∙◌, ◌⊎◌, inl, inr, Bool, true, false, Option, none, some, List,
  Option-cases, same_list→eq, ℤ, pos,
}
use lumengate.Prelude.Result.{
  Result, ok, err, ◌>>=◌, missing_note_secret, nullifier_spent, err, >>=-eq-ok, ok_inj, guard-eq-ok,
}
use lumengate.Product.Amount.{to_string}
use lumengate.Passport.Numbers.{field_to_hex, hex_64}
use lumengate.Passport.Spent.{
  VerifierCall, without_0x, is_scoped_nullifier_spent, spent_value, read_nullifier_spent,
  read_scoped,
}
use lumengate.Passport.Scope.{
  SettlementAsset, AssetScope, asset_scopes, ProverInputs, Credential, truthy, policy_text,
  with_secret, credential_for_scope, scope_nullifier_hex, is_scope_nullifier_spent,
  assert_scope_nullifier_available,
}
use lumengate.Passport.Proof.{
  ProofBundle, proof_scope_matches, scope_for_proof, nullifier_hex_from_bundle, expected_from,
  expected_nullifier_for_credential, is_expected, proof_matches_credential,
}
use lumengate.Passport.Nullifier.{
  field_to_hex-to_string, scope_for_proof-eq-some, scoped, IsScoped, scoped-IsScoped,
  credential_for_scope-scoped, scope_nullifier_hex-scoped,
}

is_expected-eq :
    (nullifier : List ℕ) (expected : Option (List ℕ))
    → is_expected nullifier expected ≡ true
    → expected ≡ some nullifier
is_expected-eq nullifier none h = cc
is_expected-eq nullifier (some expected) h = ap some (sym (same_list→eq nullifier expected h))

some_inj : {a b : List ℕ} → some a ≡ some b → a ≡ b
some_inj h = cc

-- The simulation of the call had the value false, or none.
abbrev pub IsUnspent : (VerifierCall → Result (Option Bool)) → VerifierCall → Type 0
IsUnspent simulate call = (simulate call ≡ ok (some false)) ⊎ (simulate call ≡ ok none)

module _ (poseidon2_hash : List ℤ → ℕ) where
  -- A proof that matches carries the scoped nullifier.
  matching-scoped :
      (c : Credential) (inputs : ProverInputs) (note_secret : List ℕ) (p : ProofBundle)
      (scope : AssetScope)
      → c.prover_inputs ≡ some inputs
      → truthy inputs.note_secret ≡ some note_secret
      → scope_for_proof p ≡ some scope
      → proof_matches_credential poseidon2_hash (some p) (some c) ≡ ok true
      → scoped poseidon2_hash c inputs scope note_secret ≡ ok p.nullifier
  unfolding proof_matches_credential expected_nullifier_for_credential expected_from
  matching-scoped c inputs note_secret p scope has secret found h =
      let (expected, e, same) =
        >>=-eq-ok (expected_nullifier_for_credential poseidon2_hash c p) _ h in
      let e' = rw found at (rw secret at (rw has at e)) in
      let (d, hd, last) = >>=-eq-ok (scoped poseidon2_hash c inputs scope note_secret) _ e' in
      hd ∙ ap ok (some_inj (ok_inj last ∙ is_expected-eq p.nullifier expected (ok_inj same)))

  -- For a credential with a note secret and a proof of one of the three scopes that matches it,
  -- the nullifier that the proof's lifecycle asks the chain about is the one that the check
  -- before a settlement in that scope asks about.
  pub nullifier_hex_from_bundle-scope_nullifier_hex :
      (c : Credential) (inputs : ProverInputs) (note_secret : List ℕ) (p : ProofBundle)
      (asset : SettlementAsset)
      → c.prover_inputs ≡ some inputs
      → truthy inputs.note_secret ≡ some note_secret
      → proof_scope_matches p (asset_scopes asset) ≡ true
      → proof_matches_credential poseidon2_hash (some p) (some c) ≡ ok true
      → nullifier_hex_from_bundle p ≡ scope_nullifier_hex poseidon2_hash c (asset_scopes asset)
  unfolding nullifier_hex_from_bundle
  nullifier_hex_from_bundle-scope_nullifier_hex c inputs note_secret p asset has secret named h =
      let scope = asset_scopes asset in
      let found = scope_for_proof-eq-some p asset named in
      let carried = matching-scoped c inputs note_secret p scope has secret found h in
      let (n, hashed, e) = scoped-IsScoped poseidon2_hash c inputs scope note_secret carried in
      ap field_to_hex e
      ∙ field_to_hex-to_string n
      ∙ sym (
          scope_nullifier_hex-scoped poseidon2_hash c inputs scope note_secret n has secret
            (carried ∙ ap ok e))

  -- A credential that was brought to a scope has a note secret.
  credential_for_scope-eq-ok :
      (c : Credential) (scope : AssetScope) (c' : Credential)
      → credential_for_scope poseidon2_hash c scope ≡ ok c'
      → (inputs : ProverInputs) × (note_secret : List ℕ) × (n : ℕ) × (c.prover_inputs ≡ some inputs)
        × (truthy inputs.note_secret ≡ some note_secret)
        × IsScoped poseidon2_hash c inputs scope note_secret n
        × (scoped poseidon2_hash c inputs scope note_secret ≡ ok (to_string n))
  unfolding credential_for_scope with_secret
  credential_for_scope-eq-ok c scope c' h = elim (Option-cases c.prover_inputs) [
    | inl none_has ↦ let e : err missing_note_secret ≡ ok c' = rw none_has at h in cc
    | inr (inputs, has) ↦ elim (Option-cases (truthy inputs.note_secret)) [
      | inl no_secret ↦
          let e : err missing_note_secret ≡ ok c' = rw no_secret at (rw has at h) in cc
      | inr (note_secret, secret) ↦
          let e = rw secret at (rw has at h) in
          let (d, hd, rest) = >>=-eq-ok (scoped poseidon2_hash c inputs scope note_secret) _ e in
          let (n, hashed, is_n) = scoped-IsScoped poseidon2_hash c inputs scope note_secret hd in
          (inputs, note_secret, n, has, secret, hashed, hd ∙ ap ok is_n)
    ]
  ]

  module _ (read_nullifier_spent : List ℕ → List ℕ → List ℕ → List ℕ → Result Bool) where
    spent-asked :
        (c : Credential) (inputs : ProverInputs) (scope : AssetScope) (note_secret : List ℕ) (n : ℕ)
        → c.prover_inputs ≡ some inputs
        → truthy inputs.note_secret ≡ some note_secret
        → scoped poseidon2_hash c inputs scope note_secret ≡ ok (to_string n)
        → is_scope_nullifier_spent poseidon2_hash read_nullifier_spent c scope
          ≡ read_nullifier_spent
              (hex_64 (pos n))
              (policy_text c inputs)
              scope.asset_id
              scope.action_id
    unfolding is_scope_nullifier_spent
    spent-asked c inputs scope note_secret n has secret e =
        rw (scope_nullifier_hex-scoped poseidon2_hash c inputs scope note_secret n has secret e) (
          rw (credential_for_scope-scoped poseidon2_hash c inputs scope note_secret n has secret e)
            refl)

    available-asked :
        (c : Credential) (asset : SettlementAsset)
        → assert_scope_nullifier_available poseidon2_hash read_nullifier_spent c asset ≡ ok tt
        → (inputs : ProverInputs) × (note_secret : List ℕ) × (n : ℕ) × (c.prover_inputs
            ≡ some inputs)
          × (truthy inputs.note_secret ≡ some note_secret)
          × IsScoped poseidon2_hash c inputs (asset_scopes asset) note_secret n
          × (read_nullifier_spent
                (hex_64 (pos n))
                (policy_text c inputs)
                (asset_scopes asset).asset_id
                (asset_scopes asset).action_id
              ≡ ok false)
    unfolding assert_scope_nullifier_available is_scope_nullifier_spent
    available-asked c asset h =
        let scope = asset_scopes asset in
        let (spent, asked, passed) =
          >>=-eq-ok (is_scope_nullifier_spent poseidon2_hash read_nullifier_spent c scope) _ h in
        let (c', made, rest) = >>=-eq-ok (credential_for_scope poseidon2_hash c scope) _ asked in
        let (inputs, note_secret, n, has, secret, hashed, e) =
          credential_for_scope-eq-ok c scope c' made in
        let (free, done) = guard-eq-ok spent nullifier_spent (ok tt) passed in
        (
          inputs,
          note_secret,
          n,
          has,
          secret,
          hashed,
          sym (spent-asked c inputs scope note_secret n has secret e) ∙ asked ∙ ap ok free,
        )

  unspent_answer :
      (r : Result (Option Bool))
      → (do val ← r; ok (spent_value val)) ≡ ok false
      → (r ≡ ok (some false)) ⊎ (r ≡ ok none)
  unspent_answer (err e) h = cc
  unspent_answer (ok none) h = inr refl
  unspent_answer (ok (some spent)) h = inl (ap (λ b. ok (some b)) (ok_inj h))

  -- When assertScopeNullifierAvailable returns, with readNullifierSpent as contracts.ts has it,
  -- the credential has a note secret, and the policy verifier's is_scoped_nullifier_spent was
  -- simulated for the credential's policy, the asset and the action, and the hash of the
  -- secret, the policy, the asset and the action, as 64 hexadecimal digits or more; the
  -- simulation had the value false, or it had no value, which the code takes for not spent.
  pub assert_scope_nullifier_available-Unspent :
      (config_policy_id : List ℕ) (simulate : VerifierCall → Result (Option Bool)) (c : Credential)
      (asset : SettlementAsset)
      → assert_scope_nullifier_available poseidon2_hash
          (read_scoped config_policy_id simulate)
          c
          asset
        ≡ ok tt
      → (inputs : ProverInputs) × (note_secret : List ℕ) × (n : ℕ) × (c.prover_inputs ≡ some inputs)
        × (truthy inputs.note_secret ≡ some note_secret)
        × IsScoped poseidon2_hash c inputs (asset_scopes asset) note_secret n
        × IsUnspent simulate (
            is_scoped_nullifier_spent
              (policy_text c inputs)
              (asset_scopes asset).asset_id
              (asset_scopes asset).action_id
              (without_0x (hex_64 (pos n))))
  unfolding read_nullifier_spent
  assert_scope_nullifier_available-Unspent config_policy_id simulate c asset h =
      let (inputs, note_secret, n, has, secret, hashed, answered) =
        available-asked (read_scoped config_policy_id simulate) c asset h in
      (inputs, note_secret, n, has, secret, hashed, unspent_answer _ answered)
