-- ===== src/Passport/Nullifier.antt =====
-- The nullifier of a credential in a scope, as the two places that ask the chain about it compute it.
use lumengate.Prelude.{
  ℕ, suc, ◌<◌, ◌≡◌, refl, sym, ap, ◌∙◌, true, false, ◌&&◌, ◌||◌, some, List, [], ◌∷◌, arith, ◌==◌,
  length, All, same_list, same_list→eq, ℤ, pos,
}
use lumengate.Prelude.Result.{Result, ok, >>=-eq-ok, ok_inj}
use lumengate.Product.Amount.{to_string, read_10}
use lumengate.Product.Amount.RoundTrip.{
  IsDigit, and-true, span_digits-All, is_empty_of_length, All-digit_IsPlain, trimmed, to_string-All,
  read_10-to_string, digits_10-longer,
}
use lumengate.Passport.Numbers.{to_big_int, field_to_hex, decimal, signed, numeral, hex_64}
use lumengate.Passport.Scope.{
  SettlementAsset, rwa, usdc, eurc, AssetScope, asset_scopes, ProverInputs, Credential, truthy,
  policy_text, rescoped, scoped_nullifier_decimal, with_secret, credential_for_scope,
  scope_nullifier_hex,
}
use lumengate.Passport.Proof.{ProofBundle, proof_scope_matches, scope_for_proof}

-- Digits are read as a decimal number.
pub decimal-digits :
    (s : List ℕ) → All IsDigit s → 0 < length s → decimal s ≡ ok (pos (read_10 0 s))
unfolding decimal
decimal-digits s h long = rw (span_digits-All s h) (rw (is_empty_of_length s long) refl)

not_sign : (c k : ℕ) → IsDigit c → k < b'0' → (c == k) ≡ false
not_sign c k h small = ground arith

not_prefix :
    (c c' x y : ℕ) → IsDigit c' → b'9' < x → b'9' < y → (c == b'0' && (c' == x || c' == y)) ≡ false
not_prefix c c' x y h large large' = ground arith

signed-digits :
    (c : ℕ) (s : List ℕ) → All IsDigit (c ∷ s) → signed (c ∷ s) ≡ ok (pos (read_10 0 (c ∷ s)))
unfolding signed
signed-digits c s h =
    rw (not_sign c b'-' h.0 (omega arith))
      (rw (not_sign c b'+' h.0 (omega arith)) (decimal-digits (c ∷ s) h (omega arith)))

numeral-digits : (s : List ℕ) → All IsDigit s → 0 < length s → numeral s ≡ ok (pos (read_10 0 s))
unfolding numeral
numeral-digits [] h long = absurd (omega arith)
numeral-digits (c ∷ []) h long = signed-digits c [] h
numeral-digits (c ∷ c' ∷ s) h long =
    rw (not_prefix c c' b'x' b'X' h.1.0 (omega arith) (omega arith)) (
      rw (not_prefix c c' b'o' b'O' h.1.0 (omega arith) (omega arith)) (
        rw (not_prefix c c' b'b' b'B' h.1.0 (omega arith) (omega arith))
          (signed-digits c (c' ∷ s) h)))

pub length-to_string : (n : ℕ) → 0 < length (to_string n)
length-to_string n = digits_10-longer (suc n) n [] (omega arith)

pub to_big_int-to_string : (n : ℕ) → to_big_int (to_string n) ≡ ok (pos n)
unfolding to_big_int
to_big_int-to_string n =
    ap numeral (trimmed (to_string n) (All-digit_IsPlain (to_string n) (to_string-All n)))
    ∙ numeral-digits (to_string n) (to_string-All n) (length-to_string n)
    ∙ ap (λ k. ok (pos k)) (read_10-to_string n)

pub field_to_hex-to_string : (n : ℕ) → field_to_hex (to_string n) ≡ ok (hex_64 (pos n))
unfolding field_to_hex
field_to_hex-to_string n = rw (to_big_int-to_string n) refl

truthy_of_length : (s : List ℕ) → 0 < length s → truthy (some s) ≡ some s
truthy_of_length [] h = absurd (omega arith)
truthy_of_length (c ∷ s) h = refl

-- A scoped nullifier is the hash of what the four texts are read to.
scoped_nullifier_decimal-eq-ok :
    (poseidon2_hash : List ℤ → ℕ) (note_secret policy asset action : List ℕ) {d : List ℕ}
    → scoped_nullifier_decimal poseidon2_hash note_secret policy asset action ≡ ok d
    → (s : ℤ) × (p : ℤ) × (a : ℤ) × (b : ℤ) × (to_big_int note_secret ≡ ok s)
      × (to_big_int policy ≡ ok p)
      × (to_big_int asset ≡ ok a)
      × (to_big_int action ≡ ok b)
      × (d ≡ to_string (poseidon2_hash (s ∷ p ∷ a ∷ b ∷ [])))
unfolding scoped_nullifier_decimal
scoped_nullifier_decimal-eq-ok poseidon2_hash note_secret policy asset action h =
    let (s, hs, h1) = >>=-eq-ok (to_big_int note_secret) _ h in
    let (p, hp, h2) = >>=-eq-ok (to_big_int policy) _ h1 in
    let (a, ha, h3) = >>=-eq-ok (to_big_int asset) _ h2 in
    let (b, hb, h4) = >>=-eq-ok (to_big_int action) _ h3 in
    (s, p, a, b, hs, hp, ha, hb, sym (ok_inj h4))

proof_scope_matches-ids :
    (p : ProofBundle) (scope : AssetScope)
    → proof_scope_matches p scope ≡ true
    → (p.asset_id ≡ scope.asset_id) × (p.action_id ≡ scope.action_id)
unfolding proof_scope_matches
proof_scope_matches-ids p scope h =
    let (a, b) =
      and-true (same_list p.asset_id scope.asset_id) (same_list p.action_id scope.action_id) h in
    (same_list→eq _ _ a, same_list→eq _ _ b)

proof_scope_matches-other :
    (p : ProofBundle) (scope : AssetScope) {id : List ℕ}
    → p.asset_id ≡ id
    → same_list id scope.asset_id ≡ false
    → proof_scope_matches p scope ≡ false
unfolding proof_scope_matches
proof_scope_matches-other p scope e differs = rw e (rw differs refl)

pub scope_for_proof-eq-some :
    (p : ProofBundle) (asset : SettlementAsset)
    → proof_scope_matches p (asset_scopes asset) ≡ true
    → scope_for_proof p ≡ some (asset_scopes asset)
unfolding scope_for_proof same_list
scope_for_proof-eq-some p rwa h = rw h refl
scope_for_proof-eq-some p usdc h =
    let e = (proof_scope_matches-ids p (asset_scopes usdc) h).0 in
    rw (proof_scope_matches-other p (asset_scopes rwa) e refl) (rw h refl)
scope_for_proof-eq-some p eurc h =
    let e = (proof_scope_matches-ids p (asset_scopes eurc) h).0 in
    rw (proof_scope_matches-other p (asset_scopes rwa) e refl)
      (rw (proof_scope_matches-other p (asset_scopes usdc) e refl) (rw h refl))

module _ (poseidon2_hash : List ℤ → ℕ) where
  -- The scoped nullifier of a credential with a note secret.
  abbrev pub scoped : Credential → ProverInputs → AssetScope → List ℕ → Result (List ℕ)
  scoped c inputs scope note_secret =
      scoped_nullifier_decimal poseidon2_hash note_secret (policy_text c inputs) scope.asset_id
        scope.action_id

  -- The number behind a scoped nullifier, once the texts are read.
  abbrev pub IsScoped : Credential → ProverInputs → AssetScope → List ℕ → ℕ → Type 0
  IsScoped c inputs scope note_secret n =
      (s : ℤ) × (p : ℤ) × (a : ℤ) × (b : ℤ) × (to_big_int note_secret ≡ ok s)
      × (to_big_int (policy_text c inputs) ≡ ok p)
      × (to_big_int scope.asset_id ≡ ok a)
      × (to_big_int scope.action_id ≡ ok b)
      × (n ≡ poseidon2_hash (s ∷ p ∷ a ∷ b ∷ []))

  pub scoped-IsScoped :
      (c : Credential) (inputs : ProverInputs) (scope : AssetScope) (note_secret : List ℕ)
      {d : List ℕ}
      → scoped c inputs scope note_secret ≡ ok d
      → (n : ℕ) × IsScoped c inputs scope note_secret n × (d ≡ to_string n)
  scoped-IsScoped c inputs scope note_secret h =
      let (s, p, a, b, hs, hp, ha, hb, e) =
        scoped_nullifier_decimal-eq-ok poseidon2_hash note_secret (policy_text c inputs)
          scope.asset_id scope.action_id h in
      (poseidon2_hash (s ∷ p ∷ a ∷ b ∷ []), (s, p, a, b, hs, hp, ha, hb, refl), e)

  pub credential_for_scope-scoped :
      (c : Credential) (inputs : ProverInputs) (scope : AssetScope) (note_secret : List ℕ) (n : ℕ)
      → c.prover_inputs ≡ some inputs
      → truthy inputs.note_secret ≡ some note_secret
      → scoped c inputs scope note_secret ≡ ok (to_string n)
      → credential_for_scope poseidon2_hash c scope
        ≡ ok (rescoped c inputs scope (policy_text c inputs) (to_string n) (hex_64 (pos n)))
  unfolding credential_for_scope with_secret
  credential_for_scope-scoped c inputs scope note_secret n has secret h =
      rw has (rw secret (rw h (rw (field_to_hex-to_string n) refl)))

  pub scope_nullifier_hex-scoped :
      (c : Credential) (inputs : ProverInputs) (scope : AssetScope) (note_secret : List ℕ) (n : ℕ)
      → c.prover_inputs ≡ some inputs
      → truthy inputs.note_secret ≡ some note_secret
      → scoped c inputs scope note_secret ≡ ok (to_string n)
      → scope_nullifier_hex poseidon2_hash c scope ≡ ok (hex_64 (pos n))
  unfolding scope_nullifier_hex
  scope_nullifier_hex-scoped c inputs scope note_secret n has secret h =
      rw (credential_for_scope-scoped c inputs scope note_secret n has secret h)
        (rw (truthy_of_length (to_string n) (length-to_string n)) (field_to_hex-to_string n))
