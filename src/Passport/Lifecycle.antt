-- ===== src/Passport/Lifecycle.antt =====
-- proofLifecycle.ts and passportLifecycle.ts: what has become of a proof, offline and against the
-- chain, and the phase of the passport. `readNullifierSpent` is a parameter; Spent has it.
use lumengate.Prelude.{
  ℕ, Bool, true, false, not, ◌&&◌, Option, none, some, List, [], ◌∷◌, ◌==◌, if◌then◌else◌, ℤ,
}
use lumengate.Prelude.Result.{Result, ok, err, ◌>>=◌, err}
use lumengate.Product.Amount.{to_string}
use lumengate.Passport.Scope.{Credential, truthy}
use lumengate.Passport.Proof.{ProofBundle, nullifier_hex_from_bundle, proof_matches_credential}

-- `absent` is 'none'.
pub data ProofLifecycle : Type 0 where
  absent ready consumed invalid : ProofLifecycle

-- The texts of `reason`.
pub data Reason : Type 0 where
  settlement_completed does_not_match already_used : Reason

pub record ProofLifecycleState : Type 0 where
  pub lifecycle : ProofLifecycle
  pub consumed_tx_hash : Option (List ℕ)
  pub reason : Option Reason

-- `no_passport` is 'none'.
pub data PassportPhase : Type 0 where
  no_passport passport_issued proof_generated proof_spent expired : PassportPhase

abbrev pub plain : ProofLifecycle → ProofLifecycleState
plain lifecycle = record { lifecycle = lifecycle; consumed_tx_hash = none; reason = none }

abbrev pub mismatched : ProofLifecycleState
mismatched = record (plain invalid) { reason = some does_not_match }

abbrev pub used : Option (List ℕ) → ProofLifecycleState
used settlement_tx_hash = record {
  lifecycle = consumed;
  consumed_tx_hash = settlement_tx_hash;
  reason = some already_used;
}

abbrev pub completed : Option (List ℕ) → Option Reason
completed none = none
completed (some hash) = some settlement_completed

-- There is no proof; the hash of a settlement says why.
abbrev pub without_proof : Option (List ℕ) → ProofLifecycleState
without_proof settlement_tx_hash = record {
  lifecycle = absent;
  consumed_tx_hash = settlement_tx_hash;
  reason = completed (truthy settlement_tx_hash);
}

-- `proof.publicInputs.policyId || credential.credential.policyId || 1`.
abbrev pub asked_policy : ProofBundle → Credential → List ℕ
asked_policy proof credential = elim (truthy (some proof.policy_id)) [
  | none ↦ if credential.policy_id == 0 then b'1' ∷ [] else to_string credential.policy_id
  | some policy ↦ policy
]

abbrev pub is_ready : ProofLifecycle → Bool
is_ready ready = true
is_ready absent = false
is_ready consumed = false
is_ready invalid = false

unfoldable pub is_proof_usable : ProofLifecycleState → Bool
is_proof_usable state = is_ready state.lifecycle

abbrev pub issued : Option Credential → PassportPhase
issued none = no_passport
issued (some credential) = passport_issued

module _ (read_nullifier_spent : List ℕ → List ℕ → List ℕ → List ℕ → Result Bool) where
  -- What the chain answers of the proof's nullifier.
  unfoldable pub spent_answer : Credential → ProofBundle → Result Bool
  unfolding nullifier_hex_from_bundle
  spent_answer credential proof = do
    hex ← nullifier_hex_from_bundle proof
    read_nullifier_spent hex (asked_policy proof credential) proof.asset_id proof.action_id

module _ (poseidon2_hash : List ℤ → ℕ) where
  unfoldable pub derive_proof_lifecycle :
      Option Credential → Option ProofBundle → Option (List ℕ) → Result ProofLifecycleState
  unfolding proof_matches_credential
  derive_proof_lifecycle none proof settlement_tx_hash = ok (plain absent)
  derive_proof_lifecycle (some credential) none settlement_tx_hash = ok (plain absent)
  derive_proof_lifecycle (some credential) (some proof) settlement_tx_hash = do
    matches ← proof_matches_credential poseidon2_hash (some proof) (some credential)
    ok (if matches then plain ready else mismatched)

  -- What follows the `try`.
  unfoldable pub judge :
      Credential → ProofBundle → Option (List ℕ) → Bool → Result ProofLifecycleState
  unfolding proof_matches_credential
  judge credential proof settlement_tx_hash spent = do
    matches ← proof_matches_credential poseidon2_hash (some proof) (some credential)
    ok (if not matches then mismatched else if spent then used settlement_tx_hash else plain ready)

  -- The `catch`: without an answer, a proof that matches is ready, and the others are judged as
  -- unspent.
  unfoldable pub judge_answer :
      Credential → ProofBundle → Option (List ℕ) → Result Bool → Result ProofLifecycleState
  unfolding proof_matches_credential judge
  judge_answer credential proof settlement_tx_hash (ok spent) =
      judge credential proof settlement_tx_hash spent
  judge_answer credential proof settlement_tx_hash (err thrown) = do
    matches ← proof_matches_credential poseidon2_hash (some proof) (some credential)
    if matches then ok (plain ready) else judge credential proof settlement_tx_hash false

  module _ (read_nullifier_spent : List ℕ → List ℕ → List ℕ → List ℕ → Result Bool) where
    unfoldable pub sync_proof_lifecycle_on_chain :
        Option Credential → Option ProofBundle → Option (List ℕ) → Result ProofLifecycleState
    unfolding judge_answer spent_answer
    sync_proof_lifecycle_on_chain none proof settlement_tx_hash = ok (plain absent)
    sync_proof_lifecycle_on_chain (some credential) none settlement_tx_hash =
        ok (without_proof settlement_tx_hash)
    sync_proof_lifecycle_on_chain (some credential) (some proof) settlement_tx_hash =
        judge_answer credential proof settlement_tx_hash
          (spent_answer read_nullifier_spent credential proof)

  -- The phase of a proof that is neither consumed nor invalid.
  unfoldable pub unsettled_phase :
      Option Credential → Option ProofBundle → ProofLifecycle → Result PassportPhase
  unfolding proof_matches_credential
  unsettled_phase credential proof lifecycle = do
    matches ← proof_matches_credential poseidon2_hash proof credential
    ok (if matches && is_ready lifecycle then proof_generated else issued credential)

  unfoldable pub derive_passport_phase :
      Option (List ℕ)
      → Option Credential
      → Option ProofBundle
      → ProofLifecycleState
      → Result PassportPhase
  unfolding unsettled_phase
  derive_passport_phase address credential proof state = elim (truthy address) [
    | none ↦ ok no_passport
    | some account ↦ elim state.lifecycle [
      | consumed ↦ ok proof_spent
      | invalid ↦ ok expired
      | ready ↦ unsettled_phase credential proof ready
      | absent ↦ unsettled_phase credential proof absent
    ]
  ]

unfoldable pub can_settle : PassportPhase → Bool
can_settle proof_generated = true
can_settle no_passport = false
can_settle passport_issued = false
can_settle proof_spent = false
can_settle expired = false
