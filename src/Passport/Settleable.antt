-- ===== src/Passport/Settleable.antt =====
-- What stands behind a passport that may settle.
use lumengate.Prelude.{
  ℕ, ◌≡◌, refl, ap, ◌∙◌, ◌≢◌, ◌↔◌, ◌⊎◌, inl, inr, Bool, true, false, Option, none, some, List,
  Option-cases, ℤ,
}
use lumengate.Prelude.Result.{Error, Result, ok, err, ◌>>=◌, err, >>=-eq-ok}
use mathlib.Core.Path.{ap₂}
use lumengate.Passport.Scope.{Credential, truthy}
use lumengate.Passport.Proof.{ProofBundle, proof_matches_credential}
use lumengate.Passport.Lifecycle.{
  judge, judge_answer, spent_answer, sync_proof_lifecycle_on_chain, PassportPhase, no_passport,
  passport_issued, proof_generated, proof_spent, expired, unsettled_phase, derive_passport_phase,
  can_settle,
}

answers : (r : Result Bool) → (r ≡ ok true) ⊎ ((r ≡ ok false) ⊎ ((e : Error) × (r ≡ err e)))
answers (ok true) = inl refl
answers (ok false) = inr (inl refl)
answers (err e) = inr (inr (e, refl))

module _ (poseidon2_hash : List ℤ → ℕ)
    (read_nullifier_spent : List ℕ → List ℕ → List ℕ → List ℕ → Result Bool) where
  abbrev belongs : Credential → ProofBundle → Result Bool
  belongs credential proof = proof_matches_credential poseidon2_hash (some proof) (some credential)

  -- A credential with a proof that belongs to it, of which the chain does not say that it is spent.
  abbrev pub IsUsable : Credential → ProofBundle → Type 0
  IsUsable credential proof =
      (belongs credential proof ≡ ok true)
      × (spent_answer read_nullifier_spent credential proof ≢ ok true)

  -- The passport's phase, with the proof compared with the chain.
  abbrev pub phase_now :
      Option (List ℕ)
      → Option Credential
      → Option ProofBundle
      → Option (List ℕ)
      → Result PassportPhase
  phase_now address credential proof hash = do
    state ← sync_proof_lifecycle_on_chain poseidon2_hash read_nullifier_spent credential proof hash
    derive_passport_phase poseidon2_hash address credential proof state

  IsUsable-phase :
      (address : Option (List ℕ)) (a : List ℕ) (c : Credential) (p : ProofBundle)
      (hash : Option (List ℕ))
      → truthy address ≡ some a
      → IsUsable c p
      → phase_now address (some c) (some p) hash ≡ ok proof_generated
  unfolding sync_proof_lifecycle_on_chain judge_answer judge derive_passport_phase unsettled_phase
  IsUsable-phase address a c p hash here (m, unspent) =
      elim (answers (spent_answer read_nullifier_spent c p)) [
        | inl spent ↦ absurd (unspent spent)
        | inr (inl free) ↦ rw free (rw m (rw (derive_passport_phase, here) (rw m refl)))
        | inr (inr (e, failed)) ↦ rw failed (rw m (rw (derive_passport_phase, here) (rw m refl)))
      ]

  -- An account is there where the phase allows a settlement.
  phase-here :
      (address : Option (List ℕ)) (c : Option Credential) (p : Option ProofBundle)
      (hash : Option (List ℕ))
      → phase_now address c p hash ≡ ok proof_generated
      → (a : List ℕ) × (truthy address ≡ some a)
  unfolding derive_passport_phase
  phase-here address c p hash h = elim (Option-cases (truthy address)) [
    | inl away ↦
        let derived =
          >>=-eq-ok (sync_proof_lifecycle_on_chain poseidon2_hash read_nullifier_spent c p hash)
            (λ state. derive_passport_phase poseidon2_hash address c p state) h in
        let e : ok no_passport ≡ ok proof_generated =
          rw (derive_passport_phase, away) at derived.2 in
        cc
    | inr here ↦ here
  ]

  phase-IsUsable :
      (address : Option (List ℕ)) (a : List ℕ) (c : Credential) (p : ProofBundle)
      (hash : Option (List ℕ))
      → truthy address ≡ some a
      → phase_now address (some c) (some p) hash ≡ ok proof_generated
      → IsUsable c p
  unfolding sync_proof_lifecycle_on_chain judge_answer judge derive_passport_phase unsettled_phase
  phase-IsUsable address a c p hash here h = elim (answers (belongs c p)) [
    | inl m ↦ elim (answers (spent_answer read_nullifier_spent c p)) [
      | inl spent ↦ let e = rw (derive_passport_phase, here) at (rw m at (rw spent at h)) in cc
      | inr (inl free) ↦ (m, λ spent. cc)
      | inr (inr (e, failed)) ↦ (m, λ spent. cc)
    ]
    | inr (inl m) ↦ elim (answers (spent_answer read_nullifier_spent c p)) [
      | inl spent ↦ let e = rw (derive_passport_phase, here) at (rw m at (rw spent at h)) in cc
      | inr (inl free) ↦ let e = rw (derive_passport_phase, here) at (rw m at (rw free at h)) in cc
      | inr (inr (e, failed)) ↦
          let e = rw (derive_passport_phase, here) at (rw m at (rw failed at h)) in cc
    ]
    | inr (inr (e, m)) ↦ elim (answers (spent_answer read_nullifier_spent c p)) [
      | inl spent ↦ let e = rw m at (rw spent at h) in cc
      | inr (inl free) ↦ let e = rw m at (rw free at h) in cc
      | inr (inr (e, failed)) ↦ let e = rw m at (rw failed at h) in cc
    ]
  ]

  -- A phase that allows a settlement, of an account with a usable proof.
  abbrev pub IsSettleable : Option (List ℕ) → Option Credential → Option ProofBundle → Type 0
  IsSettleable address credential proof =
      (a : List ℕ) × (c : Credential) × (p : ProofBundle) × (truthy address ≡ some a)
      × (credential ≡ some c)
      × (proof ≡ some p)
      × IsUsable c p

  phase-IsSettleable :
      (address : Option (List ℕ)) (c : Option Credential) (p : Option ProofBundle)
      (hash : Option (List ℕ))
      → phase_now address c p hash ≡ ok proof_generated
      → IsSettleable address c p
  unfolding sync_proof_lifecycle_on_chain derive_passport_phase unsettled_phase
  phase-IsSettleable address none none hash h =
      let (a, here) = phase-here address none none hash h in
      let e : ok no_passport ≡ ok proof_generated = rw (derive_passport_phase, here) at h in cc
  phase-IsSettleable address none (some p) hash h =
      let (a, here) = phase-here address none (some p) hash h in
      let e : ok no_passport ≡ ok proof_generated = rw (derive_passport_phase, here) at h in cc
  phase-IsSettleable address (some c) none hash h =
      let (a, here) = phase-here address (some c) none hash h in
      let e : ok passport_issued ≡ ok proof_generated = rw (derive_passport_phase, here) at h in cc
  phase-IsSettleable address (some c) (some p) hash h =
      let (a, here) = phase-here address (some c) (some p) hash h in
      (a, c, p, here, refl, refl, phase-IsUsable address a c p hash here h)

  can_settle-eq : (phase : PassportPhase) → can_settle phase ≡ true → phase ≡ proof_generated
  unfolding can_settle
  can_settle-eq proof_generated h = refl
  can_settle-eq no_passport h = cc
  can_settle-eq passport_issued h = cc
  can_settle-eq proof_spent h = cc
  can_settle-eq expired h = cc

  -- A passport whose proof was compared with the chain allows a settlement exactly when there
  -- are an account with an address, a credential and a proof that matches it, and the chain
  -- does not answer that the proof's nullifier is spent; a chain that gives no answer does not
  -- stop it.
  pub can_settle-IsSettleable_iff :
      (address : Option (List ℕ)) (c : Option Credential) (p : Option ProofBundle)
      (hash : Option (List ℕ))
      → ((phase : PassportPhase) × (phase_now address c p hash ≡ ok phase)
          × (can_settle phase ≡ true))
        ↔ IsSettleable address c p
  unfolding can_settle
  can_settle-IsSettleable_iff address c p hash = (
    (λ (phase, now, may).
        phase-IsSettleable address c p hash (now ∙ ap ok (can_settle-eq phase may))),
    (λ (a, c', p', here, is_c, is_p, usable). (
      proof_generated,
      ap₂ (λ x y. phase_now address x y hash) is_c is_p
          ∙ IsUsable-phase address a c' p' hash here usable,
      refl,
    )),
  )
