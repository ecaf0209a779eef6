-- ===== src/Flow/Registered.antt =====
-- The registration phase of `executeConfidentialSettlement`.
use lumengate.Prelude.{ℕ, ◌≡◌, refl, sym, ap, ◌∙◌, ◌⊎◌, inl, inr, List, [], ◌∷◌}
use lumengate.Prelude.Result.{ok}
use Prim.Native.String.{String}
use lumengate.Crypto.Poseidon.{Poseidon}
use lumengate.Crypto.Grumpkin.{Curve}
use lumengate.Crypto.Keys.{KeyPair}
use lumengate.Witness.Register.{build_register_witness}
use lumengate.State.Engine.Actions.{pure, lift, ◌>>◌, bind-eq-ok, if-eq, world-eq}
use lumengate.Flow.{CtTx, register_tx, FlowConfig, FlowWorld}
use lumengate.Flow.Keys.{
  read_ct_registered, ensure_registered, send_register, mark_registered_locally,
  initialize_ct_state_from_events,
}
use lumengate.Flow.Quiet.{
  Quiet, still, bind-Quiet, pure-Quiet, submitted-eq, submit_tx-submitted, read_ct_registered-Quiet,
  initialize-Quiet,
}

module _ {Point : Type 0} ⦃P : Poseidon⦄ ⦃C : Curve Point⦄ (cfg : FlowConfig Point) where
  -- Nothing, or the registration, was submitted.
  abbrev pub IsRegistered : KeyPair Point → List (CtTx Point) → List (CtTx Point) → Type 0
  IsRegistered keys old new =
      (new ≡ old)
      ⊎ ((proof : List ℕ) × (new
            ≡ register_tx cfg.smart_account cfg.auditor_id_num (build_register_witness keys) proof
              ∷ old))

  pub ensure_registered-IsRegistered :
      (keys : KeyPair Point) (w : FlowWorld Point) {hashes : List String} {w' : FlowWorld Point}
      → ensure_registered cfg keys w ≡ (ok hashes, w')
      → IsRegistered keys w.submitted w'.submitted
  unfolding ensure_registered
  ensure_registered-IsRegistered keys w {hashes} {w'} e =
      let (registered, w1, e1, k1) = bind-eq-ok (read_ct_registered cfg cfg.smart_account) _ w e in
      let quiet1 = submitted-eq _ w (read_ct_registered-Quiet cfg cfg.smart_account) e1 in
      elim (if-eq registered _ _ w1 k1) [
        | inl (_, k) ↦ inl (ap (λ (x : FlowWorld Point). x.submitted) (sym (world-eq k)) ∙ quiet1)
        | inr (_, k) ↦
            let (hash, w2, e2, k2) = bind-eq-ok (send_register cfg keys) _ w1 k in
            let witness = build_register_witness keys in
            let (proof, w3, e3, k3) =
              bind-eq-ok (lift (cfg.prove "register" witness.inputs)) _ w1 e2 in
            let tx : CtTx Point = register_tx cfg.smart_account cfg.auditor_id_num witness proof in
            let tail : Quiet (
                mark_registered_locally
                >> (initialize_ct_state_from_events cfg >> pure (hash ∷ []))) =
              bind-Quiet mark_registered_locally (still (λ x. refl)) (λ u.
                bind-Quiet (initialize_ct_state_from_events cfg) (initialize-Quiet cfg)
                  (λ v. pure-Quiet (hash ∷ []))) in
            let before = ap (λ (x : FlowWorld Point). x.submitted) (sym (world-eq e3)) in
            inr (
              proof,
              submitted-eq _ w2 tail k2
                  ∙ submit_tx-submitted cfg tx w3 k3
                  ∙ ap (λ l. tx ∷ l) (before ∙ quiet1),
            )
      ]
