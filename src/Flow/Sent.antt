-- ===== src/Flow/Sent.antt =====
-- The last step of `executeConfidentialSettlement`: the transfer that is sent, and the opening kept.
use lumengate.Prelude.{
  ℕ, ◌≡◌, refl, sym, ap, ◌∙◌, Option, none, some, List, if◌then◌else◌, ◌-ℤ◌, ◌≤ℤ◌, ℤ, pos,
}
use lumengate.Prelude.Result.{Error, ok, ok_inj}
use Prim.Native.String.{String}
use mathlib.Core.Path.{subst}
use text.Mathlib.TextEquality.{eq_iff}
use lumengate.Crypto.Poseidon.{Poseidon}
use lumengate.Crypto.Grumpkin.{Curve, commit}
use lumengate.Witness.Transfer.{
  TransferParams, TransferWitness, transfer_witness, build_transfer_witness,
}
use lumengate.Witness.Transfer.Built.{Built-of_ok}
use lumengate.State.Types.{Opening, AccountState, load, save}
use lumengate.State.Engine.{StateEngineConfig, current_state, current, set_spendable}
use lumengate.State.Engine.Saved.{load-put}
use lumengate.State.Engine.Actions.{lift, bind-eq-ok, value-eq, world-eq}
use lumengate.Flow.{CtTx, transfer_tx, OnChain, FlowConfig, FlowWorld, run, submit_tx}
use lumengate.Flow.Settle.{require_account, opening_of, build_transfer, send_transfer}
use lumengate.Flow.Awaited.{IsSent, submit_tx-IsSent}
use lumengate.Flow.Quiet.{still, submitted-eq}

module _ {Point : Type 0} ⦃P : Poseidon⦄ ⦃C : Curve Point⦄ (cfg : FlowConfig Point) where
  module _ (engine : StateEngineConfig Point) where
    -- What was saved last has the opening.
    abbrev pub IsKept : Opening → FlowWorld Point → Type 0
    IsKept next w =
        (s : AccountState) × (load s.address w.engine.store ≡ some s) × (s.spendable ≡ next)

    pub set_spendable-IsKept :
        (next : Opening) (w : FlowWorld Point) {s : AccountState} {w' : FlowWorld Point}
        → run (set_spendable engine next) w ≡ (ok s, w')
        → IsKept next w'
    unfolding set_spendable current save
    set_spendable-IsKept next w {s} {w'} e =
        let old = current_state engine w.engine in
        let new : AccountState = record old { spendable = next } in
        let found : load new.address (save new w.engine.store) ≡ some new =
          load-put new.address new.address new w.engine.store
          ∙ ap (λ b. if b then some new else load new.address w.engine.store)
              ((eq_iff new.address new.address).1 refl) in
        subst (λ (x : FlowWorld Point). IsKept next x) (world-eq e) (new, found, refl)

    -- The transfer of the parameters was submitted, and its next opening kept.
    pub record SentOut (recipient : String) (p : TransferParams Point) (hash : String)
        (earlier : List (CtTx Point)) (w' : FlowWorld Point) : Type 0 where
      pub draw : ℕ
      pub witness : TransferWitness Point
      pub proof : List ℕ
      pub built : build_transfer_witness p (cfg.random draw 0) ≡ ok witness
      pub proved : cfg.prove "transfer" witness.inputs ≡ ok proof
      pub sent :
          IsSent cfg
            (transfer_tx cfg.smart_account recipient witness proof)
            hash
            earlier
            w'.submitted
      pub covered : pos 0 ≤ℤ p.v -ℤ p.amount
      pub kept : IsKept (record { v = p.v -ℤ p.amount; r = witness.next.r }) w'
      pub opens : witness.payload.c_spend_new ≡ commit (p.v -ℤ p.amount) witness.next.r

    next_opens :
        (p : TransferParams Point) (salt : ℤ) (w : TransferWitness Point)
        → build_transfer_witness p salt ≡ ok w
        → (pos 0 ≤ℤ p.v -ℤ p.amount)
          × (opening_of w.next ≡ record { v = p.v -ℤ p.amount; r = w.next.r })
          × (w.payload.c_spend_new ≡ commit (p.v -ℤ p.amount) w.next.r)
    unfolding transfer_witness
    next_opens p salt w h =
        let b = Built-of_ok p salt w h in
        (
          b.covered,
          subst
              (λ (x : TransferWitness Point).
                opening_of x.next ≡ record { v = p.v -ℤ p.amount; r = x.next.r })
              (sym b.result) refl,
          subst
              (λ (x : TransferWitness Point).
                x.payload.c_spend_new ≡ commit (p.v -ℤ p.amount) x.next.r)
              (sym b.result) refl,
        )

    pub send_transfer-SentOut :
        (recipient : String) (p : TransferParams Point) (w : FlowWorld Point) {hash : String}
        {w' : FlowWorld Point}
        → send_transfer cfg engine recipient p w ≡ (ok hash, w')
        → SentOut recipient p hash w.submitted w'
    unfolding send_transfer
    send_transfer-SentOut recipient p w {hash} {w'} e =
        let salt = cfg.random w.engine.calls 0 in
        let (witness, w1, e1, k1) = bind-eq-ok (build_transfer cfg engine p) _ w e in
        let (proof, w2, e2, k2) = bind-eq-ok (lift (cfg.prove "transfer" witness.inputs)) _ w1 k1 in
        let tx : CtTx Point = transfer_tx cfg.smart_account recipient witness proof in
        let (hash', w3, e3, k3) = bind-eq-ok (submit_tx cfg tx) _ w2 k2 in
        let keep = run (set_spendable engine (opening_of witness.next)) in
        let (s, w4, e4, k4) = bind-eq-ok keep _ w3 k3 in
        let built = value-eq e1 in
        let left : Opening = record { v = p.v -ℤ p.amount; r = witness.next.r } in
        let (covered, next, opens) = next_opens p salt witness built in
        let saved = set_spendable-IsKept (opening_of witness.next) w3 e4 in
        let before = ap (λ (x : FlowWorld Point). x.submitted) (world-eq e1 ∙ world-eq e2) in
        let is_hash : hash' ≡ hash = ok_inj (value-eq k4) in
        let later : w3.submitted ≡ w'.submitted =
          sym (submitted-eq keep w3 (still (λ x. refl)) e4)
          ∙ ap (λ (x : FlowWorld Point). x.submitted) (world-eq k4) in
        record {
          draw = w.engine.calls;
          witness = witness;
          proof = proof;
          built = built;
          proved = value-eq e2;
          sent =
              subst (λ h. IsSent cfg tx h w.submitted w'.submitted) is_hash
                (subst (λ l. IsSent cfg tx hash' l w'.submitted) (sym before)
                  (subst (λ l. IsSent cfg tx hash' w2.submitted l) later
                    (submit_tx-IsSent cfg tx w2 e3)));
          covered = covered;
          kept =
              subst (λ (x : FlowWorld Point). IsKept left x) (world-eq k4)
                (subst (λ o. IsKept o w4) next saved);
          opens = opens;
        }

  pub require_account-eq :
      (e : Error) (found : Option (OnChain Point)) (w : FlowWorld Point) {account : OnChain Point}
      {w' : FlowWorld Point}
      → require_account e found w ≡ (ok account, w')
      → (found ≡ some account) × (w'.submitted ≡ w.submitted)
  require_account-eq e none w h = cc (value-eq h)
  require_account-eq e (some a) w h =
      (ap some (ok_inj (value-eq h)), ap (λ (x : FlowWorld Point). x.submitted) (sym (world-eq h)))
