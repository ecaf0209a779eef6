-- ===== src/Flow/Taken.antt =====
-- The parts of `unshieldConfidentialAsset`: the merge before it, and the withdrawal that is sent.
use lumengate.Prelude.{
  ℕ, ◌≡◌, refl, sym, ap, ◌∙◌, ◌⊎◌, inl, inr, Bool, true, false, not, ◌&&◌, some, List, arith, ◌-ℤ◌,
  ◌≤ℤ◌, ◌<ℤ◌, ltb_ℤ, ℤ, pos,
}
use lumengate.Prelude.Result.{ok, ok_inj}
use Prim.Native.String.{String}
use mathlib.Core.Path.{subst}
use lumengate.Crypto.Poseidon.{Poseidon}
use lumengate.Crypto.Grumpkin.{Curve, commit}
use lumengate.Witness.Withdraw.{
  WithdrawParams, WithdrawWitness, withdraw_witness, build_withdraw_witness,
}
use lumengate.Witness.Withdraw.Laws.{BuiltWithdraw-of_ok}
use lumengate.State.Types.{Opening, AccountState}
use lumengate.State.Engine.{StateEngineConfig, set_spendable}
use lumengate.State.Engine.Actions.{lift, bind-eq-ok, if-eq, value-eq, world-eq}
use lumengate.Flow.{CtTx, merge_tx, withdraw_tx, FlowConfig, FlowWorld, run, submit_tx, waiting}
use lumengate.Flow.Settle.{opening_of}
use lumengate.Flow.Shield.{merge_before_unshield, build_withdraw, send_withdraw, await}
use lumengate.Flow.Phases.{below_of}
use lumengate.Flow.Awaited.{IsSent, submit_tx-IsSent, IsAwaited}
use lumengate.Flow.Sent.{IsKept, set_spendable-IsKept}
use lumengate.Flow.Quiet.{still, submitted-eq}

above_of : (v : ℤ) (b : Bool) → not (b && ltb_ℤ (pos 0) v) ≡ false → pos 0 <ℤ v
above_of v b h = ground arith

module _ {Point : Type 0} ⦃P : Poseidon⦄ ⦃C : Curve Point⦄ (cfg : FlowConfig Point) where
  module _ (engine : StateEngineConfig Point) where
    -- The state is the one before, or the spendable value was too small and a receiving value was
    -- merged into it, and the state is what the wait behind that returned.
    abbrev pub IsMergedFirst :
        ℤ → AccountState → AccountState → List (CtTx Point) → List (CtTx Point) → Type 0
    IsMergedFirst amount_raw first state old new =
        ((state ≡ first) × (new ≡ old))
        ⊎ ((first.spendable.v <ℤ amount_raw)
            × (pos 0 <ℤ first.receiving.v)
            × (hash : String) × IsSent cfg (merge_tx cfg.smart_account) hash old new
            × IsAwaited cfg engine (some hash) false true state new)

    pub merge_before_unshield-IsMergedFirst :
        (amount_raw : ℤ) (first : AccountState) (w : FlowWorld Point)
        {result : AccountState × List String} {w' : FlowWorld Point}
        → merge_before_unshield cfg engine amount_raw first w ≡ (ok result, w')
        → IsMergedFirst amount_raw first result.0 w.submitted w'.submitted
    unfolding merge_before_unshield
    merge_before_unshield-IsMergedFirst amount_raw first w {result} {w'} e =
        let needed = ltb_ℤ first.spendable.v amount_raw && ltb_ℤ (pos 0) first.receiving.v in
        let merge : CtTx Point = merge_tx cfg.smart_account in
        elim (if-eq (not needed) _ _ w e) [
          | inl (_, k) ↦ inl (
            ap (λ x. x.0) (sym (ok_inj (value-eq k))),
            ap (λ (x : FlowWorld Point). x.submitted) (sym (world-eq k)),
          )
          | inr (both, k) ↦
              let (hash, w1, e1, k1) = bind-eq-ok (submit_tx cfg merge) _ w k in
              let wait = await cfg engine (some hash) false true in
              let (merged, w2, e2, k2) = bind-eq-ok wait _ w1 k1 in
              let same : w'.submitted ≡ w1.submitted =
                ap (λ (x : FlowWorld Point). x.submitted) (sym (world-eq k2))
                ∙ submitted-eq wait w1 (still (λ x. refl)) e2 in
              let is_state : merged ≡ result.0 = ap (λ x. x.0) (ok_inj (value-eq k2)) in
              inr (
                below_of first.spendable.v amount_raw (ltb_ℤ (pos 0) first.receiving.v) both,
                above_of first.receiving.v (ltb_ℤ first.spendable.v amount_raw) both,
                hash,
                subst (λ l. IsSent cfg merge hash w.submitted l) (sym same)
                    (submit_tx-IsSent cfg merge w e1),
                record {
                  before = w1;
                  later_world = w2;
                  options = waiting (some hash) false true;
                  after_tx = refl;
                  has_url = refl;
                  requires_receiving = refl;
                  requires_spendable = refl;
                  synced = refl;
                  then_submitted = sym same;
                  returned = e2 ∙ ap (λ x. (ok x, w2)) is_state;
                },
              )
        ]

    -- The withdrawal of the parameters was submitted, and its next opening kept.
    pub record TakenOut (amount_raw : ℤ) (p : WithdrawParams Point) (hash : String)
        (earlier : List (CtTx Point)) (w' : FlowWorld Point) : Type 0 where
      pub draw : ℕ
      pub witness : WithdrawWitness Point
      pub proof : List ℕ
      pub built : build_withdraw_witness p (cfg.random draw 0) (cfg.random draw 1) ≡ ok witness
      pub proved : cfg.prove "withdraw" witness.inputs ≡ ok proof
      pub sent :
          IsSent cfg
            (withdraw_tx cfg.smart_account cfg.smart_account amount_raw witness proof)
            hash
            earlier
            w'.submitted
      pub covered : pos 0 ≤ℤ p.v -ℤ p.amount
      pub kept : IsKept cfg engine (record { v = p.v -ℤ p.amount; r = witness.next.r }) w'
      pub opens : witness.payload.c_spend_new ≡ commit (p.v -ℤ p.amount) witness.next.r

    next_opens :
        (p : WithdrawParams Point) (salt scalar : ℤ) (w : WithdrawWitness Point)
        → build_withdraw_witness p salt scalar ≡ ok w
        → (pos 0 ≤ℤ p.v -ℤ p.amount)
          × (opening_of w.next ≡ record { v = p.v -ℤ p.amount; r = w.next.r })
          × (w.payload.c_spend_new ≡ commit (p.v -ℤ p.amount) w.next.r)
    unfolding withdraw_witness
    next_opens p salt scalar w h =
        let b = BuiltWithdraw-of_ok p salt scalar w h in
        (
          b.covered,
          subst
              (λ (x : WithdrawWitness Point).
                opening_of x.next ≡ record { v = p.v -ℤ p.amount; r = x.next.r })
              (sym b.result) refl,
          subst
              (λ (x : WithdrawWitness Point).
                x.payload.c_spend_new ≡ commit (p.v -ℤ p.amount) x.next.r)
              (sym b.result) refl,
        )

    pub send_withdraw-TakenOut :
        (amount_raw : ℤ) (p : WithdrawParams Point) (w : FlowWorld Point) {hash : String}
        {w' : FlowWorld Point}
        → send_withdraw cfg engine amount_raw p w ≡ (ok hash, w')
        → TakenOut amount_raw p hash w.submitted w'
    unfolding send_withdraw
    send_withdraw-TakenOut amount_raw p w {hash} {w'} e =
        let salt = cfg.random w.engine.calls 0 in
        let scalar = cfg.random w.engine.calls 1 in
        let (witness, w1, e1, k1) = bind-eq-ok (build_withdraw cfg engine p) _ w e in
        let (proof, w2, e2, k2) = bind-eq-ok (lift (cfg.prove "withdraw" witness.inputs)) _ w1 k1 in
        let tx : CtTx Point =
          withdraw_tx cfg.smart_account cfg.smart_account amount_raw witness proof in
        let (hash', w3, e3, k3) = bind-eq-ok (submit_tx cfg tx) _ w2 k2 in
        let keep = run (set_spendable engine (opening_of witness.next)) in
        let (s, w4, e4, k4) = bind-eq-ok keep _ w3 k3 in
        let built = value-eq e1 in
        let left : Opening = record { v = p.v -ℤ p.amount; r = witness.next.r } in
        let (covered, next, opens) = next_opens p salt scalar witness built in
        let saved = set_spendable-IsKept cfg engine (opening_of witness.next) w3 e4 in
        let before = ap (λ (x : FlowWorld Point). x.submitted) (world-eq e1 ∙ world-eq e2) in
        let is_hash : hash' ≡ hash = ok_inj (value-eq k4) in
        let later : w3.submitted ≡ w'.submitted =
          sym (submitted-eq keep w3 (still (λ x. refl)) e4)
          ∙ ap (λ (x : FlowWorld Point). x.submitted) (world-eq k4) in
        record {
          draw = w.engine.calls;
          witness = witness;
          proof = proof;
          built = built;
          proved = value-eq e2;
          sent =
              subst (λ h. IsSent cfg tx h w.submitted w'.submitted) is_hash
                (subst (λ l. IsSent cfg tx hash' l w'.submitted) (sym before)
                  (subst (λ l. IsSent cfg tx hash' w2.submitted l) later
                    (submit_tx-IsSent cfg tx w2 e3)));
          covered = covered;
          kept =
              subst (λ (x : FlowWorld Point). IsKept cfg engine left x) (world-eq k4)
                (subst (λ o. IsKept cfg engine o w4) next saved);
          opens = opens;
        }
