-- ===== src/Flow/Withdrawn.antt =====
-- `unshieldConfidentialAsset`: what it has submitted and kept when it returns.
use lumengate.Prelude.{
  ℕ, ◌≡◌, refl, sym, ap, ◌∙◌, false, ◌||◌, none, some, List, ◌<ℤ◌, ltb_ℤ, ℤ, pos,
}
use lumengate.Prelude.Result.{ok, sender_missing, ok_inj}
use Prim.Native.String.{String}
use mathlib.Core.Path.{subst}
use lumengate.Crypto.Poseidon.{Poseidon}
use lumengate.Crypto.Grumpkin.{Curve}
use lumengate.Crypto.Keys.{KeyPair}
use lumengate.Witness.Withdraw.{WithdrawParams}
use lumengate.State.Types.{AccountState}
use lumengate.State.Engine.{WaitOptions, StateEngineConfig, wait_until_verified}
use lumengate.State.Engine.Actions.{lift, bind-eq-ok, passed-eq, value-eq, world-eq}
use lumengate.Product.Amount.{parse_stellar_amount}
use lumengate.Flow.{OnChain, CtTx, FlowConfig, FlowWorld, ask, run, waiting}
use lumengate.Flow.Keys.{resolve_ct_keys, ct_state_engine}
use lumengate.Flow.Settle.{positive_amount, require_account}
use lumengate.Flow.Shield.{
  merge_before_unshield, withdraw_out, unshield, unshield_confidential_asset,
}
use lumengate.Flow.Phases.{positive_amount-range}
use lumengate.Flow.Sent.{require_account-eq}
use lumengate.Flow.Quiet.{
  still, ask-Quiet, submitted-eq, resolve_ct_keys-Quiet, ct_state_engine-Quiet,
}
use lumengate.Flow.Taken.{
  IsMergedFirst, TakenOut, merge_before_unshield-IsMergedFirst, send_withdraw-TakenOut,
}

module _ {Point : Type 0} ⦃P : Poseidon⦄ ⦃C : Curve Point⦄ (cfg : FlowConfig Point) where
  module _ (engine : StateEngineConfig Point) where
    -- The parameters of the withdrawal of an amount out of a state.
    abbrev withdrawal : KeyPair Point → AccountState → ℤ → Point → WithdrawParams Point
    withdrawal keys state amount_raw k_aud_s = record {
      keys = keys;
      v = state.spendable.v;
      r = state.spendable.r;
      amount = amount_raw;
      k_aud_s = k_aud_s;
      sigma = none;
      r_e = none;
    }

    -- The first wait, the merge or nothing, and the withdrawal out of the state behind them, with
    -- the auditor's key that the chain gave for the account.
    pub record Unshielding (keys : KeyPair Point) (amount_raw : ℤ) (hash : String)
        (w w' : FlowWorld Point) : Type 0 where
      pub first : AccountState
      pub w1 : FlowWorld Point
      pub options : WaitOptions
      pub after_none : options.after_tx_hash ≡ none
      pub requires_both : (options.require_receiving || options.require_spendable) ≡ false
      pub synced : options.skip_sync ≡ false
      pub awaited : run (wait_until_verified engine options) w ≡ (ok first, w1)
      pub state : AccountState
      pub after_merge : List (CtTx Point)
      pub merged : IsMergedFirst cfg engine amount_raw first state w.submitted after_merge
      pub own : OnChain Point
      pub own_call : ℕ
      pub own_stored : cfg.confidential_balance own_call cfg.smart_account ≡ ok (some own)
      pub k_aud_s : Point
      pub s_call : ℕ
      pub s_stored : cfg.auditor_key s_call own.auditor_id ≡ ok k_aud_s
      pub taken :
          TakenOut cfg engine amount_raw
            (withdrawal keys state amount_raw k_aud_s)
            hash
            after_merge
            w'

    unshield-Unshielding :
        (keys : KeyPair Point) (amount_raw : ℤ) (w : FlowWorld Point)
        {result : String × List String} {w' : FlowWorld Point}
        → unshield cfg engine keys amount_raw w ≡ (ok result, w')
        → Unshielding keys amount_raw result.0 w w'
    unfolding unshield withdraw_out
    unshield-Unshielding keys amount_raw w {result} {w'} e =
        let options = record (waiting none false false) { allow_rebuild = none } in
        let wait = run (wait_until_verified engine options) in
        let (first, w1, e1, k1) = bind-eq-ok wait _ w e in
        let ((state, hashes), w2, e2, k2) =
          bind-eq-ok (merge_before_unshield cfg engine amount_raw first) _ w1 k1 in
        let take = withdraw_out cfg engine keys amount_raw state in
        let (hash, w7, e3, k3) = bind-eq-ok take _ w2 k2 in
        let is_hash : hash ≡ result.0 = ap (λ x. x.0) (ok_inj (value-eq k3)) in
        let (_, k4) = passed-eq (ltb_ℤ state.spendable.v amount_raw) _ _ w2 e3 in
        let own_balance = ask (λ n. cfg.confidential_balance n cfg.smart_account) in
        let (found, w3, e4, k5) = bind-eq-ok own_balance _ w2 k4 in
        let (own, w4, e5, k6) = bind-eq-ok (require_account sender_missing found) _ w3 k5 in
        let key_s = ask (λ n. cfg.auditor_key n own.auditor_id) in
        let (k_aud_s, w5, e6, k7) = bind-eq-ok key_s _ w4 k6 in
        let (is_own, quiet) = require_account-eq cfg sender_missing found w3 e5 in
        let p = withdrawal keys state amount_raw k_aud_s in
        let same : w5.submitted ≡ w2.submitted =
          submitted-eq key_s w4 (ask-Quiet _) e6
          ∙ quiet
          ∙ submitted-eq own_balance w2 (ask-Quiet _) e4 in
        record {
          first = first;
          w1 = w1;
          options = options;
          after_none = refl;
          requires_both = refl;
          synced = refl;
          awaited = e1;
          state = state;
          after_merge = w2.submitted;
          merged =
              subst (λ l. IsMergedFirst cfg engine amount_raw first state l w2.submitted)
                (submitted-eq wait w (still (λ x. refl)) e1)
                (merge_before_unshield-IsMergedFirst cfg engine amount_raw first w1 e2);
          own = own;
          own_call = w2.engine.calls;
          own_stored = value-eq e4 ∙ ap ok is_own;
          k_aud_s = k_aud_s;
          s_call = w4.engine.calls;
          s_stored = value-eq e6;
          taken =
              subst (λ h. TakenOut cfg engine amount_raw p h w2.submitted w') is_hash
                (subst
                  (λ (x : FlowWorld Point). TakenOut cfg engine amount_raw p hash w2.submitted x)
                  (world-eq k3)
                  (subst (λ l. TakenOut cfg engine amount_raw p hash l w7) same
                    (send_withdraw-TakenOut cfg engine amount_raw p w5 k7)));
        }

  -- What has happened when the withdrawal returns.
  pub record Unshielded (amount : List ℕ) (hash : String) (w w' : FlowWorld Point) : Type 0 where
    pub amount_raw : ℤ
    pub parsed : parse_stellar_amount amount 7 ≡ ok amount_raw
    pub positive : pos 0 <ℤ amount_raw
    pub keys : KeyPair Point
    pub w1 : FlowWorld Point
    pub resolved : resolve_ct_keys cfg w ≡ (ok keys, w1)
    pub engine : StateEngineConfig Point
    pub w2 : FlowWorld Point
    pub made : ct_state_engine cfg w1 ≡ (ok engine, w2)
    pub unsubmitted : w2.submitted ≡ w.submitted
    pub unshielding : Unshielding engine keys amount_raw hash w2 w'

  -- When unshieldConfidentialAsset returns, the amount that the text was read to is positive,
  -- and the transactions that it has submitted are a merge, where the spendable value of the
  -- first wait's state was below the amount and its receiving value positive, or nothing, and
  -- last the withdrawal of exactly that amount, whose hash is returned. The first state is what
  -- waitUntilVerified returned, verified in both balances, before anything was submitted; the
  -- state behind a merge is what it returned behind the merge's hash, the spendable balance
  -- required. The withdrawal's witness was built for exactly that amount, the keys that
  -- resolveCtKeys returned, the spendable opening of the last of these states and the auditor's
  -- key that the chain gave for the account, and the proof is one of its inputs. What is left
  -- of the spendable value is not negative, and the state saved last has, as its spendable
  -- opening, that value with the witness's next blinding, which opens the new commitment of the
  -- payload.
  pub unshield_confidential_asset-Unshielded :
      (amount : List ℕ) (w : FlowWorld Point) {result : String × List String} {w' : FlowWorld Point}
      → unshield_confidential_asset cfg amount w ≡ (ok result, w')
      → Unshielded amount result.0 w w'
  unfolding unshield_confidential_asset
  unshield_confidential_asset-Unshielded amount w {result} {w'} e =
      let (amount_raw, w1, e1, k1) = bind-eq-ok (lift (positive_amount amount)) _ w e in
      let (parsed, positive) = positive_amount-range amount amount_raw (value-eq e1) in
      let (keys, w2, e2, k2) = bind-eq-ok (resolve_ct_keys cfg) _ w1 k1 in
      let (engine, w3, e3, k3) = bind-eq-ok (ct_state_engine cfg) _ w2 k2 in
      let quiet3 : w3.submitted ≡ w.submitted =
        submitted-eq _ w2 (ct_state_engine-Quiet cfg) e3
        ∙ submitted-eq _ w1 (resolve_ct_keys-Quiet cfg) e2
        ∙ ap (λ (x : FlowWorld Point). x.submitted) (sym (world-eq e1)) in
      record {
        amount_raw = amount_raw;
        parsed = parsed;
        positive = positive;
        keys = keys;
        w1 = w2;
        resolved = ap (resolve_ct_keys cfg) (world-eq e1) ∙ e2;
        engine = engine;
        w2 = w3;
        made = e3;
        unsubmitted = quiet3;
        unshielding = unshield-Unshielding engine keys amount_raw w3 k3;
      }
