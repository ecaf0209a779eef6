-- ===== src/Flow/Paid.antt =====
-- `executeConfidentialSettlement`: what it has submitted and kept when it returns.
use lumengate.Prelude.{ℕ, ◌≡◌, sym, ap, ◌∙◌, not, none, some, List, ◌<ℤ◌, ltb_ℤ, ℤ, pos}
use lumengate.Prelude.Result.{ok, recipient_unreadable, sender_missing, ok_inj}
use Prim.Native.String.{String}
use mathlib.Core.Path.{subst}
use lumengate.Crypto.Poseidon.{Poseidon}
use lumengate.Crypto.Grumpkin.{Curve}
use lumengate.Crypto.Keys.{KeyPair}
use lumengate.Witness.Transfer.{TransferParams}
use lumengate.State.Types.{AccountState}
use lumengate.State.Engine.{StateEngineConfig}
use lumengate.State.Engine.Actions.{lift, bind-eq-ok, passed-eq, value-eq, world-eq}
use lumengate.Product.Amount.{parse_stellar_amount}
use lumengate.Flow.{CtTx, OnChain, FlowConfig, FlowWorld, ask}
use lumengate.Flow.Keys.{read_ct_registered, resolve_ct_keys, ct_state_engine, ensure_registered}
use lumengate.Flow.Settle.{
  Phase, positive_amount, require_account, recipient_account, read_spendable, cover_amount,
  consolidate, transfer_out, settle, execute_confidential_settlement,
}
use lumengate.Flow.Phases.{
  IsCovered, IsMerged, positive_amount-range, read_spendable-Quiet, read_spendable-IsRead,
  cover_amount-IsCovered, consolidate-IsMerged,
}
use lumengate.Flow.Registered.{IsRegistered, ensure_registered-IsRegistered}
use lumengate.Flow.Awaited.{IsRead}
use lumengate.Flow.Quiet.{
  ask-Quiet, submitted-eq, read_ct_registered-Quiet, resolve_ct_keys-Quiet, ct_state_engine-Quiet,
}
use lumengate.Flow.Sent.{SentOut, send_transfer-SentOut, require_account-eq}

module _ {Point : Type 0} ⦃P : Poseidon⦄ ⦃C : Curve Point⦄ (cfg : FlowConfig Point) where
  -- The account of the recipient is the answer of a call.
  recipient_account-stored :
      (recipient : String) (w : FlowWorld Point) {account : OnChain Point} {w' : FlowWorld Point}
      → recipient_account cfg recipient w ≡ (ok account, w')
      → ((call : ℕ) × (cfg.confidential_balance call recipient ≡ ok (some account)))
        × (w'.submitted ≡ w.submitted)
  unfolding recipient_account
  recipient_account-stored recipient w {account} {w'} e =
      let (registered, w1, e1, k1) = bind-eq-ok (read_ct_registered cfg recipient) _ w e in
      let (_, k) = passed-eq (not registered) _ _ w1 k1 in
      let (found, w2, e2, k2) =
        bind-eq-ok (ask (λ n. cfg.confidential_balance n recipient)) _ w1 k in
      let (is_account, quiet) = require_account-eq cfg recipient_unreadable found w2 k2 in
      (
        (w1.engine.calls, value-eq e2 ∙ ap ok is_account),
        quiet
            ∙ submitted-eq _ w1 (ask-Quiet (λ n. cfg.confidential_balance n recipient)) e2
            ∙ submitted-eq _ w (read_ct_registered-Quiet cfg recipient) e1,
      )

  module _ (engine : StateEngineConfig Point) where
    -- The parameters of the payment of an amount out of a state to an account.
    abbrev payment :
        KeyPair Point → AccountState → ℤ → OnChain Point → Point → Point → TransferParams Point
    payment keys state amount_raw account k_aud_r k_aud_s = record {
      keys = keys;
      v = state.spendable.v;
      r = state.spendable.r;
      amount = amount_raw;
      pvk_b = account.viewing_public_key;
      k_aud_r = k_aud_r;
      k_aud_s = k_aud_s;
      sigma = none;
      r_e = none;
    }

    -- The payment was sent, with the auditors' keys that the chain gave for the account and for the
    -- sender's own.
    pub record PaidOut (keys : KeyPair Point) (recipient : String) (account : OnChain Point)
        (amount_raw : ℤ) (state : AccountState) (hash : String) (earlier : List (CtTx Point))
        (w' : FlowWorld Point) : Type 0 where
      pub own : OnChain Point
      pub own_call : ℕ
      pub own_stored : cfg.confidential_balance own_call cfg.smart_account ≡ ok (some own)
      pub k_aud_r : Point
      pub r_call : ℕ
      pub r_stored : cfg.auditor_key r_call account.auditor_id ≡ ok k_aud_r
      pub k_aud_s : Point
      pub s_call : ℕ
      pub s_stored : cfg.auditor_key s_call own.auditor_id ≡ ok k_aud_s
      pub sent_out :
          SentOut cfg engine recipient
            (payment keys state amount_raw account k_aud_r k_aud_s)
            hash
            earlier
            w'

    transfer_out-PaidOut :
        (keys : KeyPair Point) (recipient : String) (account : OnChain Point) (amount_raw : ℤ)
        (state : AccountState) (w : FlowWorld Point) {hash : String} {w' : FlowWorld Point}
        → transfer_out cfg engine keys recipient account amount_raw state w ≡ (ok hash, w')
        → PaidOut keys recipient account amount_raw state hash w.submitted w'
    unfolding transfer_out
    transfer_out-PaidOut keys recipient account amount_raw state w {hash} {w'} e =
        let (_, k) = passed-eq (ltb_ℤ state.spendable.v amount_raw) _ _ w e in
        let own_balance = ask (λ n. cfg.confidential_balance n cfg.smart_account) in
        let (found, w1, e1, k1) = bind-eq-ok own_balance _ w k in
        let (own, w2, e2, k2) = bind-eq-ok (require_account sender_missing found) _ w1 k1 in
        let key_r = ask (λ n. cfg.auditor_key n account.auditor_id) in
        let (k_aud_r, w3, e3, k3) = bind-eq-ok key_r _ w2 k2 in
        let key_s = ask (λ n. cfg.auditor_key n own.auditor_id) in
        let (k_aud_s, w4, e4, k4) = bind-eq-ok key_s _ w3 k3 in
        let p = payment keys state amount_raw account k_aud_r k_aud_s in
        let (is_own, quiet) = require_account-eq cfg sender_missing found w1 e2 in
        let same : w4.submitted ≡ w.submitted =
          submitted-eq key_s w3 (ask-Quiet _) e4
          ∙ submitted-eq key_r w2 (ask-Quiet _) e3
          ∙ quiet
          ∙ submitted-eq own_balance w (ask-Quiet _) e1 in
        record {
          own = own;
          own_call = w.engine.calls;
          own_stored = value-eq e1 ∙ ap ok is_own;
          k_aud_r = k_aud_r;
          r_call = w2.engine.calls;
          r_stored = value-eq e3;
          k_aud_s = k_aud_s;
          s_call = w3.engine.calls;
          s_stored = value-eq e4;
          sent_out =
              subst (λ l. SentOut cfg engine recipient p hash l w') same
                (send_transfer-SentOut cfg engine recipient p w4 k4);
        }

  -- From the recipient's account on: what stands behind each phase, and the payment out of the state
  -- of the last one.
  pub record Delivered (keys : KeyPair Point) (engine : StateEngineConfig Point)
      (recipient : String) (amount_raw : ℤ) (hash : String) (earlier : List (CtTx Point))
      (w' : FlowWorld Point) : Type 0 where
    pub call : ℕ
    pub account : OnChain Point
    pub stored : cfg.confidential_balance call recipient ≡ ok (some account)
    pub read : Phase
    pub is_read : IsRead cfg engine read earlier
    pub covered : Phase
    pub after_deposit : List (CtTx Point)
    pub funded : IsCovered cfg engine amount_raw read covered earlier after_deposit
    pub ready : Phase
    pub after_merge : List (CtTx Point)
    pub consolidated : IsMerged cfg engine amount_raw covered ready after_deposit after_merge
    pub paid : PaidOut engine keys recipient account amount_raw ready.state hash after_merge w'

  settle-Delivered :
      (engine : StateEngineConfig Point) (keys : KeyPair Point) (recipient : String)
      (amount_raw : ℤ) (hashes : List String) (w : FlowWorld Point) {result : String × List String}
      {w' : FlowWorld Point}
      → settle cfg engine keys recipient amount_raw hashes w ≡ (ok result, w')
      → Delivered keys engine recipient amount_raw result.0 w.submitted w'
  unfolding settle
  settle-Delivered engine keys recipient amount_raw hashes w {result} {w'} e =
      let (account, w1, e1, k1) = bind-eq-ok (recipient_account cfg recipient) _ w e in
      let (read, w2, e2, k2) = bind-eq-ok (read_spendable cfg engine hashes) _ w1 k1 in
      let (covered, w3, e3, k3) = bind-eq-ok (cover_amount cfg engine amount_raw read) _ w2 k2 in
      let (ready, w4, e4, k4) = bind-eq-ok (consolidate cfg engine amount_raw covered) _ w3 k3 in
      let pay = transfer_out cfg engine keys recipient account amount_raw ready.state in
      let (hash, w5, e5, k5) = bind-eq-ok pay _ w4 k4 in
      let is_hash : hash ≡ result.0 = ap (λ x. x.0) (ok_inj (value-eq k5)) in
      let (stored, quiet1) = recipient_account-stored recipient w e1 in
      let quiet2 = submitted-eq _ w1 (read_spendable-Quiet cfg engine hashes) e2 in
      record {
        call = stored.0;
        account = account;
        stored = stored.1;
        read = read;
        is_read =
            subst (λ l. IsRead cfg engine read l) quiet1
              (read_spendable-IsRead cfg engine hashes w1 e2);
        covered = covered;
        after_deposit = w3.submitted;
        funded =
            subst (λ l. IsCovered cfg engine amount_raw read covered l w3.submitted)
              (quiet2 ∙ quiet1) (cover_amount-IsCovered cfg engine amount_raw read w2 e3);
        ready = ready;
        after_merge = w4.submitted;
        consolidated = consolidate-IsMerged cfg engine amount_raw covered w3 e4;
        paid =
            subst
              (λ h. PaidOut engine keys recipient account amount_raw ready.state h w4.submitted w')
              is_hash
              (subst
                (λ (x : FlowWorld Point).
                  PaidOut engine keys recipient account amount_raw ready.state hash w4.submitted x)
                (world-eq k5)
                (transfer_out-PaidOut engine keys recipient account amount_raw ready.state w4 e5));
      }

  -- What has happened when the settlement returns.
  pub record Settled (recipient : String) (amount : List ℕ) (hash : String) (w w' : FlowWorld Point)
      : Type 0 where
    pub amount_raw : ℤ
    pub parsed : parse_stellar_amount amount 7 ≡ ok amount_raw
    pub positive : pos 0 <ℤ amount_raw
    pub keys : KeyPair Point
    pub w1 : FlowWorld Point
    pub resolved : resolve_ct_keys cfg w ≡ (ok keys, w1)
    pub engine : StateEngineConfig Point
    pub w2 : FlowWorld Point
    pub made : ct_state_engine cfg w1 ≡ (ok engine, w2)
    pub after_register : List (CtTx Point)
    pub registered : IsRegistered cfg keys w.submitted after_register
    pub delivered : Delivered keys engine recipient amount_raw hash after_register w'

  -- When executeConfidentialSettlement returns, the amount that the text was read to is
  -- positive, and the transactions that it has submitted are, in this order: the registration
  -- of the account, or nothing; a deposit of what the spendable value and the verified
  -- receiving value of a reading leave open of the amount, where that is positive, or nothing;
  -- a merge, where the spendable value was still below the amount and the receiving balance
  -- verified, or nothing; and last the transfer to the recipient, whose hash is returned. The
  -- reading is what reconcileForRead returned, its spendable balance verified, when only the
  -- registration had been submitted, and the state behind a deposit or a merge is what
  -- waitUntilVerified returned behind the hash of that transaction. The transfer's witness was
  -- built for exactly that amount, the keys that resolveCtKeys returned, the spendable opening
  -- of the last of these states, the viewing key that the chain gave for the recipient and the
  -- auditors' keys that it gave for the recipient's and the sender's account, and the proof is
  -- one of its inputs. What is left of the spendable value is not negative, and the state saved
  -- last has, as its spendable opening, that value with the witness's next blinding, which
  -- opens the new commitment of the payload.
  pub execute_confidential_settlement-Settled :
      (recipient : String) (amount : List ℕ) (w : FlowWorld Point) {result : String × List String}
      {w' : FlowWorld Point}
      → execute_confidential_settlement cfg recipient amount w ≡ (ok result, w')
      → Settled recipient amount result.0 w w'
  unfolding execute_confidential_settlement
  execute_confidential_settlement-Settled recipient amount w {result} {w'} e =
      let (amount_raw, w1, e1, k1) = bind-eq-ok (lift (positive_amount amount)) _ w e in
      let (parsed, positive) = positive_amount-range amount amount_raw (value-eq e1) in
      let (keys, w2, e2, k2) = bind-eq-ok (resolve_ct_keys cfg) _ w1 k1 in
      let (engine, w3, e3, k3) = bind-eq-ok (ct_state_engine cfg) _ w2 k2 in
      let (hashes, w4, e4, k4) = bind-eq-ok (ensure_registered cfg keys) _ w3 k3 in
      let quiet3 : w3.submitted ≡ w.submitted =
        submitted-eq _ w2 (ct_state_engine-Quiet cfg) e3
        ∙ submitted-eq _ w1 (resolve_ct_keys-Quiet cfg) e2
        ∙ ap (λ (x : FlowWorld Point). x.submitted) (sym (world-eq e1)) in
      record {
        amount_raw = amount_raw;
        parsed = parsed;
        positive = positive;
        keys = keys;
        w1 = w2;
        resolved = ap (resolve_ct_keys cfg) (world-eq e1) ∙ e2;
        engine = engine;
        w2 = w3;
        made = e3;
        after_register = w4.submitted;
        registered =
            subst (λ l. IsRegistered cfg keys l w4.submitted) quiet3
              (ensure_registered-IsRegistered cfg keys w3 e4);
        delivered = settle-Delivered engine keys recipient amount_raw hashes w4 k4;
      }
