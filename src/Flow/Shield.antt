-- ===== src/Flow/Shield.antt =====
-- `shieldConfidentialAsset`, `mergeConfidentialAsset` and `unshieldConfidentialAsset` of
-- confidentialFlow.ts.
use lumengate.Prelude.{
  ℕ, Bool, true, false, not, ◌&&◌, Option, none, some, List, [], ◌∷◌, ◌++◌, if◌then◌else◌, ltb_ℤ, ℤ,
  pos,
}
use lumengate.Prelude.Result.{
  receiving_syncing, insufficient, sender_missing, nothing_to_merge, nothing_shielded,
  shield_mismatch,
}
use Prim.Native.String.{String}
use lumengate.Crypto.Poseidon.{Poseidon}
use lumengate.Crypto.Grumpkin.{Curve}
use lumengate.Crypto.Keys.{KeyPair}
use lumengate.Witness.Withdraw.{WithdrawParams, WithdrawWitness, build_withdraw_witness}
use lumengate.State.Types.{AccountState}
use lumengate.State.Engine.{
  StateEngineConfig, Verified, wait_until_verified, verify_against_chain, set_spendable,
}
use lumengate.State.Engine.Reconcile.{reconcile_for_read}
use lumengate.State.Engine.Actions.{Step, pure, raise, lift, ◌>>=◌, ◌>>◌}
use lumengate.Flow.{
  deposit_tx, merge_tx, withdraw_tx, FlowConfig, FlowWorld, ask, run, submit_tx, waiting,
}
use lumengate.Flow.Keys.{resolve_ct_keys, ct_state_engine, ensure_registered}
use lumengate.Flow.Settle.{positive_amount, require_account, has_receiving, opening_of}

module _ {Point : Type 0} ⦃P : Poseidon⦄ ⦃C : Curve Point⦄ (cfg : FlowConfig Point) where
  abbrev pub await :
      StateEngineConfig Point → Option String → Bool → Bool → Step (FlowWorld Point) AccountState
  await engine after require_receiving require_spendable =
      run (wait_until_verified engine (waiting after require_receiving require_spendable))

  -- The deposit of the amount and its merge into the spendable balance.
  unfoldable pub shield_confidential_asset : List ℕ → Step (FlowWorld Point) (String × List String)
  shield_confidential_asset amount = do
    amount_raw ← lift (positive_amount amount)
    keys ← resolve_ct_keys cfg
    engine ← ct_state_engine cfg
    hashes ← ensure_registered cfg keys
    deposit_hash ← submit_tx cfg (deposit_tx cfg.smart_account cfg.smart_account amount_raw)
    shielded ← await engine (some deposit_hash) true false
    if not (has_receiving shielded) then raise nothing_shielded else do
      merge_hash ← submit_tx cfg (merge_tx cfg.smart_account)
      state ← await engine (some merge_hash) false true
      if ltb_ℤ state.spendable.v amount_raw
          then raise shield_mismatch
          else pure (merge_hash, hashes ++ deposit_hash ∷ merge_hash ∷ [])

  -- The receiving balance verified, by a wait if it is not yet.
  abbrev receiving_verified : StateEngineConfig Point → Verified → Step (FlowWorld Point) Verified
  receiving_verified engine verified =
      if verified.receiving_ok
      then pure verified
      else do _ ← await engine none true false; run (verify_against_chain engine)

  unfoldable pub merge_confidential_asset : Step (FlowWorld Point) (String × List String)
  merge_confidential_asset = do
    _ ← resolve_ct_keys cfg
    engine ← ct_state_engine cfg
    (state, first) ← run (reconcile_for_read engine)
    if not (has_receiving state) then raise nothing_to_merge else do
      verified ← receiving_verified engine first
      if not verified.receiving_ok then raise receiving_syncing else do
        tx_hash ← submit_tx cfg (merge_tx cfg.smart_account)
        _ ← await engine (some tx_hash) false true
        pure (tx_hash, tx_hash ∷ [])

  module _ (engine : StateEngineConfig Point) where
    -- The merge before a withdrawal that the spendable balance does not cover.
    unfoldable pub merge_before_unshield :
        ℤ → AccountState → Step (FlowWorld Point) (AccountState × List String)
    merge_before_unshield amount_raw state =
        if not (ltb_ℤ state.spendable.v amount_raw && ltb_ℤ (pos 0) state.receiving.v)
        then pure (state, [])
        else do
          merge_hash ← submit_tx cfg (merge_tx cfg.smart_account)
          merged ← await engine (some merge_hash) false true
          pure (merged, merge_hash ∷ [])

    abbrev pub withdraw_params : KeyPair Point → AccountState → ℤ → Point → WithdrawParams Point
    withdraw_params keys state amount_raw k_aud_s = record {
      keys = keys;
      v = state.spendable.v;
      r = state.spendable.r;
      amount = amount_raw;
      k_aud_s = k_aud_s;
      sigma = none;
      r_e = none;
    }

    abbrev pub build_withdraw :
        WithdrawParams Point → Step (FlowWorld Point) (WithdrawWitness Point)
    build_withdraw p w =
        (build_withdraw_witness p (cfg.random w.engine.calls 0) (cfg.random w.engine.calls 1), w)

    -- The withdrawal, and the opening that is kept: the hash of its transaction.
    unfoldable pub send_withdraw : ℤ → WithdrawParams Point → Step (FlowWorld Point) String
    send_withdraw amount_raw p = do
      witness ← build_withdraw p
      proof ← lift (cfg.prove "withdraw" witness.inputs)
      hash ←
          submit_tx cfg (withdraw_tx cfg.smart_account cfg.smart_account amount_raw witness proof)
      run (set_spendable engine (opening_of witness.next))
      pure hash

    unfoldable pub withdraw_out : KeyPair Point → ℤ → AccountState → Step (FlowWorld Point) String
    unfolding send_withdraw
    withdraw_out keys amount_raw state =
        if ltb_ℤ state.spendable.v amount_raw then raise insufficient else do
          found ← ask (λ n. cfg.confidential_balance n cfg.smart_account)
          own ← require_account sender_missing found
          k_aud_s ← ask (λ n. cfg.auditor_key n own.auditor_id)
          send_withdraw amount_raw (withdraw_params keys state amount_raw k_aud_s)

  -- From the first wait on.
  unfoldable pub unshield :
      StateEngineConfig Point → KeyPair Point → ℤ → Step (FlowWorld Point) (String × List String)
  unfolding merge_before_unshield withdraw_out
  unshield engine keys amount_raw = do
    first ←
        run
          (wait_until_verified engine (record (waiting none false false) { allow_rebuild = none }))
    (state, hashes) ← merge_before_unshield engine amount_raw first
    tx_hash ← withdraw_out engine keys amount_raw state
    pure (tx_hash, hashes ++ tx_hash ∷ [])

  unfoldable pub unshield_confidential_asset :
      List ℕ → Step (FlowWorld Point) (String × List String)
  unfolding unshield
  unshield_confidential_asset amount = do
    amount_raw ← lift (positive_amount amount)
    keys ← resolve_ct_keys cfg
    engine ← ct_state_engine cfg
    unshield engine keys amount_raw
