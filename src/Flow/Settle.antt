-- ===== src/Flow/Settle.antt =====
-- `executeConfidentialSettlement` of confidentialFlow.ts, by its phases.
use lumengate.Prelude.{
  ℕ, Bool, true, false, not, ◌&&◌, ◌||◌, Option, none, some, List, [], ◌∷◌, ◌++◌, if◌then◌else◌,
  ◌+ℤ◌, ◌-ℤ◌, ltb_ℤ, leb_ℤ, eqb_ℤ, ℤ, pos,
}
use lumengate.Prelude.Result.{
  Error, Result, ok, err, not_positive, recipient_unregistered, recipient_unreadable,
  spendable_syncing, receiving_syncing, insufficient, sender_missing, err,
}
use Prim.Native.String.{String}
use lumengate.Crypto.Poseidon.{Poseidon}
use lumengate.Crypto.Grumpkin.{Curve}
use lumengate.Crypto.Keys.{KeyPair}
use lumengate.Witness.Withdraw.{NextOpening}
use lumengate.Witness.Transfer.{TransferParams, TransferWitness, build_transfer_witness}
use lumengate.State.Types.{Opening, AccountState}
use lumengate.State.Engine.{
  StateEngineConfig, Verified, wait_until_verified, verify_against_chain, set_spendable, store_save,
}
use lumengate.State.Engine.Reconcile.{reconcile_for_read}
use lumengate.State.Engine.Actions.{Step, pure, raise, lift, ◌>>=◌, ◌>>◌}
use lumengate.Product.Amount.{parse_stellar_amount}
use lumengate.Flow.{
  CtTx, deposit_tx, merge_tx, transfer_tx, OnChain, FlowConfig, FlowWorld, ask, run, submit_tx,
  waiting,
}
use lumengate.Flow.Keys.{read_ct_registered, resolve_ct_keys, ct_state_engine, ensure_registered}

-- The state, its verification, and the hashes so far.
pub record Phase : Type 0 where
  pub state : AccountState
  pub verified : Verified
  pub hashes : List String

abbrev pub only_positive : Result ℤ → Result ℤ
only_positive (err e) = err e
only_positive (ok amount_raw) = if leb_ℤ amount_raw (pos 0) then err not_positive else ok amount_raw

-- `parseStellarAmount(amount)`, and the refusal of what is not positive.
unfoldable pub positive_amount : List ℕ → Result ℤ
positive_amount amount = only_positive (parse_stellar_amount amount 7)

-- The value of the receiving opening where it is verified.
abbrev pub usable_receiving : Phase → ℤ
usable_receiving f = if f.verified.receiving_ok then f.state.receiving.v else pos 0

abbrev pub has_receiving : AccountState → Bool
has_receiving s = ltb_ℤ (pos 0) s.receiving.v || not (eqb_ℤ s.receiving.r (pos 0))

module _ {Point : Type 0} where
  abbrev pub require_account :
      Error → Option (OnChain Point) → Step (FlowWorld Point) (OnChain Point)
  require_account e none = raise e
  require_account e (some account) = pure account

  -- `witness.next` as an opening.
  abbrev pub opening_of : NextOpening Point → Opening
  opening_of next = record { v = next.v; r = next.r }

module _ {Point : Type 0} ⦃P : Poseidon⦄ ⦃C : Curve Point⦄ (cfg : FlowConfig Point) where
  unfoldable pub recipient_account : String → Step (FlowWorld Point) (OnChain Point)
  recipient_account recipient = do
    registered ← read_ct_registered cfg recipient
    if not registered then raise recipient_unregistered else do
      account ← ask (λ n. cfg.confidential_balance n recipient)
      require_account recipient_unreadable account

  module _ (engine : StateEngineConfig Point) where
    -- The reading of the balance; the account is registered by now.
    unfoldable pub read_spendable : List String → Step (FlowWorld Point) Phase
    read_spendable hashes = do
      (state, verified) ← run (reconcile_for_read engine)
      if not verified.spendable_ok
          then raise spendable_syncing
          else if state.registered
          then pure (record { state = state; verified = verified; hashes = hashes })
          else do
            let state' = record state { registered = true }
            run (store_save engine state')
            pure (record { state = state'; verified = verified; hashes = hashes })

    -- A transaction, the wait for what it changes, and the verification behind it.
    unfoldable pub submit_and_wait :
        CtTx Point → Bool → Bool → List String → Step (FlowWorld Point) Phase
    submit_and_wait tx require_receiving require_spendable hashes = do
      hash ← submit_tx cfg tx
      state ←
          run (wait_until_verified engine (waiting (some hash) require_receiving require_spendable))
      verified ← run (verify_against_chain engine)
      pure (record { state = state; verified = verified; hashes = hashes ++ hash ∷ [] })

    -- The deposit of what is missing.
    unfoldable pub cover_amount : ℤ → Phase → Step (FlowWorld Point) Phase
    unfolding submit_and_wait
    cover_amount amount_raw f =
        let total = f.state.spendable.v +ℤ usable_receiving f in
        let deposit : CtTx Point =
          deposit_tx cfg.smart_account cfg.smart_account (amount_raw -ℤ total) in
        if not (ltb_ℤ total amount_raw)
        then pure f
        else if not f.verified.receiving_ok && ltb_ℤ (pos 0) f.state.receiving.v
        then raise receiving_syncing
        else submit_and_wait deposit true false f.hashes

    -- The merge of the receiving balance, where the spendable one is too small.
    unfoldable pub consolidate : ℤ → Phase → Step (FlowWorld Point) Phase
    unfolding submit_and_wait
    consolidate amount_raw f =
        if not (ltb_ℤ f.state.spendable.v amount_raw && has_receiving f.state)
        then pure f
        else if not f.verified.receiving_ok
        then raise receiving_syncing
        else submit_and_wait (merge_tx cfg.smart_account) false true f.hashes

    abbrev pub transfer_params :
        KeyPair Point → AccountState → ℤ → OnChain Point → Point → Point → TransferParams Point
    transfer_params keys state amount_raw recipient k_aud_r k_aud_s = record {
      keys = keys;
      v = state.spendable.v;
      r = state.spendable.r;
      amount = amount_raw;
      pvk_b = recipient.viewing_public_key;
      k_aud_r = k_aud_r;
      k_aud_s = k_aud_s;
      sigma = none;
      r_e = none;
    }

    abbrev pub build_transfer :
        TransferParams Point → Step (FlowWorld Point) (TransferWitness Point)
    build_transfer p w = (build_transfer_witness p (cfg.random w.engine.calls 0), w)

    -- The transfer, and the opening that is kept: the hash of its transaction.
    unfoldable pub send_transfer : String → TransferParams Point → Step (FlowWorld Point) String
    send_transfer recipient p = do
      witness ← build_transfer p
      proof ← lift (cfg.prove "transfer" witness.inputs)
      hash ← submit_tx cfg (transfer_tx cfg.smart_account recipient witness proof)
      run (set_spendable engine (opening_of witness.next))
      pure hash

    unfoldable pub transfer_out :
        KeyPair Point → String → OnChain Point → ℤ → AccountState → Step (FlowWorld Point) String
    unfolding send_transfer
    transfer_out keys recipient account amount_raw state =
        if ltb_ℤ state.spendable.v amount_raw then raise insufficient else do
          found ← ask (λ n. cfg.confidential_balance n cfg.smart_account)
          own ← require_account sender_missing found
          k_aud_r ← ask (λ n. cfg.auditor_key n account.auditor_id)
          k_aud_s ← ask (λ n. cfg.auditor_key n own.auditor_id)
          send_transfer recipient (transfer_params keys state amount_raw account k_aud_r k_aud_s)

  -- From the recipient's account on: the hash of the transfer, and the hashes of all submitted
  -- transactions.
  unfoldable pub settle :
      StateEngineConfig Point
      → KeyPair Point
      → String
      → ℤ
      → List String
      → Step (FlowWorld Point) (String × List String)
  unfolding cover_amount consolidate transfer_out
  settle engine keys recipient amount_raw hashes = do
    account ← recipient_account recipient
    read ← read_spendable engine hashes
    covered ← cover_amount engine amount_raw read
    ready ← consolidate engine amount_raw covered
    tx_hash ← transfer_out engine keys recipient account amount_raw ready.state
    pure (tx_hash, ready.hashes ++ tx_hash ∷ [])

  unfoldable pub execute_confidential_settlement :
      String → List ℕ → Step (FlowWorld Point) (String × List String)
  unfolding settle
  execute_confidential_settlement recipient amount = do
    amount_raw ← lift (positive_amount amount)
    keys ← resolve_ct_keys cfg
    engine ← ct_state_engine cfg
    hashes ← ensure_registered cfg keys
    settle engine keys recipient amount_raw hashes
