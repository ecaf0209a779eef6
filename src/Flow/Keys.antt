-- ===== src/Flow/Keys.antt =====
-- The keys and the registration of the account: `getOrCreateCtKeys`, `resolveCtKeys` and the
-- registration phase of confidentialFlow.ts, ctRegistration.ts, and `initializeCtStateFromEvents` of
-- confidentialBalance.ts.
use lumengate.Prelude.{
  Bool, true, false, not, ◌&&◌, ◌||◌, Option, none, some, List, [], ◌∷◌, if◌then◌else◌, eqb_ℤ, ℤ,
}
use lumengate.Prelude.Result.{
  Result, ok, err, keys_locked, keys_mismatch, local_keys_missing, keys_missing, err,
}
use Prim.Native.String.{String}
use text.Mathlib.Text.{◌==◌ as str_eq}
use lumengate.Crypto.Poseidon.{Poseidon}
use lumengate.Crypto.Grumpkin.{Curve}
use lumengate.Crypto.Keys.{KeyPair, generate_keys, address_to_field}
use lumengate.Witness.Register.{build_register_witness}
use lumengate.State.Types.{AccountState, load}
use lumengate.State.Engine.{StateEngineConfig, rebuild_from_events, verify_against_chain}
use lumengate.State.Engine.Actions.{Step, pure, raise, lift, ◌>>=◌, ◌>>◌}
use lumengate.Flow.{register_tx, OnChain, FlowConfig, FlowWorld, ask, run, engine_of, submit_tx}

pub record RegistrationStatus : Type 0 where
  pub on_chain : Bool
  pub local : Bool
  pub registered : Bool

abbrev pub or_false : Result Bool → Bool
or_false (ok b) = b
or_false (err e) = false

abbrev pub is_some : {A : Type 0} → Option A → Bool
is_some none = false
is_some (some a) = true

abbrev stored_flag : Option AccountState → Bool
stored_flag none = false
stored_flag (some s) = s.registered

module _ {Point : Type 0} where
  abbrev pub mark_registered_locally : Step (FlowWorld Point) (Unit {0})
  mark_registered_locally w = (ok tt, record w { registered_locally = true })

  module _ (cfg : FlowConfig Point) where
    -- A call that throws counts as not registered.
    unfoldable pub read_ct_registered : String → Step (FlowWorld Point) Bool
    read_ct_registered account w =
        let (r, w') = ask (λ n. cfg.is_registered n account) w in (ok (or_false r), w')

    abbrev pub state_registered : FlowWorld Point → Bool
    state_registered w = stored_flag (load cfg.smart_account w.engine.store)

    abbrev pub stored_registration : Step (FlowWorld Point) (Bool × Bool)
    stored_registration w = (ok (w.registered_locally, state_registered w), w)

    unfoldable pub read_ct_registration_status : Step (FlowWorld Point) RegistrationStatus
    unfolding read_ct_registered
    read_ct_registration_status = do
      (local, in_store) ← stored_registration
      on_chain ← read_ct_registered cfg.smart_account
      let status : RegistrationStatus = record {
        on_chain = on_chain;
        local = local || in_store || on_chain;
        registered = on_chain || local || in_store;
      }
      if on_chain || in_store then (do mark_registered_locally; pure status) else pure status

module _ {Point : Type 0} ⦃P : Poseidon⦄ ⦃C : Curve Point⦄ (cfg : FlowConfig Point) where
  abbrev pub create_keys : ℤ → Step (FlowWorld Point) (KeyPair Point)
  create_keys addr_f w =
      let keys : KeyPair Point = generate_keys (cfg.random w.engine.calls 0) addr_f in
      (ok keys, record w { keys = some keys })

  -- The keys that are stored, or fresh ones.
  abbrev pub keep_or_create :
      ℤ → Option (KeyPair Point) → Bool → Step (FlowWorld Point) (KeyPair Point)
  keep_or_create addr_f none registered = create_keys addr_f
  keep_or_create addr_f (some existing) registered =
      if eqb_ℤ existing.addr_f addr_f
      then pure existing
      else if registered
      then raise keys_locked
      else create_keys addr_f

  unfoldable pub get_or_create_ct_keys : Step (FlowWorld Point) (KeyPair Point)
  get_or_create_ct_keys w =
      (lift (address_to_field cfg.token) >>= λ addr_f.
      keep_or_create addr_f w.keys w.registered_locally)
        w

  -- The stored keys against the account that the chain has.
  abbrev pub match_keys :
      RegistrationStatus
      → Option (OnChain Point)
      → Option (KeyPair Point)
      → Step (FlowWorld Point) (KeyPair Point)
  match_keys status none (some existing) = pure existing
  match_keys status (some onchain) (some existing) =
      if C.equals existing.pvk onchain.viewing_public_key
      then pure existing
      else raise keys_mismatch
  match_keys status onchain none =
      if status.local then raise local_keys_missing else raise keys_missing

  abbrev pub account_on_chain : RegistrationStatus → Step (FlowWorld Point) (Option (OnChain Point))
  account_on_chain status =
      if status.on_chain then ask (λ n. cfg.confidential_balance n cfg.smart_account) else pure none

  abbrev stored_keys : Step (FlowWorld Point) (Option (KeyPair Point))
  stored_keys w = (ok w.keys, w)

  unfoldable pub resolve_ct_keys : Step (FlowWorld Point) (KeyPair Point)
  unfolding get_or_create_ct_keys
  resolve_ct_keys = do
    existing ← stored_keys
    status ← read_ct_registration_status cfg
    if not status.registered then get_or_create_ct_keys else do
      onchain ← account_on_chain status
      if status.on_chain && not (is_some onchain)
          then get_or_create_ct_keys
          else match_keys status onchain existing

  -- `createConfidentialAssetStateEngine` resolves the keys again.
  unfoldable pub ct_state_engine : Step (FlowWorld Point) (StateEngineConfig Point)
  unfolding resolve_ct_keys
  ct_state_engine = do keys ← resolve_ct_keys; pure (engine_of cfg keys)

  unfoldable pub initialize_ct_state_from_events : Step (FlowWorld Point) (Unit {0})
  unfolding ct_state_engine
  initialize_ct_state_from_events = do
    engine ← ct_state_engine
    run (rebuild_from_events engine)
    run (verify_against_chain engine)
    pure tt

  abbrev pub send_register : KeyPair Point → Step (FlowWorld Point) String
  send_register keys = do
    let witness = build_register_witness keys
    proof ← lift (cfg.prove "register" witness.inputs)
    submit_tx cfg (register_tx cfg.smart_account cfg.auditor_id_num witness proof)

  -- The registration phase of the flows: the hash of its transaction, if there is one.
  unfoldable pub ensure_registered : KeyPair Point → Step (FlowWorld Point) (List String)
  ensure_registered keys = do
    registered ← read_ct_registered cfg cfg.smart_account
    if registered then pure [] else do
      hash ← send_register keys
      mark_registered_locally
      initialize_ct_state_from_events
      pure (hash ∷ [])

  -- The hash is empty where the account is registered, or where the submission gives none.
  unfoldable pub register_confidential_account : Step (FlowWorld Point) String
  register_confidential_account = do
    registered ← read_ct_registered cfg cfg.smart_account
    if registered then pure "" else do
      keys ← get_or_create_ct_keys
      hash ← send_register keys
      if str_eq hash ""
          then pure hash
          else do mark_registered_locally; initialize_ct_state_from_events; pure hash
