-- ===== src/State/Engine.antt =====
-- The class `StateEngine` of state/engine.ts over a `MemoryStore`. Each method is an action on a
-- world: the store, a count of the calls made so far, and the milliseconds slept. What a call to the
-- chain answers depends on that count, since the chain moves between calls. An action that throws
-- keeps what it has saved before. `reconcileForRead` is in Reconcile.
pub mod Actions
pub mod Status
pub mod Unsaved
pub mod Saved
pub mod Reconcile
pub mod Wait
pub mod Markers
pub mod Costs
pub mod Repairs
pub mod Read
use lumengate.State.Engine.Actions.{◌>>◌, ◌>>=◌}
use lumengate.Crypto.Poseidon.{Poseidon}
use lumengate.Prelude.{
  ℕ, zero, suc, ◌+◌, Bool, true, false, not, ◌&&◌, ◌||◌, Option, none, some, List, [], ◌∷◌, ◌++◌,
  ◌==◌, if◌then◌else◌, ◌+ℤ◌, ℤ,
}
use lumengate.Prelude.Result.{Result, ok, sync_timeout}
use Prim.Native.String.{String}
use text.Mathlib.Text.{◌==◌ as str_eq}
use lumengate.Crypto.Grumpkin.{Curve, commit}
use lumengate.Crypto.Keys.{KeyPair}
use lumengate.Chain.Events.{FetchEventsResult}
use lumengate.State.Types.{Opening, AccountState, fresh_state, load, save}
use lumengate.State.Apply.{includes, merged, reach_ledger, apply_all}
use lumengate.State.Ledger.{ChainAccount}
use lumengate.State.Engine.Status.{ask, sleep, wait_for_transaction_status}
use lumengate.State.Engine.Actions.{World, Action, pure, raise, lift}

-- What the engine is configured with: `hybridFetchEvents` with its start cursor,
-- `confidentialBalance` of the chain client, and the RPC's answer to a request for the status of a
-- transaction, each as a function of the number of calls made before.
pub record StateEngineConfig (Point : Type 0) : Type 0 where
  pub address : String
  pub keys : KeyPair Point
  pub fetch : ℕ → Option String → Result (FetchEventsResult Point)
  pub balance : ℕ → Result (Option (ChainAccount Point))
  pub transaction_status : ℕ → String → Result (Option (Option String))

pub record Verified : Type 0 where
  pub ok_both : Bool
  pub spendable_ok : Bool
  pub receiving_ok : Bool

pub record WaitOptions : Type 0 where
  pub after_tx_hash : Option String
  pub has_rpc_url : Bool
  pub max_attempts : Option ℕ
  pub interval_ms : Option ℕ
  pub require_spendable : Bool
  pub require_receiving : Bool
  pub skip_sync : Bool
  pub allow_rebuild : Option Bool

-- A text is falsy when it is absent or empty.
abbrev pub truthy : Option String → Bool
truthy none = false
truthy (some s) = not (str_eq s "")

-- `[...new Set(hashes)]`: the first of equal texts stays.
unfoldable pub unique : List String → List String → List String
unique seen [] = seen
unique seen (h ∷ hashes) = unique (if includes seen h then seen else seen ++ h ∷ []) hashes

-- `if (txHash) state.optimisticTxHashes = [...new Set([...(state.optimisticTxHashes ?? []), txHash])]`.
unfoldable pub mark_optimistic : Option String → AccountState → AccountState
unfolding unique
mark_optimistic none s = s
mark_optimistic (some h) s =
    let old : List String = elim s.optimistic_tx_hashes [ none ↦ [] | some hashes ↦ hashes ] in
    if str_eq h "" then s else record s { optimistic_tx_hashes = some (unique [] (old ++ h ∷ [])) }

abbrev pub set_cursor : Option String → AccountState → AccountState
set_cursor cursor s = if truthy cursor then record s { cursor = cursor } else s

-- `s ?? freshState(address)`.
abbrev pub or_fresh : String → Option AccountState → AccountState
or_fresh address none = fresh_state address
or_fresh address (some s) = s

abbrev pub waits_for : WaitOptions → String → Bool
waits_for o hash = not (str_eq hash "") && o.has_rpc_url

module _ {Point : Type 0} ⦃P : Poseidon⦄ ⦃C : Curve Point⦄ where
  -- The comparison of `verifyAgainstChain`.
  unfoldable pub check_openings : AccountState → Option (ChainAccount Point) → Verified
  check_openings s none = record { ok_both = false; spendable_ok = false; receiving_ok = false }
  check_openings s (some onchain) =
      let spendable_ok = C.equals (commit s.spendable.v s.spendable.r) onchain.spendable in
      let receiving_ok = C.equals (commit s.receiving.v s.receiving.r) onchain.receiving in
      record {
        ok_both = spendable_ok && receiving_ok;
        spendable_ok = spendable_ok;
        receiving_ok = receiving_ok;
      }

  module _ (cfg : StateEngineConfig Point) where
    abbrev pub store_save : AccountState → Action (Unit {0})
    store_save s w = (ok tt, record w { store = save s w.store })

    -- `(await store.load(address)) ?? freshState(address)`.
    abbrev pub current_state : World → AccountState
    current_state w = or_fresh cfg.address (load cfg.address w.store)

    unfoldable pub current : Action AccountState
    current w = (ok (current_state w), w)

    -- What `sync` and `rebuildFromEvents` do with the fetched events: apply them all, move the
    -- cursor and the ledger, and save.
    unfoldable pub keep_replay : FetchEventsResult Point → Result AccountState → Action AccountState
    keep_replay fetched r = do
      s ← lift r
      let s' = reach_ledger fetched.latest_ledger (set_cursor fetched.cursor s)
      store_save s'
      pure s'

    unfoldable pub replay_from : AccountState → Option String → Action AccountState
    replay_from start cursor = do
      fetched ← ask (λ n. cfg.fetch n cursor)
      keep_replay fetched (apply_all cfg.keys start fetched.events)

    unfoldable pub sync : Action AccountState
    unfolding current
    sync = do s ← current; replay_from s s.cursor

    unfoldable pub rebuild_from_events : Action AccountState
    rebuild_from_events = replay_from (fresh_state cfg.address) none

    unfoldable pub set_spendable : Opening → Action AccountState
    unfolding current
    set_spendable next = do
      s ← current
      let s' = record s { spendable = next }
      store_save s'
      pure s'

    unfoldable pub verify_against_chain : Action Verified
    unfolding current
    verify_against_chain = do
      s ← current
      onchain ← ask cfg.balance
      pure (check_openings s onchain)

    unfoldable pub credit_receiving : ℤ → Option String → Action AccountState
    unfolding current mark_optimistic
    credit_receiving amount tx_hash = do
      s ← current
      let s' =
          mark_optimistic tx_hash
            (record s { receiving = record { v = s.receiving.v +ℤ amount; r = s.receiving.r } })
      store_save s'
      pure s'

    unfoldable pub apply_merge_local : Option String → Action AccountState
    unfolding current mark_optimistic
    apply_merge_local tx_hash = do
      s ← current
      let s' = mark_optimistic tx_hash (merged s)
      store_save s'
      pure s'

    -- The acceptance test of `waitUntilVerified`.
    unfoldable pub accepted : WaitOptions → Verified → Bool
    accepted o v =
        if o.require_receiving || o.require_spendable
        then (not o.require_receiving || v.receiving_ok)
          && (not o.require_spendable || v.spendable_ok)
        else v.ok_both

    abbrev pub refresh : WaitOptions → Action AccountState
    refresh o w = if o.skip_sync then current w else sync w

    -- The loop, by the attempts left; `none` when the last attempt failed.
    unfoldable pub attempts_loop : WaitOptions → ℕ → ℕ → AccountState → Action (Option AccountState)
    attempts_loop o interval zero s = pure none
    attempts_loop o interval (suc left) s = do
      v ← verify_against_chain
      if accepted o v
          then pure (some s)
          else if left == 0
          then pure none
          else do sleep interval; s' ← refresh o; attempts_loop o interval left s'

    -- Behind the loop: one rebuild, kept if it verifies; otherwise `prior` is saved again.
    unfoldable pub rebuild_or_restore : WaitOptions → AccountState → Action AccountState
    rebuild_or_restore o prior = do
      s ← rebuild_from_events
      rebuilt ← verify_against_chain
      if accepted o rebuilt then pure s else do store_save prior; raise sync_timeout

    -- `if (options?.afterTxHash && options.rpcUrl) await waitForTransactionStatus(…)`.
    unfoldable pub wait_transaction : WaitOptions → Action (Unit {0})
    unfolding wait_for_transaction_status
    wait_transaction o = elim o.after_tx_hash [
      | none ↦ pure tt
      | some h ↦
          if waits_for o h then wait_for_transaction_status cfg.transaction_status h else pure tt
    ]

    abbrev pub rebuild_allowed : WaitOptions → Bool
    rebuild_allowed o = elim o.allow_rebuild [ none ↦ true | some b ↦ b ]

    -- What follows the loop, by its result.
    unfoldable pub conclude_wait :
        WaitOptions → AccountState → Option AccountState → Action AccountState
    conclude_wait o prior (some s) = pure s
    conclude_wait o prior none =
        if rebuild_allowed o then rebuild_or_restore o prior else raise sync_timeout

    abbrev pub or_default : Option ℕ → ℕ → ℕ
    or_default none n = n
    or_default (some m) n = m

    unfoldable pub wait_until_verified : WaitOptions → Action AccountState
    unfolding current wait_transaction
    wait_until_verified o = do
      prior ← current
      wait_transaction o
      s ← refresh o
      found ← attempts_loop o (or_default o.interval_ms 1500) (or_default o.max_attempts 40) s
      conclude_wait o prior found
