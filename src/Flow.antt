-- ===== src/Flow.antt =====
-- confidentialFlow.ts: the flows of the application over the state engine. This module has their
-- world: the engine's, what the browser keeps, and the transactions that were submitted. What a call
-- to the chain answers depends on the number of calls made before. A flow is a step on the world; it
-- may throw, and keeps what it has done before.
pub mod Keys
pub mod Settle
pub mod Shield
pub mod Quiet
pub mod Awaited
pub mod Registered
pub mod Phases
pub mod Sent
pub mod Paid
pub mod Taken
pub mod Withdrawn
use lumengate.Prelude.{ℕ, ◌+◌, Bool, true, false, Option, none, some, List, ◌∷◌, ℤ}
use lumengate.Prelude.Result.{Result, ok, err}
use Prim.Native.String.{String}
use lumengate.Crypto.Keys.{KeyPair}
use lumengate.Chain.Events.{FetchEventsResult}
use lumengate.Witness.Common.{NoirInputs}
use lumengate.Witness.Register.{RegisterWitness}
use lumengate.Witness.Transfer.{TransferWitness}
use lumengate.Witness.Withdraw.{WithdrawWitness}
use lumengate.State.Ledger.{ChainAccount}
use lumengate.State.Engine.{StateEngineConfig, WaitOptions}
use lumengate.State.Engine.Actions.{World, Action, Step}

-- The transactions that the flows build, by the contract's function, with its arguments.
pub data CtTx (Point : Type 0) : Type 0 where
  -- account, auditor id
  register_tx : String → ℕ → RegisterWitness Point → List ℕ → CtTx Point
  -- from, to, amount
  deposit_tx : String → String → ℤ → CtTx Point
  merge_tx : String → CtTx Point
  -- from, to
  transfer_tx : String → String → TransferWitness Point → List ℕ → CtTx Point
  -- from, to, amount
  withdraw_tx : String → String → ℤ → WithdrawWitness Point → List ℕ → CtTx Point

-- What `confidentialBalance` reads of an account.
pub record OnChain (Point : Type 0) : Type 0 where
  pub balances : ChainAccount Point
  pub viewing_public_key : Point
  pub auditor_id : ℕ

-- `random n i` is the i-th value that `randomScalar` returns behind `n` calls. `is_registered` is
-- the retried call of the chain, `prove` the Noir and Barretenberg libraries, and `submit` builds and
-- submits a transaction.
pub record FlowConfig (Point : Type 0) : Type 0 where
  pub smart_account : String
  pub token : List ℕ
  pub auditor_id_num : ℕ
  pub fetch : ℕ → Option String → Result (FetchEventsResult Point)
  pub confidential_balance : ℕ → String → Result (Option (OnChain Point))
  pub is_registered : ℕ → String → Result Bool
  pub transaction_status : ℕ → String → Result (Option (Option String))
  pub auditor_key : ℕ → ℕ → Result Point
  pub prove : String → NoirInputs → Result (List ℕ)
  pub submit : ℕ → CtTx Point → Result String
  pub random : ℕ → ℕ → ℤ

-- `keys` and `registered_locally` are the entries of the account in `localStorage`; `submitted` has
-- the transactions that were submitted, the last one first.
pub record FlowWorld (Point : Type 0) : Type 0 where
  pub engine : World
  pub keys : Option (KeyPair Point)
  pub registered_locally : Bool
  pub submitted : List (CtTx Point)

module _ {Point : Type 0} where
  abbrev pub counted : FlowWorld Point → FlowWorld Point
  counted w = let e = w.engine in record w { engine = record e { calls = e.calls + 1 } }

  -- One call of the chain.
  abbrev pub ask : {A : Type 0} → (ℕ → Result A) → Step (FlowWorld Point) A
  ask call w = (call w.engine.calls, counted w)

  -- A method of the engine.
  abbrev pub run : {A : Type 0} → Action A → Step (FlowWorld Point) A
  run m w = let (r, e) = m w.engine in (r, record w { engine = e })

  abbrev balances_of : Option (OnChain Point) → Option (ChainAccount Point)
  balances_of none = none
  balances_of (some account) = some account.balances

  abbrev balances_in : Result (Option (OnChain Point)) → Result (Option (ChainAccount Point))
  balances_in (ok account) = ok (balances_of account)
  balances_in (err e) = err e

  module _ (cfg : FlowConfig Point) where
    -- The engine that `createConfidentialAssetStateEngine` builds.
    unfoldable pub engine_of : KeyPair Point → StateEngineConfig Point
    engine_of keys = record {
      address = cfg.smart_account;
      keys = keys;
      fetch = cfg.fetch;
      balance = λ n. balances_in (cfg.confidential_balance n cfg.smart_account);
      transaction_status = cfg.transaction_status;
    }

    -- `submitTx(await build…Transaction(…))`: the hash.
    unfoldable pub submit_tx : CtTx Point → Step (FlowWorld Point) String
    submit_tx tx w = elim (cfg.submit w.engine.calls tx) [
      | err e ↦ (err e, counted w)
      | ok hash ↦ (ok hash, record (counted w) { submitted = tx ∷ w.submitted })
    ]

-- `{ rpcUrl, afterTxHash, requireReceiving, requireSpendable, allowRebuild: true }`.
abbrev pub waiting : Option String → Bool → Bool → WaitOptions
waiting after_tx_hash require_receiving require_spendable = record {
  after_tx_hash = after_tx_hash;
  has_rpc_url = true;
  max_attempts = none;
  interval_ms = none;
  require_spendable = require_spendable;
  require_receiving = require_receiving;
  skip_sync = false;
  allow_rebuild = some true;
}
