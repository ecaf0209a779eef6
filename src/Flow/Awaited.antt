-- ===== src/Flow/Awaited.antt =====
-- What the flows of confidentialFlow.ts do between two of their phases: a transaction that was
-- submitted, a wait of the state engine, and a reading of the balance. These say how the parts were
-- called, in terms of the configuration and of the engine's methods.
use lumengate.Prelude.{ℕ, ◌≡◌, Bool, true, false, Option, some, List, ◌∷◌}
use lumengate.Prelude.Result.{Result, ok, err, err}
use Prim.Native.String.{String}
use lumengate.Crypto.Poseidon.{Poseidon}
use lumengate.Crypto.Grumpkin.{Curve}
use lumengate.State.Types.{AccountState}
use lumengate.State.Engine.{
  StateEngineConfig, WaitOptions, wait_until_verified, verify_against_chain,
}
use lumengate.State.Engine.Reconcile.{reconcile_for_read}
use lumengate.State.Engine.Actions.{value-eq}
use lumengate.Flow.{CtTx, FlowConfig, FlowWorld, run, counted, submit_tx}
use lumengate.Flow.Settle.{Phase}
use lumengate.Flow.Quiet.{submit_tx-submitted}

module _ {Point : Type 0} (cfg : FlowConfig Point) where
  -- The transaction was submitted behind the others, with this hash for an answer.
  pub record IsSent (tx : CtTx Point) (hash : String) (old new : List (CtTx Point)) : Type 0 where
    pub call : ℕ
    pub answered : cfg.submit call tx ≡ ok hash
    pub last : new ≡ tx ∷ old

  pub submit_tx-IsSent :
      (tx : CtTx Point) (w : FlowWorld Point) {hash : String} {w' : FlowWorld Point}
      → submit_tx cfg tx w ≡ (ok hash, w')
      → IsSent tx hash w.submitted w'.submitted
  unfolding submit_tx
  submit_tx-IsSent tx w {hash} {w'} e = record {
    call = w.engine.calls;
    answered = go (cfg.submit w.engine.calls tx) e;
    last = submit_tx-submitted cfg tx w e;
  }
    where
      go :
          (r : Result String)
          → ◌≡◌ {A = Result String × FlowWorld Point}
              (elim r as (λ _. Result String × FlowWorld Point) [
                | err x ↦ (err x, counted w)
                | ok h ↦ (ok h, record (counted w) { submitted = tx ∷ w.submitted })
              ])
              (ok hash, w')
          → r ≡ ok hash
      go (err x) h = cc (value-eq h)
      go (ok x) h = value-eq h

  module _ ⦃P : Poseidon⦄ ⦃C : Curve Point⦄ (engine : StateEngineConfig Point) where
    -- The state is what waitUntilVerified returned when these transactions had been submitted,
    -- behind the transaction of the hash, with these requirements.
    pub record IsAwaited (after : Option String) (receiving spendable : Bool) (state : AccountState)
        (submitted : List (CtTx Point)) : Type 0 where
      pub before : FlowWorld Point
      pub later_world : FlowWorld Point
      pub options : WaitOptions
      pub after_tx : options.after_tx_hash ≡ after
      pub has_url : options.has_rpc_url ≡ true
      pub requires_receiving : options.require_receiving ≡ receiving
      pub requires_spendable : options.require_spendable ≡ spendable
      pub synced : options.skip_sync ≡ false
      pub then_submitted : before.submitted ≡ submitted
      pub returned : run (wait_until_verified engine options) before ≡ (ok state, later_world)

    -- The transaction, the wait behind it and the verification behind that.
    pub record IsFollowed (tx : CtTx Point) (receiving spendable : Bool) (f : Phase)
        (old new : List (CtTx Point)) : Type 0 where
      pub hash : String
      pub sent : IsSent tx hash old new
      pub awaited : IsAwaited (some hash) receiving spendable f.state new
      pub checked :
          (w : FlowWorld Point) × (run (verify_against_chain engine) awaited.later_world
            ≡ (ok f.verified, w))

    -- The phase is what reconcileForRead returned, with a spendable balance that it verified; the
    -- account counts as registered.
    pub record IsRead (f : Phase) (submitted : List (CtTx Point)) : Type 0 where
      pub before : FlowWorld Point
      pub later_world : FlowWorld Point
      pub found : AccountState
      pub then_submitted : before.submitted ≡ submitted
      pub returned : run (reconcile_for_read engine) before ≡ (ok (found, f.verified), later_world)
      pub usable : f.verified.spendable_ok ≡ true
      pub state_found : f.state ≡ record found { registered = true }
