-- ===== src/State/Engine/Costs.antt =====
-- What an action of the engine costs at most: calls, and milliseconds slept.
use lumengate.Prelude.{ℕ, ◌+◌, ◌≤◌, Bool, true, false, not, Option, none, arith, if◌then◌else◌}
use lumengate.Prelude.Result.{Result, ok, err, err}
use Prim.Native.String.{String}
use lumengate.Crypto.Poseidon.{Poseidon}
use lumengate.Crypto.Grumpkin.{Curve}
use lumengate.Chain.Events.{FetchEventsResult}
use lumengate.State.Types.{AccountState}
use lumengate.State.Engine.{
  StateEngineConfig, Verified, store_save, current, keep_replay, replay_from, sync,
  rebuild_from_events, verify_against_chain, check_openings,
}
use lumengate.State.Engine.Status.{ask, sleep}
use lumengate.State.Engine.Reconcile.{has_markers, clear_optimistic_markers_if_verified}
use lumengate.State.Engine.Actions.{World, Action, pure, lift, continue, ◌>>=◌}

-- At most so many calls and milliseconds, from any world.
pub record Costs {A : Type 0} (m : Action A) (calls ms : ℕ) : Type 0 where
  pub bound : (w : World) → ((m w).1.calls ≤ w.calls + calls) × ((m w).1.slept ≤ w.slept + ms)

module _ {A : Type 0} where
  pub Costs-weaken :
      {m : Action A} {calls ms : ℕ} (calls' ms' : ℕ)
      → Costs m calls ms
      → calls ≤ calls'
      → ms ≤ ms'
      → Costs m calls' ms'
  Costs-weaken calls' ms' h hc hm = record {
    bound = λ w. let (c, s) = h.bound w in (omega arith, omega arith);
  }

  pub free : (r : Result A) → Costs (lift r) 0 0
  free r = record { bound = λ w. (omega arith, omega arith) }

  pub Costs-if :
      (b : Bool) {m n : Action A} {calls ms : ℕ}
      → Costs m calls ms
      → Costs n calls ms
      → Costs (if b then m else n) calls ms
  Costs-if true hm hn = hm
  Costs-if false hm hn = hn

module _ {A B : Type 0} where
  continue-bound :
      (r : Result A) (f : A → Action B) (calls ms : ℕ) (w : World)
      → ((a : A) → Costs (f a) calls ms)
      → ((continue r f w).1.calls ≤ w.calls + calls) × ((continue r f w).1.slept ≤ w.slept + ms)
  continue-bound (ok a) f calls ms w h = (h a).bound w
  continue-bound (err e) f calls ms w h = (omega arith, omega arith)

  pub Costs->>= :
      {m : Action A} {f : A → Action B} {calls calls' ms ms' : ℕ}
      → Costs m calls ms
      → ((a : A) → Costs (f a) calls' ms')
      → Costs (m >>= f) (calls + calls') (ms + ms')
  Costs->>= {m} {f} {calls} {calls'} {ms} {ms'} hm hf = record {
    bound = λ w.
        let (c, s) = hm.bound w in
        let (c', s') = continue-bound (m w).0 f calls' ms' (m w).1 hf in (omega arith, omega arith);
  }

module _ {Point : Type 0} ⦃P : Poseidon⦄ ⦃C : Curve Point⦄ (cfg : StateEngineConfig Point) where
  pub ask-Costs : {A : Type 0} (call : ℕ → Result A) → Costs (ask call) 1 0
  ask-Costs call = record { bound = λ w. (omega arith, omega arith) }

  pub sleep-Costs : (ms : ℕ) → Costs (sleep ms) 0 ms
  sleep-Costs ms = record { bound = λ w. (omega arith, omega arith) }

  pub save-Costs : (s : AccountState) → Costs (store_save cfg s) 0 0
  save-Costs s = record { bound = λ w. (omega arith, omega arith) }

  pub current-Costs : Costs (current cfg) 0 0
  unfolding current
  current-Costs = record { bound = λ w. (omega arith, omega arith) }

  keep_replay-Costs :
      (fetched : FetchEventsResult Point) (r : Result AccountState)
      → Costs (keep_replay cfg fetched r) 0 0
  unfolding keep_replay
  keep_replay-Costs fetched (ok s) = record { bound = λ w. (omega arith, omega arith) }
  keep_replay-Costs fetched (err e) = record { bound = λ w. (omega arith, omega arith) }

  replay_from-Costs :
      (start : AccountState) (cursor : Option String) → Costs (replay_from cfg start cursor) 1 0
  unfolding replay_from
  replay_from-Costs start cursor =
      Costs->>= (ask-Costs (λ n. cfg.fetch n cursor)) (λ fetched. keep_replay-Costs fetched _)

  pub sync-Costs : Costs (sync cfg) 1 0
  unfolding sync
  sync-Costs = Costs->>= current-Costs (λ s. replay_from-Costs s s.cursor)

  pub rebuild-Costs : Costs (rebuild_from_events cfg) 1 0
  unfolding rebuild_from_events
  rebuild-Costs = replay_from-Costs _ none

  pub verify-Costs : Costs (verify_against_chain cfg) 1 0
  unfolding verify_against_chain
  verify-Costs =
      Costs->>= current-Costs
        (λ s. Costs->>= (ask-Costs cfg.balance) (λ onchain. free (ok (check_openings s onchain))))

  clear-Costs : (v : Verified) → Costs (clear_optimistic_markers_if_verified cfg v) 0 0
  unfolding clear_optimistic_markers_if_verified
  clear-Costs v = Costs-if (not v.ok_both) (free (ok tt)) (
      Costs->>= current-Costs (λ s.
        Costs-if (has_markers cfg s) (save-Costs (record s { optimistic_tx_hashes = none }))
          (free (ok tt))))

  -- Clearing the markers, and then an answer.
  pub cleared-Costs :
      {A : Type 0} (v : Verified) (a : A)
      → Costs (clear_optimistic_markers_if_verified cfg v >>= λ _. pure a) 0 0
  cleared-Costs v a = Costs->>= (clear-Costs v) (λ _. free (ok a))
