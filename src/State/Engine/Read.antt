-- ===== src/State/Engine/Read.antt =====
-- `reconcileForRead` and `waitUntilVerified`: the calls that they make and the time that they sleep.
use lumengate.Prelude.{
  ℕ, zero, suc, ◌+◌, ◌-◌, ◌*◌, Bool, true, false, Option, none, some, arith, ◌==◌, if◌then◌else◌,
}
use lumengate.Prelude.Result.{ok, err, sync_timeout, transaction_failed, confirmation_timeout, err}
use lumengate.State.Engine.Repairs.{waited_and_left-Costs}
use lumengate.Crypto.Poseidon.{Poseidon}
use lumengate.Crypto.Grumpkin.{Curve}
use lumengate.State.Types.{AccountState}
use lumengate.State.Engine.{
  StateEngineConfig, WaitOptions, accepted, refresh, attempts_loop, rebuild_or_restore, waits_for,
  conclude_wait, rebuild_allowed, wait_transaction, or_default, wait_until_verified,
}
use lumengate.State.Engine.Status.{
  response_status, fetch_transaction_status, poll_status, wait_for_transaction_status,
}
use Prim.Native.String.{String}
use text.Mathlib.Text.{◌==◌ as str_eq}
use lumengate.State.Engine.Reconcile.{has_markers, reconcile_for_read}
use lumengate.State.Engine.Actions.{Action, pure}
use lumengate.State.Engine.Costs.{
  Costs, Costs-weaken, free, Costs-if, Costs->>=, ask-Costs, sleep-Costs, save-Costs, current-Costs,
  sync-Costs, rebuild-Costs, verify-Costs, cleared-Costs,
}

module _ {Point : Type 0} ⦃P : Poseidon⦄ ⦃C : Curve Point⦄ (cfg : StateEngineConfig Point) where
  -- Counting as one call each run of hybridFetchEvents and each read of the balances, whatever
  -- they answer, reconcileForRead makes at most ten calls and sleeps itself at most 4500 ms,
  -- also where it throws.
  pub reconcile_for_read-Costs : Costs (reconcile_for_read cfg) 10 4500
  unfolding reconcile_for_read
  reconcile_for_read-Costs = Costs->>= (current-Costs cfg) (λ prior.
      Costs->>= (sync-Costs cfg) (λ s. Costs->>= (verify-Costs cfg) (λ v.
        Costs-if v.spendable_ok
          (Costs-weaken 8 4500 (cleared-Costs cfg v (s, v)) (omega arith) (omega arith))
          (Costs->>= (rebuild-Costs cfg) (λ rebuilt. Costs->>= (verify-Costs cfg) (λ v'.
            Costs-if v'.spendable_ok
              (Costs-weaken 6 4500 (cleared-Costs cfg v' (rebuilt, v')) (omega arith) (omega arith))
              (waited_and_left-Costs cfg (has_markers cfg prior) prior (rebuilt, v'))))))))

  -- `Costs-if` under the world.
  chosen-Costs :
      (b : Bool) {m n : Action AccountState} {calls ms : ℕ}
      → Costs m calls ms
      → Costs n calls ms
      → Costs (λ w. if b then m w else n w) calls ms
  chosen-Costs true hm hn = hm
  chosen-Costs false hm hn = hn

  refresh-Costs : (o : WaitOptions) → Costs (refresh cfg o) 1 0
  refresh-Costs o =
      chosen-Costs o.skip_sync (Costs-weaken 1 0 (current-Costs cfg) (omega arith) (omega arith))
        (sync-Costs cfg)

  -- The last attempt neither sleeps nor reads the state again.
  attempts_loop-Costs :
      (o : WaitOptions) (interval left : ℕ) (s : AccountState)
      → Costs (attempts_loop cfg o interval left s) (left * 2 - 1) ((left - 1) * interval)
  unfolding attempts_loop
  attempts_loop-Costs o interval zero s =
      Costs-weaken 0 (0 * interval) (free (ok none)) (omega arith) (omega arith)
  attempts_loop-Costs o interval (suc zero) s =
      Costs-weaken 1 (0 * interval)
        (Costs->>= (verify-Costs cfg)
          (λ v. Costs-if (accepted cfg o v) (free (ok (some s))) (free (ok none))))
        (omega arith) (omega arith)
  attempts_loop-Costs o interval (suc (suc left)) s =
      Costs-weaken (suc (suc left) * 2 - 1) ((suc (suc left) - 1) * interval)
        (Costs->>= (verify-Costs cfg) (λ v.
          Costs-if (accepted cfg o v)
            (Costs-weaken (suc (suc left * 2 - 1)) (interval + left * interval) (free (ok (some s)))
              (omega arith) (omega arith))
            (Costs-if (suc left == 0)
              (Costs-weaken (suc (suc left * 2 - 1)) (interval + left * interval) (free (ok none))
                (omega arith) (omega arith))
              (Costs-weaken (suc (suc left * 2 - 1)) (interval + left * interval)
                (Costs->>= (sleep-Costs cfg interval)
                  (λ _. Costs->>= (refresh-Costs o) (attempts_loop-Costs o interval (suc left))))
                (omega arith) (grind arith)))))
        (omega arith) (grind arith)

  rebuild_or_restore-Costs :
      (o : WaitOptions) (prior : AccountState) → Costs (rebuild_or_restore cfg o prior) 2 0
  unfolding rebuild_or_restore
  rebuild_or_restore-Costs o prior = Costs->>= (rebuild-Costs cfg) (λ s.
      Costs->>= (verify-Costs cfg) (λ v.
        Costs-if (accepted cfg o v) (free (ok s))
          (Costs->>= (save-Costs cfg prior) (λ _. free (err sync_timeout)))))

  conclude_wait-Costs :
      (o : WaitOptions) (prior : AccountState) (found : Option AccountState)
      → Costs (conclude_wait cfg o prior found) 2 0
  unfolding conclude_wait
  conclude_wait-Costs o prior (some s) = Costs-weaken 2 0 (free (ok s)) (omega arith) (omega arith)
  conclude_wait-Costs o prior none =
      Costs-if (rebuild_allowed cfg o) (rebuild_or_restore-Costs o prior)
        (Costs-weaken 2 0 (free (err sync_timeout)) (omega arith) (omega arith))

  fetch-Costs : (hash : String) → Costs (fetch_transaction_status cfg.transaction_status hash) 1 0
  unfolding fetch_transaction_status
  fetch-Costs hash =
      Costs->>= (ask-Costs cfg (λ n. cfg.transaction_status n hash))
        (λ response. free (ok (response_status response)))

  poll_status-Costs :
      (hash : String) (interval left : ℕ)
      → Costs (poll_status cfg.transaction_status hash interval left) left (left * interval)
  unfolding poll_status
  poll_status-Costs hash interval zero =
      Costs-weaken 0 (0 * interval) (free (err confirmation_timeout)) (omega arith) (omega arith)
  poll_status-Costs hash interval (suc left) =
      Costs-weaken (suc left) (suc left * interval)
        (Costs->>= (fetch-Costs hash) (λ status.
          Costs-if (str_eq status "SUCCESS")
            (Costs-weaken left (interval + left * interval) (free (ok tt)) (omega arith)
              (omega arith))
            (Costs-if (str_eq status "FAILED")
              (Costs-weaken left (interval + left * interval) (free (err transaction_failed))
                (omega arith) (omega arith))
              (Costs-weaken left (interval + left * interval)
                (Costs->>= (sleep-Costs cfg interval) (λ _. poll_status-Costs hash interval left))
                (omega arith) (omega arith)))))
        (grind arith) (grind arith)

  -- How often the status of a transaction is asked for, at most.
  abbrev pub status_polls : Option String → ℕ
  status_polls none = 0
  status_polls (some hash) = 45

  waited-Costs :
      (o : WaitOptions) (after : Option String)
      → Costs
          (elim after [
            | none ↦ pure tt
            | some h ↦
                if waits_for o h
                then wait_for_transaction_status cfg.transaction_status h
                else pure tt
          ])
          (status_polls after)
          (status_polls after * 2000)
  unfolding wait_for_transaction_status
  waited-Costs o none = free (ok tt)
  waited-Costs o (some hash) =
      Costs-if (waits_for o hash) (poll_status-Costs hash 2000 45)
        (Costs-weaken 45 (45 * 2000) (free (ok tt)) (omega arith) (omega arith))

  wait_transaction-Costs :
      (o : WaitOptions)
      → Costs
          (wait_transaction cfg o)
          (status_polls o.after_tx_hash)
          (status_polls o.after_tx_hash * 2000)
  unfolding wait_transaction
  wait_transaction-Costs o = waited-Costs o o.after_tx_hash

  -- Counting as one call each run of hybridFetchEvents, each read of the balances and each
  -- request for the status of a transaction, whatever they answer, waitUntilVerified makes,
  -- also where it throws, at most two calls for each attempt but the last, one for that, and
  -- three more, and sleeps at most one interval behind each attempt but the last; where it is
  -- given the hash of a transaction, at most 45 calls and 45 times 2000 ms more.
  pub wait_until_verified-Costs :
      (o : WaitOptions)
      → Costs
          (wait_until_verified cfg o)
          (status_polls o.after_tx_hash + (or_default cfg o.max_attempts 40 * 2 - 1) + 3)
          (status_polls o.after_tx_hash * 2000
            + (or_default cfg o.max_attempts 40 - 1) * or_default cfg o.interval_ms 1500)
  unfolding wait_until_verified
  wait_until_verified-Costs o =
      Costs-weaken _ _
        (Costs->>= (current-Costs cfg) (λ prior. Costs->>= (wait_transaction-Costs o) (λ _.
          Costs->>= (refresh-Costs o) (λ s.
            Costs->>=
              (attempts_loop-Costs o (or_default cfg o.interval_ms 1500)
                (or_default cfg o.max_attempts 40) s)
              (conclude_wait-Costs o prior)))))
        (omega arith) (omega arith)
