-- ===== src/State/Engine/Repairs.antt =====
-- What the waits and the repairs of `reconcileForRead` cost.
use lumengate.Prelude.{
  ℕ, zero, suc, ◌*◌, Bool, true, false, Option, none, some, arith, if◌then◌else◌,
}
use lumengate.Prelude.Result.{ok}
use lumengate.Crypto.Poseidon.{Poseidon}
use lumengate.Crypto.Grumpkin.{Curve}
use lumengate.State.Types.{AccountState}
use lumengate.State.Engine.{StateEngineConfig, Verified}
use lumengate.State.Engine.Reconcile.{
  Reading, try_verified_rebuild, short_waits, best_effort, repair_or_leave,
}
use lumengate.State.Engine.Actions.{Action, pure, ◌>>=◌}
use lumengate.State.Engine.Costs.{
  Costs, Costs-weaken, free, Costs-if, Costs->>=, sleep-Costs, save-Costs, current-Costs,
  sync-Costs, rebuild-Costs, verify-Costs, cleared-Costs,
}

module _ {Point : Type 0} ⦃P : Poseidon⦄ ⦃C : Curve Point⦄ (cfg : StateEngineConfig Point) where
  try_verified_rebuild-Costs :
      (accepts : Verified → Bool) → Costs (try_verified_rebuild cfg accepts) 2 0
  unfolding try_verified_rebuild
  try_verified_rebuild-Costs accepts = Costs->>= (current-Costs cfg) (λ prior.
      Costs->>= (rebuild-Costs cfg) (λ rebuilt. Costs->>= (verify-Costs cfg) (λ v.
        Costs-if (accepts v) (cleared-Costs cfg v (some (rebuilt, v)))
          (Costs->>= (save-Costs cfg prior) (λ _. free (ok none))))))

  -- One wait sleeps 1500 ms and makes at most two calls.
  short_waits-Costs :
      (had : Bool) (left : ℕ) (last : Reading cfg)
      → Costs (short_waits cfg had left last) (left * 2) (left * 1500)
  unfolding short_waits
  short_waits-Costs had zero last = free (ok (false, last))
  short_waits-Costs had (suc left) last =
      Costs-weaken (suc left * 2) (suc left * 1500)
        (Costs->>= (sleep-Costs cfg 1500) (λ _.
          Costs->>=
            (Costs-if had (Costs-weaken 1 0 (current-Costs cfg) (omega arith) (omega arith))
              (sync-Costs cfg))
            (λ s. Costs->>= (verify-Costs cfg) (λ v.
              Costs-if v.spendable_ok
                (Costs-weaken (left * 2) (left * 1500) (cleared-Costs cfg v (true, (s, v)))
                  (omega arith) (omega arith))
                (short_waits-Costs had left (s, v))))))
        (omega arith) (omega arith)

  marked_waits-Costs :
      (left : ℕ) (last : Reading cfg) → Costs (short_waits cfg true left last) left (left * 1500)
  unfolding short_waits
  marked_waits-Costs zero last = free (ok (false, last))
  marked_waits-Costs (suc left) last =
      Costs-weaken (suc left) (suc left * 1500)
        (Costs->>= (sleep-Costs cfg 1500) (λ _. Costs->>= (current-Costs cfg) (λ s.
          Costs->>= (verify-Costs cfg) (λ v.
            Costs-if v.spendable_ok
              (Costs-weaken left (left * 1500) (cleared-Costs cfg v (true, (s, v))) (omega arith)
                (omega arith))
              (marked_waits-Costs left (s, v))))))
        (omega arith) (omega arith)

  best_effort-Costs :
      (had : Bool) (prior : AccountState) (v : Verified) → Costs (best_effort cfg had prior v) 0 0
  unfolding best_effort
  best_effort-Costs had prior v =
      Costs-if had (Costs->>= (save-Costs cfg prior) (λ _. free (ok (prior, v))))
        (Costs->>= (current-Costs cfg) (λ s. free (ok (s, v))))

  repaired-Costs :
      (had : Bool) (prior : AccountState) (v : Verified) (repaired : Option (Reading cfg))
      → Costs (elim repaired [ none ↦ best_effort cfg had prior v | some r ↦ pure r ]) 0 0
  repaired-Costs had prior v none = best_effort-Costs had prior v
  repaired-Costs had prior v (some r) = free (ok r)

  repair_or_leave-Costs :
      (had : Bool) (prior : AccountState) (v : Verified)
      → Costs (repair_or_leave cfg had prior v) 2 0
  unfolding repair_or_leave
  repair_or_leave-Costs had prior v =
      Costs-if had (Costs->>= (try_verified_rebuild-Costs _) (repaired-Costs had prior v))
        (Costs-weaken 2 0 (best_effort-Costs had prior v) (omega arith) (omega arith))

  left-Costs : (prior : AccountState) (v : Verified) → Costs (repair_or_leave cfg false prior v) 0 0
  unfolding repair_or_leave
  left-Costs prior v = best_effort-Costs false prior v

  abbrev wait_and_leave : Bool → AccountState → Reading cfg → Action (Reading cfg)
  wait_and_leave had prior reading = do
    (done, last) ← short_waits cfg had 3 reading
    if done then pure last else repair_or_leave cfg had prior last.1

  -- With optimistic markers a wait makes one call, without them the repair makes none.
  pub waited_and_left-Costs :
      (had : Bool) (prior : AccountState) (reading : Reading cfg)
      → Costs (wait_and_leave had prior reading) 6 4500
  waited_and_left-Costs true prior reading =
      Costs-weaken 6 4500
        (Costs->>= (marked_waits-Costs 3 reading) (λ (done, last).
          Costs-if done (Costs-weaken 2 0 (free (ok last)) (omega arith) (omega arith))
            (repair_or_leave-Costs true prior last.1)))
        (omega arith) (omega arith)
  waited_and_left-Costs false prior reading =
      Costs-weaken 6 4500
        (Costs->>= (short_waits-Costs false 3 reading)
          (λ (done, last). Costs-if done (free (ok last)) (left-Costs prior last.1)))
        (omega arith) (omega arith)
