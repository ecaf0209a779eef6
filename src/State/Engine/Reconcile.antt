-- ===== src/State/Engine/Reconcile.antt =====
-- `reconcileForRead` of `StateEngine`, with `clearOptimisticMarkersIfVerified` and
-- `tryVerifiedRebuild`.
use lumengate.Prelude.{
  ℕ, zero, suc, Bool, true, false, not, ◌||◌, Option, none, some, ◌==◌, if◌then◌else◌, length,
}
use lumengate.Crypto.Poseidon.{Poseidon}
use lumengate.Crypto.Grumpkin.{Curve}
use lumengate.State.Types.{AccountState}
use lumengate.State.Engine.{
  StateEngineConfig, Verified, current, sync, rebuild_from_events, verify_against_chain, store_save,
}
use lumengate.State.Engine.Status.{sleep}
use lumengate.State.Engine.Actions.{Action, pure, ◌>>=◌, ◌>>◌}

module _ {Point : Type 0} ⦃P : Poseidon⦄ ⦃C : Curve Point⦄ (cfg : StateEngineConfig Point) where
  abbrev pub has_markers : AccountState → Bool
  has_markers s = elim s.optimistic_tx_hashes [
    | none ↦ false
    | some hashes ↦ not (length hashes == 0)
  ]

  unfoldable pub clear_optimistic_markers_if_verified : Verified → Action (Unit {0})
  unfolding current
  clear_optimistic_markers_if_verified v = if not v.ok_both then pure tt else do
    s ← current cfg
    let cleared = store_save cfg (record s { optimistic_tx_hashes = none })
    if has_markers s then cleared else pure tt

  abbrev pub Reading : Type 0
  Reading = AccountState × Verified

  unfoldable pub try_verified_rebuild : (Verified → Bool) → Action (Option Reading)
  unfolding current
  try_verified_rebuild accepts = do
    prior ← current cfg
    rebuilt ← rebuild_from_events cfg
    v ← verify_against_chain cfg
    if accepts v
        then (do clear_optimistic_markers_if_verified v; pure (some (rebuilt, v)))
        else do store_save cfg prior; pure none

  -- The three short waits; the last reading comes back when none of them verified.
  unfoldable pub short_waits : Bool → ℕ → Reading → Action (Bool × Reading)
  unfolding current
  short_waits had_optimistic zero last = pure (false, last)
  short_waits had_optimistic (suc left) last = do
    sleep 1500
    s ← if had_optimistic then current cfg else sync cfg
    v ← verify_against_chain cfg
    if v.spendable_ok
        then (do clear_optimistic_markers_if_verified v; pure (true, (s, v)))
        else short_waits had_optimistic left (s, v)

  -- The way out: the optimistic state is saved again.
  unfoldable pub best_effort : Bool → AccountState → Verified → Action Reading
  unfolding current
  best_effort had_optimistic prior v =
      if had_optimistic
      then (do store_save cfg prior; pure (prior, v))
      else do s ← current cfg; pure (s, v)

  unfoldable pub repair_or_leave : Bool → AccountState → Verified → Action Reading
  repair_or_leave had_optimistic prior v =
      if had_optimistic
      then (do
        repaired ← try_verified_rebuild (λ r. r.spendable_ok || r.receiving_ok)
        elim repaired [ none ↦ best_effort had_optimistic prior v | some r ↦ pure r ])
      else best_effort had_optimistic prior v

  unfoldable pub reconcile_for_read : Action Reading
  unfolding current
  reconcile_for_read = do
    prior ← current cfg
    let had_optimistic = has_markers prior
    s ← sync cfg
    v ← verify_against_chain cfg
    if v.spendable_ok then (do clear_optimistic_markers_if_verified v; pure (s, v)) else do
      rebuilt ← rebuild_from_events cfg
      v' ← verify_against_chain cfg
      if v'.spendable_ok
          then (do clear_optimistic_markers_if_verified v'; pure (rebuilt, v'))
          else do
            (done, last) ← short_waits had_optimistic 3 (rebuilt, v')
            if done then pure last else repair_or_leave had_optimistic prior last.1
