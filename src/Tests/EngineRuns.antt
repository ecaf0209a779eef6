-- ===== src/Tests/EngineRuns.antt =====
-- The engine against a chain that stores an empty account.
use lumengate.Prelude.{
  ◌≡◌, refl, true, false, none, some, [], ◌∷◌, ltb, if◌then◌else◌, ◌+ℤ◌, ◌-ℤ◌, ℤ, pos,
}
use lumengate.Prelude.Result.{ok}
use lumengate.Crypto.Field.{fr_add, fr_mod}
use lumengate.Crypto.Grumpkin.{commit, scalar_mul}
use lumengate.Crypto.Grumpkin.Toy.{Residue, toy, reduce}
use lumengate.State.Types.{AccountState, fresh_state, load, put, save}
use lumengate.State.Apply.{apply_all}
use lumengate.State.Engine.{
  StateEngineConfig, WaitOptions, check_openings, accepted, current, sync, replay_from, keep_replay,
  verify_against_chain, attempts_loop, conclude_wait, wait_until_verified,
}
use lumengate.State.Engine.Reconcile.{reconcile_for_read}
use lumengate.State.Engine.Actions.{World}
use lumengate.State.Engine.Wait.{VerifiedNow, wait_until_verified-VerifiedNow}
use lumengate.State.Engine.Costs.{Costs}
use lumengate.State.Engine.Read.{reconcile_for_read-Costs, wait_until_verified-Costs}
use lumengate.State.Engine.Markers.{apply-mark_optimistic}
use lumengate.Chain.Events.{BaseEvent, deposit}
use lumengate.State.Apply.{apply, includes, reach_ledger}
use lumengate.State.Engine.{unique, mark_optimistic, credit_receiving, apply_merge_local}
use lumengate.Tests.Fixtures.{constant_hash, alice}

-- The chain answers with an empty account from its second balance on.
abbrev quiet : StateEngineConfig Residue
quiet = record {
  address = "A";
  keys = alice;
  fetch = λ n cursor. ok (record { events = []; cursor = none; latest_ledger = 9 });
  balance = λ n. ok (
      if ltb n 2
      then none
      else some (record { spendable = toy.infinity; receiving = toy.infinity }));
  transaction_status = λ n h. ok (some (some "SUCCESS"));
}

abbrev asking : WaitOptions
asking = record {
  after_tx_hash = none;
  has_rpc_url = false;
  max_attempts = some 3;
  interval_ms = some 10;
  require_spendable = false;
  require_receiving = false;
  skip_sync = false;
  allow_rebuild = none;
}

abbrev start : World
start = record { store = []; calls = 0; slept = 0 }

abbrev synced : AccountState
synced = record {
  address = "A";
  spendable = record { v = pos 0; r = pos 0 };
  receiving = record { v = pos 0; r = pos 0 };
  registered = false;
  cursor = none;
  synced_ledger = 9;
  optimistic_tx_hashes = none;
}

abbrev end : World
end = record { store = ("A", synced) ∷ []; calls = 4; slept = 10 }

waited : wait_until_verified quiet asking start ≡ (ok synced, end)
unfolding wait_until_verified current sync replay_from keep_replay verify_against_chain
    attempts_loop conclude_wait accepted check_openings load put save fresh_state apply_all commit
    scalar_mul toy reduce
waited = refl

wait_until_verified-VerifiedNow_example : VerifiedNow quiet asking synced end
unfolding fresh_state load
wait_until_verified-VerifiedNow_example =
    wait_until_verified-VerifiedNow quiet asking start refl waited

reconcile_for_read-Costs_example : Costs (reconcile_for_read quiet) 10 4500
reconcile_for_read-Costs_example = reconcile_for_read-Costs quiet

-- Three attempts, behind a transaction.
abbrev asking_behind : WaitOptions
asking_behind = record asking { after_tx_hash = some "h"; has_rpc_url = true }

wait_until_verified-Costs_example : Costs (wait_until_verified quiet asking_behind) 53 90020
wait_until_verified-Costs_example = wait_until_verified-Costs quiet asking_behind

abbrev marked : ℤ → AccountState
marked v = record {
  address = "A";
  spendable = record { v = pos 0; r = pos 0 };
  receiving = record { v = v; r = pos 0 };
  registered = false;
  cursor = none;
  synced_ledger = 0;
  optimistic_tx_hashes = some ("h" ∷ []);
}

abbrev saved_as : AccountState → World
saved_as s = record { store = ("A", s) ∷ []; calls = 0; slept = 0 }

credited_five :
    credit_receiving quiet (pos 5) (some "h") start
    ≡ (ok (marked (pos 5)), saved_as (marked (pos 5)))
unfolding credit_receiving current mark_optimistic unique includes load put save fresh_state ◌+ℤ◌
credited_five = refl

merged_none :
    apply_merge_local quiet (some "h") start ≡ (ok (marked (pos 0)), saved_as (marked (pos 0)))
unfolding apply_merge_local current mark_optimistic unique includes load put save fresh_state ◌+ℤ◌
    ◌-ℤ◌ fr_add fr_mod
merged_none = refl

abbrev landed : BaseEvent
landed = record { ledger = 4; tx_hash = "h"; cursor = "c" }

apply-mark_optimistic_example :
    (apply alice (marked (pos 5)) (deposit landed "B" "A" (pos 5))
      ≡ ok (reach_ledger 4 (marked (pos 5))))
    × (apply alice (marked (pos 0)) (deposit landed "B" "A" (pos 5))
        ≡ ok (reach_ledger 4 (marked (pos 0))))
apply-mark_optimistic_example =
    apply-mark_optimistic quiet (pos 5) "h" (deposit landed "B" "A" (pos 5)) start refl refl
      credited_five merged_none
