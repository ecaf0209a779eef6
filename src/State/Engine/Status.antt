-- ===== src/State/Engine/Status.antt =====
-- `waitForTransactionStatus` and `fetchTransactionStatus` of contracts.ts. The answer of the RPC to a
-- request is a parameter: that `fetch` threw; `none` where the response is not ok; the status, if
-- the JSON has one.
use lumengate.Prelude.{ℕ, zero, suc, ◌+◌, Option, none, some, if◌then◌else◌}
use lumengate.Prelude.Result.{Result, ok, transaction_failed, confirmation_timeout}
use Prim.Native.String.{String}
use text.Mathlib.Text.{◌==◌ as str_eq}
use lumengate.State.Engine.Actions.{Action, pure, raise, ◌>>=◌, ◌>>◌}

abbrev pub sleep : ℕ → Action (Unit {0})
sleep ms w = (ok tt, record w { slept = w.slept + ms })

-- One call of the chain.
abbrev pub ask : {A : Type 0} → (ℕ → Result A) → Action A
ask call w = (call w.calls, record w { calls = w.calls + 1 })

abbrev pub response_status : Option (Option String) → String
response_status (some (some status)) = status
response_status (some none) = "NOT_FOUND"
response_status none = "NOT_FOUND"

module _ (answer : ℕ → String → Result (Option (Option String))) where
  unfoldable pub fetch_transaction_status : String → Action String
  fetch_transaction_status hash = do
    response ← ask (λ n. answer n hash)
    pure (response_status response)

  -- The loop, by the attempts left.
  unfoldable pub poll_status : String → ℕ → ℕ → Action (Unit {0})
  unfolding fetch_transaction_status
  poll_status hash interval zero = raise confirmation_timeout
  poll_status hash interval (suc left) = do
    status ← fetch_transaction_status hash
    if str_eq status "SUCCESS"
        then pure tt
        else if str_eq status "FAILED"
        then raise transaction_failed
        else do sleep interval; poll_status hash interval left

  -- With the defaults, as the engine calls it.
  unfoldable pub wait_for_transaction_status : String → Action (Unit {0})
  unfolding poll_status
  wait_for_transaction_status hash = poll_status hash 2000 45
