-- ===== src/Product/Retry.antt =====
-- app/src/lib/retry.ts. The function that is retried answers by the number of the attempt, and what
-- `Math.floor(Math.random() * jitterMs)` draws before an attempt is a function of that number too.
pub mod Laws
use lumengate.Prelude.{
  ℕ, zero, suc, ◌+◌, ◌-◌, ◌*◌, ◌^◌, Bool, true, not, ◌||◌, Option, none, some, List, [], ◌∷◌, ltb,
  leb, if◌then◌else◌,
}

pub record RetryOptions (E : Type 0) : Type 0 where
  pub attempts : Option ℕ
  pub base_delay_ms : Option ℕ
  pub max_delay_ms : Option ℕ
  pub jitter_ms : Option ℕ
  pub should_retry : Option (E → ℕ → Bool)

pub data Outcome (E A : Type 0) : Type 0 where
  returned : A → Outcome E A
  thrown : E → Outcome E A

-- How the call ended, and what `onRetry` is told of each wait: the attempt and its delay. An error
-- of `none` is that of a loop that never ran.
pub record Trace (E A : Type 0) : Type 0 where
  pub ended : Outcome (Option E) A
  pub calls : ℕ
  pub waits : List (ℕ × ℕ)

-- `option ?? n`.
abbrev pub or_number : Option ℕ → ℕ → ℕ
or_number none n = n
or_number (some m) n = m

abbrev pub min : ℕ → ℕ → ℕ
min a b = if leb a b then a else b

module _ {E : Type 0} (options : RetryOptions E) (draw : ℕ → ℕ) where
  unfoldable pub retry_delay : ℕ → ℕ
  retry_delay attempt =
      let base_delay_ms = or_number options.base_delay_ms 800 in
      let max_delay_ms = or_number options.max_delay_ms 8000 in
      let jitter_ms = or_number options.jitter_ms 250 in
      min max_delay_ms (base_delay_ms * 2 ^ (attempt - 1))
      + (if ltb 0 jitter_ms then draw attempt else 0)

  abbrev pub retryable : E → ℕ → Bool
  retryable error attempt = elim options.should_retry [
    | none ↦ true
    | some should ↦ should error attempt
  ]

  module _ {A : Type 0} where
    abbrev pub waited : ℕ → Trace E A → Trace E A
    waited attempt t = record {
      ended = t.ended;
      calls = suc t.calls;
      waits = (attempt, retry_delay attempt) ∷ t.waits;
    }

    -- What follows an attempt.
    abbrev pub after : ℕ → Bool → Outcome E A → Trace E A → Trace E A
    after attempt is_last (returned a) later = record { ended = returned a; calls = 1; waits = [] }
    after attempt is_last (thrown error) later =
        if not (retryable error attempt) || is_last
        then record { ended = thrown (some error); calls = 1; waits = [] }
        else waited attempt later

    -- The loop, by the attempts left.
    unfoldable pub retry_loop : (ℕ → Outcome E A) → ℕ → ℕ → ℕ → Trace E A
    retry_loop fn attempts zero attempt = record { ended = thrown none; calls = 0; waits = [] }
    retry_loop fn attempts (suc left) attempt =
        after attempt (leb attempts attempt) (fn attempt)
          (retry_loop fn attempts left (suc attempt))

    unfoldable pub with_retry : (ℕ → Outcome E A) → Trace E A
    unfolding retry_loop
    with_retry fn = let attempts = or_number options.attempts 5 in retry_loop fn attempts attempts 1
