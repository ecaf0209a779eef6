-- ===== src/Product/Retry/Laws.antt =====
-- What `withRetry` returns, and what it costs.
use lumengate.Prelude.{
  ℕ, zero, suc, ◌+◌, ◌≤◌, ◌<◌, ◌≡◌, refl, ap, inl, inr, Bool, true, false, not, ◌||◌, arith, leb,
  Bool-cases, All,
}
use lumengate.Product.Retry.{
  RetryOptions, Outcome, returned, thrown, Trace, or_number, retry_delay, retryable, after,
  retry_loop, with_retry,
}

module _ {E : Type 0} (options : RetryOptions E) (draw : ℕ → ℕ) where
  -- A wait is as long as the options allow at most.
  abbrev pub IsShort : ℕ × ℕ → Type 0
  IsShort (attempt, delay) =
      delay ≤ or_number options.max_delay_ms 8000 + or_number options.jitter_ms 250

  retry_delay-IsShort :
      (attempt : ℕ)
      → ((n : ℕ) → 0 < or_number options.jitter_ms 250 → draw n < or_number options.jitter_ms 250)
      → IsShort (attempt, retry_delay options draw attempt)
  unfolding retry_delay
  retry_delay-IsShort attempt h = ground (arith, h attempt)

  module _ {A : Type 0} where
    after-bounds :
        (attempt left : ℕ) (is_last : Bool) (o : Outcome E A) (later : Trace E A)
        → IsShort (attempt, retry_delay options draw attempt)
        → (later.calls ≤ left) × All IsShort later.waits
        → ((after options draw attempt is_last o later).calls ≤ suc left)
          × All IsShort (after options draw attempt is_last o later).waits
    after-bounds attempt left is_last (returned a) later short (few, shorts) = (omega arith, tt)
    after-bounds attempt left is_last (thrown error) later short (few, shorts) =
        elim (Bool-cases (not (retryable options draw error attempt) || is_last)) [
          | inl y ↦ rw y (omega arith, tt)
          | inr n ↦ rw n (omega arith, (short, shorts))
        ]

    retry_loop-bounds :
        (fn : ℕ → Outcome E A) (attempts left attempt : ℕ)
        → ((n : ℕ) → 0 < or_number options.jitter_ms 250 → draw n < or_number options.jitter_ms 250)
        → ((retry_loop options draw fn attempts left attempt).calls ≤ left)
          × All IsShort (retry_loop options draw fn attempts left attempt).waits
    unfolding retry_loop
    retry_loop-bounds fn attempts zero attempt h = (omega arith, tt)
    retry_loop-bounds fn attempts (suc left) attempt h =
        after-bounds attempt left (leb attempts attempt) (fn attempt) _
          (retry_delay-IsShort attempt h) (retry_loop-bounds fn attempts left (suc attempt) h)

    -- withRetry calls the function at most as often as there are attempts, and each wait is
    -- at most the greatest delay and the jitter together, where a draw stays below the
    -- jitter.
    pub with_retry-bounds :
        (fn : ℕ → Outcome E A)
        → ((n : ℕ) → 0 < or_number options.jitter_ms 250 → draw n < or_number options.jitter_ms 250)
        → ((with_retry options draw fn).calls ≤ or_number options.attempts 5)
          × All IsShort (with_retry options draw fn).waits
    unfolding with_retry
    with_retry-bounds fn h = retry_loop-bounds fn _ (or_number options.attempts 5) 1 h

    -- The attempts from `attempt` on that fail before one succeeds.
    abbrev pub FailsUntil : (ℕ → Outcome E A) → ℕ → ℕ → A → Type 0
    FailsUntil fn zero attempt a = fn attempt ≡ returned a
    FailsUntil fn (suc failures) attempt a =
        ((error : E) × (fn attempt ≡ thrown error) × (retryable options draw error attempt ≡ true))
        × FailsUntil fn failures (suc attempt) a

    retry_loop-returned :
        (fn : ℕ → Outcome E A) (attempts left attempt failures : ℕ) (a : A)
        → FailsUntil fn failures attempt a
        → failures < left
        → attempt + failures ≤ attempts
        → ((retry_loop options draw fn attempts left attempt).ended ≡ returned a)
          × ((retry_loop options draw fn attempts left attempt).calls ≡ suc failures)
    unfolding retry_loop
    retry_loop-returned fn attempts zero attempt failures a h fits within = absurd (omega arith)
    retry_loop-returned fn attempts (suc left) attempt zero a h fits within = rw h (refl, refl)
    retry_loop-returned fn attempts (suc left) attempt (suc failures) a ((error, e, again), h) fits
          within =
        let (ended, calls) =
          retry_loop-returned fn attempts left (suc attempt) failures a h (omega arith)
            (omega arith) in
        let more : leb attempts attempt ≡ false = ground arith in
        rw (e, again, more) (ended, ap suc calls)

    -- If the first attempts fail with errors that are retried and the next returns, within
    -- the number of attempts, withRetry returns its value, after exactly these calls.
    pub with_retry-returned :
        (fn : ℕ → Outcome E A) (failures : ℕ) (a : A)
        → FailsUntil fn failures 1 a
        → failures < or_number options.attempts 5
        → ((with_retry options draw fn).ended ≡ returned a)
          × ((with_retry options draw fn).calls ≡ suc failures)
    unfolding with_retry
    with_retry-returned fn failures a h few =
        retry_loop-returned fn (or_number options.attempts 5) (or_number options.attempts 5) 1
          failures a h few (omega arith)
