-- ===== src/Tests/ProductRuns.antt =====
-- A call that fails twice and then returns.
use lumengate.Prelude.{
  ℕ, ◌≤◌, ◌≡◌, refl, none, some, [], ◌∷◌, arith, ltb, leb, if◌then◌else◌, All, pos,
}
use lumengate.Prelude.Result.{ok}
use lumengate.Product.Amount.{parse_stellar_amount, format_stellar_amount}
use lumengate.Product.Amount.RoundTrip.{parse_stellar_amount-format_stellar_amount}
use lumengate.Product.Retry.{RetryOptions, Outcome, returned, thrown, with_retry}
use lumengate.Product.Retry.Laws.{IsShort, with_retry-bounds, with_retry-returned}

abbrev options : RetryOptions ℕ
options = record {
  attempts = some 4;
  base_delay_ms = none;
  max_delay_ms = none;
  jitter_ms = some 10;
  should_retry = some (λ error attempt. leb 500 error);
}

abbrev draw : ℕ → ℕ
draw n = 3

abbrev flaky : ℕ → Outcome ℕ ℕ
flaky n = if ltb n 3 then thrown 503 else returned 7

with_retry-bounds_example :
    ((with_retry options draw flaky).calls ≤ 4)
    × All (IsShort options draw) (with_retry options draw flaky).waits
with_retry-bounds_example = with_retry-bounds options draw flaky (λ n _. omega arith)

with_retry-returned_example :
    ((with_retry options draw flaky).ended ≡ returned 7)
    × ((with_retry options draw flaky).calls ≡ 3)
with_retry-returned_example =
    with_retry-returned options draw flaky 2 7 ((503, refl, refl), ((503, refl, refl), refl))
      (omega arith)

parse_stellar_amount-format_stellar_amount_example :
    parse_stellar_amount (format_stellar_amount (pos 12500000) 7) 7 ≡ ok (pos 12500000)
parse_stellar_amount-format_stellar_amount_example =
    parse_stellar_amount-format_stellar_amount 12500000 7

-- 1.25
format_run : format_stellar_amount (pos 12500000) 7 ≡ b'1' ∷ b'.' ∷ b'2' ∷ b'5' ∷ []
unfolding format_stellar_amount
format_run = refl
