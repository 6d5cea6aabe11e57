-- ===== src/Tests/RetryTests.antt =====
-- src/utils/retry.ts on an operation that fails twice and then answers.
use autobeat.Prelude.{ℕ, zero, suc, ◌*◌, ◌<◌, ◌≤◌, true, [], ◌∷◌, ◌≡◌, refl, length}
use autobeat.Result.{Result, ok, err}
use autobeat.Retry.{
  RetryOptions, delay_after, retry_from, retry_with_backoff, immediate_from, retry_immediate,
}
use autobeat.Retry.Attempts.{IsTransient, Finished, total, retry_outcome, sleeps_le}

program : Unit {0}
unfolding delay_after retry_from retry_with_backoff immediate_from retry_immediate total
program = tt

abbrev options : RetryOptions ℕ
options = record {
  max_retries = 3;
  initial_delay = 1000;
  max_delay = 1500;
  backoff_multiplier = 2;
  is_retryable = λ e. true;
}

abbrev third_time : ℕ → Result ℕ ℕ
third_time zero = err 7
third_time (suc zero) = err 8
third_time _ = ok 9

retry_third :
    retry_with_backoff options third_time
    ≡ record { last = 2; sleeps = 1000 ∷ 1500 ∷ []; outcome = ok 9 }
unfolding program
retry_third = refl

immediate_third : retry_immediate third_time 1 ≡ record { last = 1; sleeps = []; outcome = err 8 }
unfolding program
immediate_third = refl

retry_outcome_example :
    ((retry_with_backoff options third_time).outcome
      ≡ third_time (retry_with_backoff options third_time).last)
    × ((retry_with_backoff options third_time).last ≤ 3)
    × ((n : ℕ)
        → n < (retry_with_backoff options third_time).last
        → IsTransient options third_time n)
    × Finished options third_time (retry_with_backoff options third_time) 3
retry_outcome_example = retry_outcome options third_time

sleeps_le_example :
    (length (retry_with_backoff options third_time).sleeps
      ≡ (retry_with_backoff options third_time).last)
    × (total (retry_with_backoff options third_time).sleeps
        ≤ (retry_with_backoff options third_time).last * 1500)
sleeps_le_example = sleeps_le options third_time
