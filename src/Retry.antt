-- ===== src/Retry.antt =====
-- src/utils/retry.ts: `retryWithBackoff` and `retryImmediate`. What the n-th attempt does is given from
-- outside, as a value or what it throws. Delays are whole milliseconds.
pub mod Attempts
use autobeat.Prelude.{ℕ, zero, suc, ◌*◌, ◌^◌, min, Bool, true, false, List, [], ◌∷◌, if◌then◌else◌}
use autobeat.Result.{Result, ok, err}

pub record RetryOptions (E : Type 0) : Type 0 where
  pub max_retries : ℕ
  pub initial_delay : ℕ
  pub max_delay : ℕ
  pub backoff_multiplier : ℕ
  pub is_retryable : E → Bool

-- The last attempt, counted from 0, the delays before the attempts, and what is returned or thrown.
pub record Run (T E : Type 0) : Type 0 where
  pub last : ℕ
  pub sleeps : List ℕ
  pub outcome : Result T E

-- `Math.min(initialDelay * Math.pow(backoffMultiplier, attempt), maxDelay)`
unfoldable pub delay_after : {E : Type 0} → RetryOptions E → ℕ → ℕ
delay_after o attempt = min (o.initial_delay * o.backoff_multiplier ^ attempt) o.max_delay

module _ {T E : Type 0} where
  abbrev pub stops : ℕ → Result T E → Run T E
  stops attempt r = record { last = attempt; sleeps = []; outcome = r }

  abbrev pub sleeps_first : ℕ → Run T E → Run T E
  sleeps_first delay r = record r { sleeps = delay ∷ r.sleeps }

  -- The rounds of the loop from an attempt on; `left` is `maxRetries - attempt`.
  unfoldable pub retry_from : RetryOptions E → (ℕ → Result T E) → (left attempt : ℕ) → Run T E
  retry_from o fn zero attempt = stops attempt (fn attempt)
  retry_from o fn (suc left) attempt =
      let rest = retry_from o fn left (suc attempt) in
      elim (fn attempt) [
        | ok v ↦ stops attempt (ok v)
        | err e ↦
            if o.is_retryable e
            then sleeps_first (delay_after o attempt) rest
            else stops attempt (err e)
      ]

  unfoldable pub retry_with_backoff : RetryOptions E → (ℕ → Result T E) → Run T E
  retry_with_backoff o fn = retry_from o fn o.max_retries 0

  -- `retryImmediate` from an attempt on, with so many left after it.
  unfoldable pub immediate_from : (ℕ → Result T E) → (left attempt : ℕ) → Run T E
  immediate_from fn zero attempt = stops attempt (fn attempt)
  immediate_from fn (suc left) attempt =
      let rest = immediate_from fn left (suc attempt) in
      elim (fn attempt) [ ok v ↦ stops attempt (ok v) | err e ↦ rest ]

  -- For at least one attempt; with none, `undefined` is thrown.
  unfoldable pub retry_immediate : (ℕ → Result T E) → (more_attempts : ℕ) → Run T E
  retry_immediate fn more_attempts = immediate_from fn more_attempts 0
