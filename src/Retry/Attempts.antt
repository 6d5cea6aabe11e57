-- ===== src/Retry/Attempts.antt =====
-- How often an operation is tried, and how long it is waited for.
use autobeat.Prelude.{
  ℕ, zero, suc, ◌+◌, ◌-◌, ◌*◌, ◌<◌, ◌≤◌, true, false, List, [], ◌∷◌, length, ◌≡◌, refl, ◌⊎◌, inl,
  inr, arith, Bool-cases, ℕ_discrete,
}
use autobeat.Result.{Result, ok, err, Result-cases}
use autobeat.Retry.{
  RetryOptions, Run, stops, sleeps_first, delay_after, retry_from, retry_with_backoff,
}

from_zero : (n : ℕ) → 0 + n ≡ n
from_zero n = omega arith

less_zero : (n : ℕ) → n - 0 ≡ n
less_zero n = omega arith

unfoldable pub total : List ℕ → ℕ
total [] = 0
total (n ∷ ns) = n + total ns

module _ {T E : Type 0} (o : RetryOptions E) (fn : ℕ → Result T E) where
  -- The attempt failed with an error that is worth another.
  abbrev pub IsTransient : ℕ → Type 0
  IsTransient n = (e : E) × (fn n ≡ err e) × (o.is_retryable e ≡ true)

  abbrev pub Finished : Run T E → ℕ → Type 0
  Finished r latest =
      ((v : T) × (r.outcome ≡ ok v))
      ⊎ ((e : E) × (r.outcome ≡ err e) × ((r.last ≡ latest) ⊎ (o.is_retryable e ≡ false)))

  -- What the rounds from an attempt on come to.
  record Tried (left attempt : ℕ) (r : Run T E) : Type 0 where
    above : attempt ≤ r.last
    below : r.last ≤ attempt + left
    answers : r.outcome ≡ fn r.last
    transient : (n : ℕ) → attempt ≤ n → n < r.last → IsTransient n
    finished : Finished r (attempt + left)
    slept : length r.sleeps ≡ r.last - attempt
    short : total r.sleeps ≤ (r.last - attempt) * o.max_delay

  stops-Tried :
      (left attempt : ℕ)
      → Finished (stops attempt (fn attempt)) (attempt + left)
      → Tried left attempt (stops attempt (fn attempt))
  unfolding total
  stops-Tried left attempt end = record {
    above = omega arith;
    below = omega arith;
    answers = refl;
    transient = λ n h h'. absurd (omega (arith, h, h'));
    finished = end;
    slept = omega arith;
    short = omega arith;
  }

  abbrev rest_of : ℕ → ℕ → Run T E
  rest_of left attempt = retry_from o fn left (suc attempt)

  -- One more round before those that were tried.
  sleeps_first-Tried :
      (left attempt : ℕ)
      → IsTransient attempt
      → Tried left (suc attempt) (rest_of left attempt)
      → Tried (suc left) attempt (sleeps_first (delay_after o attempt) (rest_of left attempt))
  unfolding total delay_after
  sleeps_first-Tried left attempt now later = record {
    above = omega (arith, later.above);
    below = omega (arith, later.below);
    answers = later.answers;
    transient = λ n h h'. elim (ℕ_discrete attempt n) [
      | yes same ↦ rw (← same) now
      | no other ↦ later.transient n (omega (arith, h, other)) h'
    ];
    finished = rw (suc_later attempt left) later.finished;
    slept = omega (arith, later.slept, later.above);
    short = rw (rounds later.above) (
        omega
          (arith, later.short, suc_rounds ((rest_of left attempt).last - suc attempt) o.max_delay));
  }
    where
      suc_later : (a l : ℕ) → a + suc l ≡ suc a + l
      suc_later a l = omega arith

      rounds : {a l : ℕ} → suc a ≤ l → l - a ≡ suc (l - suc a)
      rounds h = omega (arith, h)

      suc_rounds : (n d : ℕ) → suc n * d ≡ d + n * d
      suc_rounds n d = omega arith

  retry_stops :
      (left attempt : ℕ)
      → ((v : T) × (fn attempt ≡ ok v))
        ⊎ ((e : E) × (fn attempt ≡ err e) × (o.is_retryable e ≡ false))
      → retry_from o fn (suc left) attempt ≡ stops attempt (fn attempt)
  unfolding retry_from
  retry_stops left attempt (inl (v, e)) = rw (e, retry_from) refl
  retry_stops left attempt (inr (x, e, fatal)) = rw (e, fatal, retry_from) refl

  retry_goes_on :
      (left attempt : ℕ)
      → IsTransient attempt
      → retry_from o fn (suc left) attempt
        ≡ sleeps_first (delay_after o attempt) (rest_of left attempt)
  unfolding retry_from
  retry_goes_on left attempt (e, failed, again) = rw (failed, again, retry_from) refl

  retry_from-Tried : (left attempt : ℕ) → Tried left attempt (retry_from o fn left attempt)
  unfolding retry_from
  retry_from-Tried zero attempt = stops-Tried zero attempt (elim (Result-cases (fn attempt)) [
    | inl ok_now ↦ inl ok_now
    | inr (e, failed) ↦ inr (e, failed, inl (omega arith))
  ])
  retry_from-Tried (suc left) attempt = elim (Result-cases (fn attempt)) [
    | inl ok_now ↦
        rw (retry_stops left attempt (inl ok_now)) (stops-Tried (suc left) attempt (inl ok_now))
    | inr (e, failed) ↦ elim (Bool-cases (o.is_retryable e)) [
      | inr fatal ↦
          rw (retry_stops left attempt (inr (e, failed, fatal)))
            (stops-Tried (suc left) attempt (inr (e, failed, inr fatal)))
      | inl again ↦
          rw (retry_goes_on left attempt (e, failed, again)) (
            sleeps_first-Tried left attempt (e, failed, again)
              (retry_from-Tried left (suc attempt)))
    ]
  ]

  -- A retried operation is tried until it succeeds, fails for good, or was tried `maxRetries` times more;
  -- what is returned or thrown is what its last attempt gave, and all attempts before failed with an
  -- error worth another.
  pub retry_outcome :
      let r = retry_with_backoff o fn in
      (r.outcome ≡ fn r.last)
      × (r.last ≤ o.max_retries)
      × ((n : ℕ) → n < r.last → IsTransient n)
      × Finished r o.max_retries
  unfolding retry_with_backoff
  retry_outcome =
      let t = retry_from-Tried o.max_retries 0 in
      (
        t.answers,
        omega (arith, t.below),
        (λ n h. t.transient n (omega arith) h),
        rw (from_zero o.max_retries) at t.finished,
      )

  -- There is one delay before each further attempt, and together they are no longer than the longest
  -- delay for each.
  pub sleeps_le :
      let r = retry_with_backoff o fn in
      (length r.sleeps ≡ r.last) × (total r.sleeps ≤ r.last * o.max_delay)
  unfolding retry_with_backoff
  sleeps_le =
      let t = retry_from-Tried o.max_retries 0 in
      let none_before = less_zero (retry_from o fn o.max_retries 0).last in
      (rw none_before at t.slept, rw none_before at t.short)
