-- ===== src/Downloader/Retry.antt =====
-- packages/downloader/src/application/download/retry-policy.ts
-- Instants are milliseconds. A roll of `Math.random` is its number of units of 2^-53; the delay is
-- taken without rounding, and the date drops its fraction.
use music_downloader.Prelude.{
  ℕ, ◌+◌, ◌-◌, ◌*◌, ◌/◌, ◌^◌, ◌≤◌, ◌<◌, ◌≡◌, refl, true, false, min, leb, if◌then◌else◌, Bool-cases,
  inl, inr, ◌⊎◌, arith,
}

pub record RetryPolicy : Type 0 where
  pub initial_delay_ms : ℕ
  pub max_delay_ms : ℕ
  pub budget_ms : ℕ

abbrev pub default_retry_policy : RetryPolicy
default_retry_policy = record {
  initial_delay_ms = 5000;
  max_delay_ms = 900_000;
  budget_ms = 21_600_000;
}

pub data RetrySchedule : Type 0 where
  retry : (next_retry_at : ℕ) → RetrySchedule
  exhausted : RetrySchedule

abbrev pub retry_step : RetryPolicy → ℕ → ℕ
retry_step policy attempt = min (policy.initial_delay_ms * 2 ^ (attempt - 1)) policy.max_delay_ms

abbrev pub unit_roll : ℕ
unit_roll = 2 ^ 53

-- `step / 2 + (step / 2) * random`, without its fraction.
unfoldable pub jittered : ℕ → ℕ → ℕ
jittered step random = (step * unit_roll + step * random) / (2 * unit_roll)

unfoldable pub next_retry : RetryPolicy → (attempt parked_at now random : ℕ) → RetrySchedule
unfolding jittered
next_retry policy attempt parked_at now random =
    if leb (parked_at + policy.budget_ms) now
    then exhausted
    else retry (now + jittered (retry_step policy attempt) random)

jittered_bounds :
    (step random : ℕ)
    → random ≤ unit_roll
    → (step ≤ 2 * jittered step random + 1) × (jittered step random ≤ step)
unfolding jittered
jittered_bounds step random h = grind arith

-- Where the roll is at most 1, a retry that is scheduled inside the budget is due within half the
-- step, without its fraction, and the step, which is at most the longest delay; outside the budget,
-- none is scheduled.
pub next_retry_window :
    (policy : RetryPolicy) (attempt parked_at now random : ℕ)
    → random ≤ unit_roll
    → ((now < parked_at + policy.budget_ms)
        × ((at : ℕ) × (next_retry policy attempt parked_at now random ≡ retry at)
            × (now + retry_step policy attempt / 2 ≤ at)
            × (at ≤ now + retry_step policy attempt)
            × (at ≤ now + policy.max_delay_ms)))
      ⊎ ((parked_at + policy.budget_ms ≤ now)
          × (next_retry policy attempt parked_at now random ≡ exhausted))
unfolding next_retry
next_retry_window policy attempt parked_at now random h =
    elim (Bool-cases (leb (parked_at + policy.budget_ms) now)) [
      | inl spent ↦ inr (spent_le _ _ spent, rw spent refl)
      | inr left ↦
          let bounds = jittered_bounds (retry_step policy attempt) random h in
          inl (
            left_lt _ _ left,
            (
              now + jittered (retry_step policy attempt) random,
              rw left refl,
              omega (arith, bounds.0),
              omega (arith, bounds.1),
              omega (arith, bounds.1),
            ),
          )
    ]
  where
    spent_le : (a b : ℕ) → leb a b ≡ true → a ≤ b
    spent_le a b e = ground arith

    left_lt : (a b : ℕ) → leb a b ≡ false → b < a
    left_lt a b e = ground arith
