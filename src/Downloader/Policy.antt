-- ===== src/Downloader/Policy.antt =====
-- packages/downloader/src/domain/policy/policies.ts and domain/shared/unit.ts
-- Counts and times are natural numbers: facade/schemas.ts accepts positive integers only.
use music_downloader.Prelude.{
  ℕ, Bool, false, Option, none, some, ltb, ◌==◌, if◌then◌else◌, Result, ok, err, min, ◌||◌, not,
}
use music_downloader.Numbers.{
  one, Number, nan, minus_infinity, infinity, negative, nonneg, is_finite, is_negative, exceeds_one,
}
use music_downloader.Downloader.Quality.{QualityPolicy}

pub record OutOfUnitRange : Type 0 where
  pub value : Number

-- A number that is not negative, in units of 2^-1074.
abbrev magnitude : Number → ℕ
magnitude (nonneg n) = n
magnitude _ = 0

-- A `Unit` is its number of units of 2^-1074.
unfoldable pub parse_unit : Number → Result OutOfUnitRange ℕ
unfolding is_finite is_negative exceeds_one
parse_unit value =
    if not (is_finite value) || is_negative value || exceeds_one value
    then err (record { value = value })
    else ok (magnitude value)

unfoldable pub clamp_unit : Number → ℕ
clamp_unit nan = 0
clamp_unit minus_infinity = 0
clamp_unit (negative n) = 0
clamp_unit (nonneg n) = min one n
clamp_unit infinity = one

pub record MatchPolicy : Type 0 where
  pub threshold : ℕ

pub data MatchPolicyError : Type 0 where
  threshold_out_of_range : MatchPolicyError

abbrev policy_of_unit : Result OutOfUnitRange ℕ → Result MatchPolicyError MatchPolicy
policy_of_unit (ok bounded) = ok (record { threshold = bounded })
policy_of_unit (err e) = err threshold_out_of_range

unfoldable pub create_match_policy : Number → Result MatchPolicyError MatchPolicy
create_match_policy threshold = policy_of_unit (parse_unit threshold)

pub record RetryPolicy : Type 0 where
  pub max_search_rounds : ℕ
  pub max_total_attempts : ℕ
  pub time_budget_ms : Option ℕ

pub data RetryPolicyError : Type 0 where
  non_positive_search_rounds non_positive_total_attempts non_positive_time_budget : RetryPolicyError

abbrev is_given_and_zero : Option ℕ → Bool
is_given_and_zero none = false
is_given_and_zero (some n) = n == 0

-- The input has the fields of the policy, before they are checked.
unfoldable pub create_retry_policy : RetryPolicy → Result RetryPolicyError RetryPolicy
create_retry_policy input =
    if ltb input.max_search_rounds 1
    then err non_positive_search_rounds
    else if ltb input.max_total_attempts 1
    then err non_positive_total_attempts
    else if is_given_and_zero input.time_budget_ms
    then err non_positive_time_budget
    else ok input

pub record TryPolicy : Type 0 where
  pub stall_timeout_ms : ℕ
  pub max_queue_wait_ms : ℕ

pub data TryPolicyError : Type 0 where
  non_positive_stall_timeout non_positive_queue_wait : TryPolicyError

unfoldable pub create_download_policy : TryPolicy → Result TryPolicyError TryPolicy
create_download_policy input =
    if input.stall_timeout_ms == 0
    then err non_positive_stall_timeout
    else if input.max_queue_wait_ms == 0
    then err non_positive_queue_wait
    else ok input

pub record DownloadPolicies : Type 0 where
  pub quality : QualityPolicy
  pub matching : MatchPolicy
  pub retry : RetryPolicy
  pub download : TryPolicy
