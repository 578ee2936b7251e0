-- ===== src/Messaging/Retry.antt =====
-- How often a publish is retried: ragcore/src/ragcore/messaging/retry.py. A duration is a count of
-- microseconds; the random source's `uniform` is an argument.
use itsm_poc.Common.{ℕ, Bool, leb, min, ◌*◌, ◌^◌}

pub record BackoffPolicy : Type 0 where
  pub ceiling : ℕ
  pub base_delay : ℕ
  pub max_delay : ℕ

abbrev pub default_policy : BackoffPolicy
default_policy = record { ceiling = 10; base_delay = 1000000; max_delay = 60000000 }

unfoldable pub exhausted : BackoffPolicy → (attempts : ℕ) → Bool
exhausted policy attempts = leb policy.ceiling attempts

unfoldable pub delay_for : BackoffPolicy → (uniform : ℕ → ℕ → ℕ) → (attempts : ℕ) → ℕ
delay_for policy uniform attempts =
    uniform 0 (min (policy.base_delay * 2 ^ attempts) policy.max_delay)
