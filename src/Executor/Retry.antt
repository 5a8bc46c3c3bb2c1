-- ===== src/Executor/Retry.antt =====
-- crates/immich-executor/src/retry.rs: the shared retry budget and the backoff delay.
use immich_rs.Common.{
  false, true, zero, ltb, ◌==◌, ◌≡◌, none, arith, ◌%◌, ◌+◌, ◌*◌, if◌then◌else◌, ◌-◌, u32_max, suc,
  ◌^◌, ◌++◌, ◌≤◌, ◌<◌, [], min, Bool, ◌/◌, some, ◌∷◌, u64_max, ℕ, Text,
}
use immich_rs.Client.Errors.{ClientError}
use immich_rs.Executor.Config.{UploadExecutionConfig, IsConfig, nanos_per_milli, nanos_per_second}

pub record RetryBudget : Type 0 where
  pub used : ℕ
  pub maximum : ℕ

unfoldable pub new : ℕ → RetryBudget
new maximum = record { used = 0; maximum = maximum }

-- `claim`: one atomic update, which fails once the maximum is reached. `used` is a u32 below the
-- maximum, so the saturating addition is exact.
unfoldable pub claim : RetryBudget → RetryBudget × Bool
claim budget =
    if ltb budget.used budget.maximum
    then (record budget { used = min (budget.used + 1) u32_max }, true)
    else (budget, false)

-- `Duration::MAX`, and the saturating operations on durations
abbrev pub duration_max : ℕ
duration_max = u64_max * nanos_per_second + 999_999_999

abbrev pub duration_add : ℕ → ℕ → ℕ
duration_add a b = min (a + b) duration_max

abbrev pub duration_mul : ℕ → ℕ → ℕ
duration_mul a factor = min (a * factor) duration_max

-- `duration_millis`
abbrev pub duration_millis : ℕ → ℕ
duration_millis duration = min (duration / nanos_per_milli) u64_max

-- `retry_count.saturating_sub(1).min(20)`
abbrev pub exponent_of : ℕ → ℕ
exponent_of retry_count = min (retry_count - 1) 20

unfoldable pub exponential_delay : ℕ → UploadExecutionConfig → ℕ
exponential_delay retry_count config =
    min (duration_mul config.retry_base_delay (2 ^ exponent_of retry_count)) config.retry_delay_cap

-- `u32::to_be_bytes` and `u64::from_be_bytes`
abbrev be_bytes : ℕ → Text
be_bytes n = (n / 16777216 % 256) ∷ (n / 65536 % 256) ∷ (n / 256 % 256) ∷ (n % 256) ∷ []

from_be_bytes : ℕ → Text → ℕ
from_be_bytes value [] = value
from_be_bytes value (b ∷ rest) = from_be_bytes (value * 256 + b) rest

abbrev take : ℕ → Text → Text
take zero xs = []
take (suc n) [] = []
take (suc n) (x ∷ xs) = x ∷ take n xs

exponential_delay-le-cap :
    (n : ℕ) (config : UploadExecutionConfig) → exponential_delay n config ≤ config.retry_delay_cap
unfolding exponential_delay
exponential_delay-le-cap n config = omega arith

-- SHA-256 is a parameter; its digest is a list of bytes.
module _ (sha256 : Text → Text) where
  unfoldable pub jitter : Text → ℕ → ℕ → ℕ
  unfolding from_be_bytes
  jitter operation_id retry_count window =
      from_be_bytes 0 (take 8 (sha256 (operation_id ++ be_bytes retry_count))) % window

  -- The part of `delay` that is used when the server asked for no delay of its own.
  unfoldable pub backoff : Text → ℕ → UploadExecutionConfig → ℕ
  backoff operation_id retry_count config =
      let exponential = exponential_delay retry_count config in
      let window = duration_millis config.retry_base_delay / 4 in
      if window == 0
      then exponential
      else min (duration_add exponential (jitter operation_id retry_count window * nanos_per_milli))
          config.retry_delay_cap

  unfoldable pub delay : Text → ℕ → ClientError → UploadExecutionConfig → ℕ
  delay operation_id retry_count error config = elim error.retry_after [
    | some server_delay ↦ min server_delay config.retry_delay_cap
    | none ↦ backoff operation_id retry_count config
  ]

  jitter-lt : (id : Text) (n window : ℕ) → 0 < window → jitter id n window < window
  unfolding jitter
  jitter-lt id n window h = grind arith

  -- Without a server's delay, under a valid configuration, the wait is at least the exponential delay,
  -- never above the cap, and the jitter adds less than a quarter of the base delay.
  pub backoff_bounds :
      (id : Text) (n : ℕ) (config : UploadExecutionConfig)
      → IsConfig config
      → (exponential_delay n config ≤ backoff id n config)
        × (backoff id n config ≤ config.retry_delay_cap)
        × (4 * backoff id n config < 4 * exponential_delay n config + config.retry_base_delay)
  unfolding backoff
  backoff_bounds id n config v = ground (
    arith,
    exponential_delay-le-cap n config,
    jitter-lt id n (duration_millis config.retry_base_delay / 4),
  )

  -- Under a valid configuration, however the delay is found, no wait is longer than the configured cap.
  pub delay-le-cap :
      (id : Text) (n : ℕ) (error : ClientError) (config : UploadExecutionConfig)
      → IsConfig config
      → delay id n error config ≤ config.retry_delay_cap
  unfolding delay
  delay-le-cap id n error config v = ground (arith, backoff_bounds id n config v)

claim-bounds :
    (budget : RetryBudget)
    → budget.used ≤ budget.maximum
    → budget.maximum ≤ u32_max
    → ((claim budget).0.used ≤ (claim budget).0.maximum)
      × ((claim budget).0.maximum ≡ budget.maximum)
      × ((claim budget).0.used ≡ (if (claim budget).1 then budget.used + 1 else budget.used))
unfolding claim
claim-bounds budget h k = ground arith
