-- ===== src/Executor/Config.antt =====
-- crates/immich-executor/src/config.rs and error.rs. Durations are in nanoseconds.
use immich_rs.Common.{
  err, ◌==◌, not, leb, ◌&&◌, ◌*◌, arith, within, if◌then◌else◌, ok, ◌<◌, ◌≡◌, ◌≤◌, Result, ℕ,
}

pub data ExecutorErrorClass : Type 0 where
  invalid_configuration invalid_plan source_diagnostics unsupported_metadata : ExecutorErrorClass
  source_changed cancelled checkpoint destination client invariant : ExecutorErrorClass

-- The scan limits that the record also holds are not read here.
pub record UploadExecutionConfig : Type 0 where
  pub verification_buffer_bytes : ℕ
  pub concurrency : ℕ
  pub max_attempts_per_operation : ℕ
  pub max_retries_per_run : ℕ
  pub retry_base_delay : ℕ
  pub retry_delay_cap : ℕ

abbrev pub nanos_per_second : ℕ
nanos_per_second = 1_000_000_000

abbrev pub nanos_per_milli : ℕ
nanos_per_milli = 1_000_000

unfoldable pub validate : UploadExecutionConfig → Result ExecutorErrorClass (Unit {0})
validate config =
    if within (4 * 1024) (4 * 1024 * 1024) config.verification_buffer_bytes
      && (within 1 8 config.concurrency
          && (within 1 10 config.max_attempts_per_operation
              && (leb config.max_retries_per_run 10_000
                  && (not (config.retry_base_delay == 0)
                      && (leb config.retry_base_delay config.retry_delay_cap
                          && leb config.retry_delay_cap (300 * nanos_per_second))))))
    then ok tt
    else err invalid_configuration

-- The bounds that the rest of the executor relies on.
pub record IsConfig (config : UploadExecutionConfig) : Type 0 where
  pub some_attempt : 1 ≤ config.max_attempts_per_operation
  pub few_attempts : config.max_attempts_per_operation ≤ 10
  pub few_retries : config.max_retries_per_run ≤ 10_000
  pub delays : 0 < config.retry_base_delay
  pub capped : config.retry_base_delay ≤ config.retry_delay_cap
  pub short : config.retry_delay_cap ≤ 300 * nanos_per_second

pub validate-IsConfig : (config : UploadExecutionConfig) → validate config ≡ ok tt → IsConfig config
unfolding validate
validate-IsConfig config h = ground arith
