-- ===== src/Client/Errors.antt =====
-- crates/immich-client/src/error.rs and response.rs: classes of failure, and which may be retried.
use immich_rs.Common.{
  within, ◌||◌, leb, false, true, some, ◌==◌, none, if◌then◌else◌, Bool, Option, ℕ,
}

pub data ClientErrorClass : Type 0 where
  authentication compatibility rate_limited server timeout disconnect : ClientErrorClass
  protocol source cancelled : ClientErrorClass

-- Durations are in nanoseconds.
pub record ClientError : Type 0 where
  pub class : ClientErrorClass
  pub status : Option ℕ
  pub retry_after : Option ℕ

-- `ClientError::new` and `ClientError::response`
unfoldable pub new : ClientErrorClass → ClientError
new class = record { class = class; status = none; retry_after = none }

unfoldable pub response : ClientErrorClass → ℕ → Option ℕ → ClientError
response class status retry_after = record {
  class = class;
  status = some status;
  retry_after = retry_after;
}

abbrev pub retryable_class : ClientErrorClass → Bool
retryable_class rate_limited = true
retryable_class server = true
retryable_class timeout = true
retryable_class disconnect = true
retryable_class _ = false

-- `ClientError::is_retryable`
unfoldable pub is_retryable : ClientError → Bool
is_retryable error = retryable_class error.class

abbrev pub is_cancelled_class : ClientErrorClass → Bool
is_cancelled_class cancelled = true
is_cancelled_class _ = false

-- The `match status` of `status_error`.
unfoldable pub class_of_status : ℕ → ClientErrorClass
class_of_status status =
    if status == 401 || status == 403
    then authentication
    else if status == 429
    then rate_limited
    else if status == 408 || (status == 425 || within 500 599 status)
    then server
    else protocol

-- `.filter(|delay| *delay <= retry_after_cap)` on a header that parsed
abbrev pub capped_header : Option ℕ → ℕ → Option ℕ
capped_header none cap = none
capped_header (some delay) cap = if leb delay cap then some delay else none

-- `status_error`; the header is the parsed `Retry-After`.
unfoldable pub status_error : ℕ → Option ℕ → ℕ → ClientError
unfolding class_of_status response
status_error status header retry_after_cap =
    response (class_of_status status) status (capped_header header retry_after_cap)
