-- ===== src/Web/Limits.antt =====
-- crates/immich-web/src/limits.rs: the console's resource bounds, their defaults and hard maxima.
pub mod Valid
use immich_rs.Common.{
  str, err, ok, sat_add, ◌&&◌, leb, if◌then◌else◌, within, ◌*◌, Option, ℕ, Bool, Result, get_or,
  Text,
}

pub record WebLimits : Type 0 where
  pub request_header_bytes : ℕ
  pub request_body_bytes : ℕ
  pub accepted_connections : ℕ
  pub header_read_seconds : ℕ
  pub response_seconds : ℕ
  pub max_sessions : ℕ
  pub session_idle_seconds : ℕ
  pub session_absolute_seconds : ℕ
  pub bootstrap_lifetime_seconds : ℕ
  pub concurrent_jobs : ℕ
  pub queued_jobs : ℕ
  pub retained_jobs : ℕ
  pub sse_subscribers_per_session : ℕ
  pub sse_subscribers_per_process : ℕ
  pub sse_replay_events : ℕ
  pub sse_heartbeat_seconds : ℕ
  pub dns_addresses : ℕ
  pub history_page_rows : ℕ
  pub history_retained_rows : ℕ
  pub history_retention_days : ℕ
  pub history_store_bytes : ℕ
  pub plan_file_bytes : ℕ
  pub plan_store_bytes : ℕ
  pub dry_run_receipt_seconds : ℕ
  pub production_grant_seconds : ℕ
  pub backup_reference_bytes : ℕ
  pub oidc_discovery_bytes : ℕ
  pub oidc_jwks_bytes : ℕ
  pub oidc_signing_keys : ℕ
  pub oidc_state_seconds : ℕ
  pub oidc_token_bytes : ℕ

-- `WebLimits::default`
unfoldable pub default_limits : WebLimits
default_limits = record {
  request_header_bytes = 16 * 1024;
  request_body_bytes = 16 * 1024;
  accepted_connections = 16;
  header_read_seconds = 5;
  response_seconds = 15;
  max_sessions = 8;
  session_idle_seconds = 30 * 60;
  session_absolute_seconds = 8 * 60 * 60;
  bootstrap_lifetime_seconds = 10 * 60;
  concurrent_jobs = 1;
  queued_jobs = 4;
  retained_jobs = 128;
  sse_subscribers_per_session = 4;
  sse_subscribers_per_process = 16;
  sse_replay_events = 128;
  sse_heartbeat_seconds = 15;
  dns_addresses = 4;
  history_page_rows = 50;
  history_retained_rows = 5000;
  history_retention_days = 30;
  history_store_bytes = 32 * 1024 * 1024;
  plan_file_bytes = 128 * 1024 * 1024;
  plan_store_bytes = 512 * 1024 * 1024;
  dry_run_receipt_seconds = 5 * 60;
  production_grant_seconds = 90;
  backup_reference_bytes = 256;
  oidc_discovery_bytes = 64 * 1024;
  oidc_jwks_bytes = 256 * 1024;
  oidc_signing_keys = 8;
  oidc_state_seconds = 3 * 60;
  oidc_token_bytes = 32 * 1024;
}

-- The limits of a configuration file, each one optional.
pub record RawWebLimits : Type 0 where
  pub request_header_bytes : Option ℕ
  pub request_body_bytes : Option ℕ
  pub accepted_connections : Option ℕ
  pub header_read_seconds : Option ℕ
  pub response_seconds : Option ℕ
  pub max_sessions : Option ℕ
  pub session_idle_seconds : Option ℕ
  pub session_absolute_seconds : Option ℕ
  pub bootstrap_lifetime_seconds : Option ℕ
  pub concurrent_jobs : Option ℕ
  pub queued_jobs : Option ℕ
  pub retained_jobs : Option ℕ
  pub sse_subscribers_per_session : Option ℕ
  pub sse_subscribers_per_process : Option ℕ
  pub sse_replay_events : Option ℕ
  pub sse_heartbeat_seconds : Option ℕ
  pub dns_addresses : Option ℕ
  pub history_page_rows : Option ℕ
  pub history_retained_rows : Option ℕ
  pub history_retention_days : Option ℕ
  pub history_store_bytes : Option ℕ
  pub plan_file_bytes : Option ℕ
  pub plan_store_bytes : Option ℕ
  pub dry_run_receipt_seconds : Option ℕ
  pub production_grant_seconds : Option ℕ
  pub backup_reference_bytes : Option ℕ
  pub oidc_discovery_bytes : Option ℕ
  pub oidc_jwks_bytes : Option ℕ
  pub oidc_signing_keys : Option ℕ
  pub oidc_state_seconds : Option ℕ
  pub oidc_token_bytes : Option ℕ

unfoldable pub into_limits : RawWebLimits → WebLimits
into_limits raw = record {
  request_header_bytes = get_or raw.request_header_bytes default_limits.request_header_bytes;
  request_body_bytes = get_or raw.request_body_bytes default_limits.request_body_bytes;
  accepted_connections = get_or raw.accepted_connections default_limits.accepted_connections;
  header_read_seconds = get_or raw.header_read_seconds default_limits.header_read_seconds;
  response_seconds = get_or raw.response_seconds default_limits.response_seconds;
  max_sessions = get_or raw.max_sessions default_limits.max_sessions;
  session_idle_seconds = get_or raw.session_idle_seconds default_limits.session_idle_seconds;
  session_absolute_seconds =
      get_or raw.session_absolute_seconds default_limits.session_absolute_seconds;
  bootstrap_lifetime_seconds =
      get_or raw.bootstrap_lifetime_seconds default_limits.bootstrap_lifetime_seconds;
  concurrent_jobs = get_or raw.concurrent_jobs default_limits.concurrent_jobs;
  queued_jobs = get_or raw.queued_jobs default_limits.queued_jobs;
  retained_jobs = get_or raw.retained_jobs default_limits.retained_jobs;
  sse_subscribers_per_session =
      get_or raw.sse_subscribers_per_session default_limits.sse_subscribers_per_session;
  sse_subscribers_per_process =
      get_or raw.sse_subscribers_per_process default_limits.sse_subscribers_per_process;
  sse_replay_events = get_or raw.sse_replay_events default_limits.sse_replay_events;
  sse_heartbeat_seconds = get_or raw.sse_heartbeat_seconds default_limits.sse_heartbeat_seconds;
  dns_addresses = get_or raw.dns_addresses default_limits.dns_addresses;
  history_page_rows = get_or raw.history_page_rows default_limits.history_page_rows;
  history_retained_rows = get_or raw.history_retained_rows default_limits.history_retained_rows;
  history_retention_days = get_or raw.history_retention_days default_limits.history_retention_days;
  history_store_bytes = get_or raw.history_store_bytes default_limits.history_store_bytes;
  plan_file_bytes = get_or raw.plan_file_bytes default_limits.plan_file_bytes;
  plan_store_bytes = get_or raw.plan_store_bytes default_limits.plan_store_bytes;
  dry_run_receipt_seconds =
      get_or raw.dry_run_receipt_seconds default_limits.dry_run_receipt_seconds;
  production_grant_seconds =
      get_or raw.production_grant_seconds default_limits.production_grant_seconds;
  backup_reference_bytes = get_or raw.backup_reference_bytes default_limits.backup_reference_bytes;
  oidc_discovery_bytes = get_or raw.oidc_discovery_bytes default_limits.oidc_discovery_bytes;
  oidc_jwks_bytes = get_or raw.oidc_jwks_bytes default_limits.oidc_jwks_bytes;
  oidc_signing_keys = get_or raw.oidc_signing_keys default_limits.oidc_signing_keys;
  oidc_state_seconds = get_or raw.oidc_state_seconds default_limits.oidc_state_seconds;
  oidc_token_bytes = get_or raw.oidc_token_bytes default_limits.oidc_token_bytes;
}

-- The four groups of tests of `WebLimits::validate`.
unfoldable pub valid_sessions : WebLimits → Bool
valid_sessions l =
    within 1 (32 * 1024) l.request_header_bytes
    && within 1 (64 * 1024) l.request_body_bytes
    && within 1 32 l.accepted_connections
    && within 1 10 l.header_read_seconds
    && within 1 30 l.response_seconds
    && within 1 16 l.max_sessions
    && within 1 (60 * 60) l.session_idle_seconds
    && within 1 (12 * 60 * 60) l.session_absolute_seconds
    && leb l.session_idle_seconds l.session_absolute_seconds
    && within 1 (15 * 60) l.bootstrap_lifetime_seconds

unfoldable pub valid_jobs : WebLimits → Bool
valid_jobs l =
    within 1 4 l.concurrent_jobs
    && within 1 8 l.queued_jobs
    && within 1 256 l.retained_jobs
    && leb (sat_add l.concurrent_jobs l.queued_jobs) l.retained_jobs
    && within 1 8 l.sse_subscribers_per_session
    && within 1 32 l.sse_subscribers_per_process
    && leb l.sse_subscribers_per_session l.sse_subscribers_per_process
    && within 1 256 l.sse_replay_events
    && within 1 30 l.sse_heartbeat_seconds
    && within 1 8 l.dns_addresses
    && within 1 100 l.history_page_rows
    && within 1 10000 l.history_retained_rows
    && leb l.history_page_rows l.history_retained_rows
    && within 1 90 l.history_retention_days
    && within (1024 * 1024) (64 * 1024 * 1024) l.history_store_bytes
    && within (1024 * 1024) (256 * 1024 * 1024) l.plan_file_bytes

unfoldable pub valid_stores : WebLimits → Bool
valid_stores l =
    leb (sat_add l.plan_file_bytes (16 * 1024)) l.plan_store_bytes
    && leb l.plan_store_bytes (4 * 1024 * 1024 * 1024)
    && within 1 (10 * 60) l.dry_run_receipt_seconds
    && within 1 120 l.production_grant_seconds
    && within 1 256 l.backup_reference_bytes

unfoldable pub valid_oidc : WebLimits → Bool
valid_oidc l =
    within 1 (128 * 1024) l.oidc_discovery_bytes
    && within 1 (512 * 1024) l.oidc_jwks_bytes
    && within 1 16 l.oidc_signing_keys
    && within 1 (5 * 60) l.oidc_state_seconds
    && within 1 (64 * 1024) l.oidc_token_bytes

-- The error is its message.
unfoldable pub validate : WebLimits → Result Text WebLimits
validate l =
    if valid_sessions l && valid_jobs l && valid_stores l && valid_oidc l
    then ok l
    else err (str "web resource limits are invalid")
