-- ===== src/Web/Jobs/Types.antt =====
-- crates/immich-web/src/jobs/types.rs and the records of src/state_store/types.rs: a job, its events and
-- its history record. Identifiers, owners and references are byte strings.
use immich_rs.Common.{
  ◌==◌, length, if◌then◌else◌, ◌∷◌, ◌++◌, sat_add, some, List, true, [], ℕ, Bool, none, false,
  Option, ℤ, Text,
}

pub data JobStatus : Type 0 where
  queued running completed failed cancelled : JobStatus

abbrev pub terminal : JobStatus → Bool
terminal queued = false
terminal running = false
terminal completed = true
terminal failed = true
terminal cancelled = true

-- `status == JobStatus::Queued` and `status == JobStatus::Running`
abbrev pub is_queued : JobStatus → Bool
is_queued queued = true
is_queued _ = false

abbrev pub is_running : JobStatus → Bool
is_running running = true
is_running _ = false

-- The stage of a scan is a number here; only its presence is read.
pub record JobProgress : Type 0 where
  pub sequence : ℕ
  pub stage : Option ℕ
  pub assets_observed : ℕ
  pub bytes_read : ℕ

abbrev pub default_progress : JobProgress
default_progress = record { sequence = 0; stage = none; assets_observed = 0; bytes_read = 0 }

pub record JobSummary : Type 0 where
  pub schema_version : ℕ
  pub assets : ℕ
  pub sidecars : ℕ
  pub bytes_read : ℕ
  pub warnings : ℕ
  pub errors : ℕ

pub data HistoryKind : Type 0 where
  folder_scan : HistoryKind
  folder_plan google_takeout_plan apple_photos_plan picasa_plan : HistoryKind
  folder_dry_run google_takeout_dry_run apple_photos_dry_run picasa_dry_run : HistoryKind
  folder_apply google_takeout_apply apple_photos_apply picasa_apply : HistoryKind

pub data TerminalStatus : Type 0 where
  completed failed cancelled : TerminalStatus

pub record SafeCounters : Type 0 where
  pub assets : ℕ
  pub sidecars : ℕ
  pub bytes_read : ℕ
  pub warnings : ℕ
  pub errors : ℕ
  pub max_logical_effects : ℕ

abbrev pub default_counters : SafeCounters
default_counters = record {
  assets = 0;
  sidecars = 0;
  bytes_read = 0;
  warnings = 0;
  errors = 0;
  max_logical_effects = 0;
}

pub record PlanArtifact : Type 0 where
  pub reference : Text
  pub schema_version : ℕ
  pub plan_sha256 : Text
  pub max_logical_effects : ℕ

pub record DryRunBinding : Type 0 where
  pub plan_reference : Text
  pub plan_sha256 : Text
  pub source_configuration_sha256 : Text
  pub server_identity_sha256 : Text
  pub server_profile_sha256 : Text
  pub credential_generation : ℕ
  pub max_logical_effects : ℕ
  pub completed_unix : ℤ

pub record TerminalRecord : Type 0 where
  pub recorded_unix : ℤ
  pub kind : HistoryKind
  pub status : TerminalStatus
  pub plan : Option (Text × ℕ)
  pub counters : SafeCounters

pub record JobEvent : Type 0 where
  pub sequence : ℕ
  pub status : JobStatus
  pub cancellation_requested : Bool
  pub progress : JobProgress
  pub summary : Option JobSummary

pub data AdmissionError : Type 0 where
  full unknown_profile unavailable : AdmissionError

pub data JobKind : Type 0 where
  scan : (history : HistoryKind) → JobKind
  plan : (server_id : Text) (history : HistoryKind) → JobKind
  dry_run : (reference : Text) (history : HistoryKind) → JobKind
  apply : (reference : Text) (history : HistoryKind) → JobKind

abbrev pub history_kind : JobKind → HistoryKind
history_kind (scan history) = history
history_kind (plan _ history) = history
history_kind (dry_run _ history) = history
history_kind (apply _ history) = history

-- `match job.kind { JobKind::Apply { reference, .. } => Some(reference), _ => None }`
abbrev pub apply_reference : JobKind → Option Text
apply_reference (scan _) = none
apply_reference (plan _ _) = none
apply_reference (dry_run _ _) = none
apply_reference (apply reference _) = some reference

-- A job without its cancellation token, which is set exactly with `cancellation_requested`, and without
-- its broadcast channel.
pub record StoredJob : Type 0 where
  pub id : Text
  pub owner : Text
  pub source_id : Text
  pub source_label : Text
  pub kind : JobKind
  pub status : JobStatus
  pub cancellation_requested : Bool
  pub progress : JobProgress
  pub summary : Option JobSummary
  pub artifact : Option PlanArtifact
  pub receipt : Option Text
  pub events : List JobEvent
  pub next_event_sequence : ℕ

-- `StoredJob::new`
unfoldable pub new_job : Text → Text → Text → Text → JobKind → StoredJob
new_job id owner source_id source_label kind = record {
  id = id;
  owner = owner;
  source_id = source_id;
  source_label = source_label;
  kind = kind;
  status = queued;
  cancellation_requested = false;
  progress = default_progress;
  summary = none;
  artifact = none;
  receipt = none;
  events = [];
  next_event_sequence = 0;
}

pub record JobSnapshot : Type 0 where
  pub id : Text
  pub source_label : Text
  pub status : JobStatus
  pub cancellation_requested : Bool
  pub progress : JobProgress
  pub summary : Option JobSummary
  pub artifact : Option PlanArtifact
  pub receipt : Option Text

unfoldable pub snapshot_job : StoredJob → JobSnapshot
snapshot_job job = record {
  id = job.id;
  source_label = job.source_label;
  status = job.status;
  cancellation_requested = job.cancellation_requested;
  progress = job.progress;
  summary = job.summary;
  artifact = job.artifact;
  receipt = job.receipt;
}

-- The front of a full queue goes when an event arrives.
abbrev pub bounded : ℕ → List JobEvent → List JobEvent
bounded replay_limit [] = []
bounded replay_limit (first ∷ rest) =
    if length (first ∷ rest) == replay_limit then rest else first ∷ rest

unfoldable pub push_event : ℕ → StoredJob → StoredJob
push_event replay_limit job =
    let next = sat_add job.next_event_sequence 1 in
    let event : JobEvent = record {
      sequence = next;
      status = job.status;
      cancellation_requested = job.cancellation_requested;
      progress = job.progress;
      summary = job.summary;
    } in
    record job {
      next_event_sequence = next;
      events = bounded replay_limit job.events ++ event ∷ [];
    }
