-- ===== src/Web/Jobs/Worker.antt =====
-- jobs/worker.rs: what the thread of a job does. It waits for its turn, runs the job without the lock, and
-- writes the outcome to the history before it ends the job.
use immich_rs.Common.Map.{Map}
use immich_rs.Common.{
  ltb, ◌&&◌, get_or, false, text_eq, [], ◌||◌, some, is_some, true, ◌∷◌, is_some_and, ℕ, not,
  sat_add, Bool, none, ℤ, List, if◌then◌else◌, Option, ◌-◌, Text,
}
use immich_rs.Common.Map
use immich_rs.Web.Limits.{WebLimits}
use immich_rs.Web.Jobs.Types.{
  picasa_plan, apple_photos_plan, google_takeout_plan, default_counters, folder_plan, is_queued,
  TerminalStatus, SafeCounters, DryRunBinding, PlanArtifact, running, JobStatus, HistoryKind,
  push_event, JobSummary, TerminalRecord, JobKind, StoredJob,
}
use immich_rs.Web.Jobs.{JobsState}
use immich_rs.Web.Grants.{ApplyCapability}
use immich_rs.Web.Jobs.Control.{release}

-- One round of the loop of `begin`: the thread leaves, waits for a signal, or starts.
pub data Turn : Type 0 where
  refused waiting started : Turn

-- `state.jobs.get(id).is_some_and(|job| job.status == JobStatus::Queued)`
abbrev pub is_queued_in : Map StoredJob → Text → Bool
is_queued_in jobs id = is_some_and (Map.get id jobs) (λ job. is_queued job.status)

-- `state.order.iter().find(...)`
unfoldable pub next_queued : Map StoredJob → List Text → Option Text
next_queued jobs [] = none
next_queued jobs (id ∷ rest) =
    let later = next_queued jobs rest in if is_queued_in jobs id then some id else later

unfoldable pub set_running : WebLimits → StoredJob → StoredJob
set_running limits job = push_event limits.sse_replay_events (record job { status = running })

unfoldable pub start : WebLimits → Text → JobsState → JobsState
start limits id s = record s {
  queued = s.queued - 1;
  running = sat_add s.running 1;
  jobs = Map.modify id (set_running limits) s.jobs;
}

unfoldable pub begin : WebLimits → Text → JobsState → Turn × JobsState
begin limits id s =
    if not (is_queued_in s.jobs id) || s.shutting_down
    then (refused, s)
    else if is_some_and (next_queued s.jobs s.order) (λ next. text_eq next id)
        && ltb s.running limits.concurrent_jobs
    then (started, start limits id s)
    else (waiting, s)

pub record JobInputs : Type 0 where
  pub source_id : Text
  pub kind : JobKind
  pub capability : Option ApplyCapability

-- The cancellation token is shared with the job.
unfoldable pub job_inputs : Text → JobsState → Option JobInputs × JobsState
job_inputs id s = elim (Map.get id s.jobs) [
  | none ↦ (none, s)
  | some job ↦ (
    some (record {
      source_id = job.source_id;
      kind = job.kind;
      capability = Map.get id s.apply_capabilities;
    }),
    record s { apply_capabilities = Map.remove id s.apply_capabilities },
  )
]

pub data WorkerOutcome : Type 0 where
  completed :
      (kind : HistoryKind) (summary : JobSummary) (artifact : Option PlanArtifact)
      (dry_run : Option DryRunBinding)
      → WorkerOutcome
  failed cancelled : (kind : HistoryKind) → WorkerOutcome

-- `WorkerOutcome::kind`
abbrev pub kind_of : WorkerOutcome → HistoryKind
kind_of (completed kind _ _ _) = kind
kind_of (failed kind) = kind
kind_of (cancelled kind) = kind

abbrev pub is_plan_kind : HistoryKind → Bool
is_plan_kind folder_plan = true
is_plan_kind google_takeout_plan = true
is_plan_kind apple_photos_plan = true
is_plan_kind picasa_plan = true
is_plan_kind _ = false

unfoldable pub published_artifact : WorkerOutcome → Option PlanArtifact
published_artifact (completed kind _ artifact _) = if is_plan_kind kind then artifact else none
published_artifact (failed _) = none
published_artifact (cancelled _) = none

abbrev pub dry_run_binding : WorkerOutcome → Option DryRunBinding
dry_run_binding (completed _ _ _ dry_run) = dry_run
dry_run_binding (failed _) = none
dry_run_binding (cancelled _) = none

abbrev pub counters_of : JobSummary → Option PlanArtifact → SafeCounters
counters_of summary artifact = record {
  assets = summary.assets;
  sidecars = summary.sidecars;
  bytes_read = summary.bytes_read;
  warnings = summary.warnings;
  errors = summary.errors;
  max_logical_effects = elim artifact [ none ↦ 0 | some value ↦ value.max_logical_effects ];
}

abbrev pub plan_of : Option PlanArtifact → Option (Text × ℕ)
plan_of none = none
plan_of (some value) = some (value.reference, value.schema_version)

-- `now` is the clock. A count of warnings or errors fits in 64 bits.
unfoldable pub history_record : Option ℤ → WorkerOutcome → Option TerminalRecord
history_record now outcome =
    let time : Option ℤ = elim (dry_run_binding outcome) [
      | none ↦ now
      | some binding ↦ some binding.completed_unix
    ] in
    elim time [
      | none ↦ none
      | some recorded_unix ↦ some (elim outcome [
        | completed kind summary artifact dry_run ↦ record {
          recorded_unix = recorded_unix;
          kind = kind;
          status = TerminalStatus.completed;
          plan = plan_of artifact;
          counters = counters_of summary artifact;
        }
        | failed kind ↦ record {
          recorded_unix = recorded_unix;
          kind = kind;
          status = TerminalStatus.failed;
          plan = none;
          counters = default_counters;
        }
        | cancelled kind ↦ record {
          recorded_unix = recorded_unix;
          kind = kind;
          status = TerminalStatus.cancelled;
          plan = none;
          counters = default_counters;
        }
      ])
    ]

-- The history store: whether it takes a record, and the receipt that it gives for a dry run.
pub record History : Type 0 where
  pub record_terminal : TerminalRecord → Bool
  pub record_dry_run : DryRunBinding → TerminalRecord → Option Text

-- `history_result`: nothing for an error, or the receipt of a dry run.
unfoldable pub write_history : Option ℤ → History → WorkerOutcome → Option (Option Text)
write_history now history outcome = elim (history_record now outcome) [
  | none ↦ none
  | some entry ↦ elim (dry_run_binding outcome) [
    | none ↦ if history.record_terminal entry then some none else none
    | some binding ↦ elim (history.record_dry_run binding entry) [
      | none ↦ none
      | some reference ↦ some (some reference)
    ]
  ]
]

-- The status, the summary, the artifact and the receipt that an outcome leaves.
unfoldable pub close_job : WebLimits → WorkerOutcome → Option Text → StoredJob → StoredJob
close_job limits (completed _ summary artifact _) receipt job =
    push_event limits.sse_replay_events (record job {
      status = JobStatus.completed;
      summary = some summary;
      artifact = artifact;
      receipt = receipt;
    })
close_job limits (failed _) receipt job =
    push_event limits.sse_replay_events (record job { status = JobStatus.failed })
close_job limits (cancelled _) receipt job =
    push_event limits.sse_replay_events (record job { status = JobStatus.cancelled })

-- The part of `finish` under the lock.
unfoldable pub finish_locked :
    WebLimits → Text → WorkerOutcome → Option (Option Text) → JobsState → JobsState
finish_locked limits id outcome written s =
    let released : JobsState = elim (Map.get id s.jobs) [
      | none ↦ s
      | some job ↦ release job.kind s
    ] in
    let shown : WorkerOutcome = if is_some written then outcome else failed (kind_of outcome) in
    record released {
      apply_capabilities = Map.remove id released.apply_capabilities;
      worker_failed = released.worker_failed || not (is_some written);
      running = released.running - 1;
      jobs = Map.modify id (close_job limits shown (get_or written none)) released.jobs;
    }

-- The state after `finish`, and the plan that it removes from the store.
unfoldable pub finish :
    WebLimits → Option ℤ → History → Text → WorkerOutcome → JobsState → Option Text × JobsState
finish limits now history id outcome s =
    let written = write_history now history outcome in
    (
      if is_some written then none else elim (published_artifact outcome) [
        | none ↦ none
        | some artifact ↦ some artifact.reference
      ],
      finish_locked limits id outcome written s,
    )
