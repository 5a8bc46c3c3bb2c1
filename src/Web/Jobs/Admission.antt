-- ===== src/Web/Jobs/Admission.antt =====
-- jobs.rs `admit`, `admit_plan`, `admit_dry_run` and `admit_kind`, and jobs/apply_admission.rs.
use immich_rs.Common.{
  ◌-◌, text_eq, retain, ok, some, not, err, none, if◌then◌else◌, length, [], leb, sat_add, ◌∷◌,
  is_some, ◌||◌, Result, ◌++◌, Option, Bool, ℕ, Text,
}
use immich_rs.Common.Map
use immich_rs.Web.Limits.{WebLimits}
use immich_rs.Web.Jobs.Types.{
  apply, plan, dry_run, scan, new_job, picasa_dry_run, picasa_apply, picasa_plan,
  apple_photos_apply, apple_photos_plan, apple_photos_dry_run, google_takeout_apply,
  google_takeout_dry_run, AdmissionError, google_takeout_plan, JobKind, folder_plan, folder_scan,
  folder_apply, folder_dry_run, push_event, HistoryKind, StoredJob,
}
use immich_rs.Web.Jobs.{reap_workers, evict_terminal, Thread, JobsState}
use immich_rs.Web.Grants.{ApplyCapability}

-- What the configuration tells of a source: its kind and its label.
pub data SourceKind : Type 0 where
  folder google_takeout apple_photos picasa : SourceKind

pub record SourceProfile : Type 0 where
  pub kind : SourceKind
  pub label : Text

-- `scan_history`, `plan_history`, `dry_run_history` and `apply_history` of jobs/source.rs
unfoldable pub scan_history : SourceKind → HistoryKind
scan_history folder = folder_scan
scan_history google_takeout = google_takeout_plan
scan_history apple_photos = apple_photos_plan
scan_history picasa = picasa_plan

unfoldable pub plan_history : SourceKind → HistoryKind
plan_history folder = folder_plan
plan_history google_takeout = google_takeout_plan
plan_history apple_photos = apple_photos_plan
plan_history picasa = picasa_plan

unfoldable pub dry_run_history : SourceKind → HistoryKind
dry_run_history folder = folder_dry_run
dry_run_history google_takeout = google_takeout_dry_run
dry_run_history apple_photos = apple_photos_dry_run
dry_run_history picasa = picasa_dry_run

unfoldable pub apply_history : SourceKind → HistoryKind
apply_history folder = folder_apply
apply_history google_takeout = google_takeout_apply
apply_history apple_photos = apple_photos_apply
apply_history picasa = picasa_apply

abbrev pub worker_limit : WebLimits → ℕ
worker_limit limits = sat_add limits.concurrent_jobs limits.queued_jobs

-- The tests of `admit_kind` under which a call is refused as full.
abbrev pub is_full : WebLimits → Text → JobsState → Bool
is_full limits id s =
    is_some (Map.get id s.jobs)
    || leb (worker_limit limits) (sat_add s.running s.queued)
    || leb (worker_limit limits) (length s.handles)
    || leb limits.retained_jobs (length s.jobs)

-- A new job with its first event, at the end of the order.
unfoldable pub enqueue : WebLimits → Text → StoredJob → JobsState → JobsState
enqueue limits id job s = record s {
  jobs = Map.insert id (push_event limits.sse_replay_events job) s.jobs;
  order = s.order ++ id ∷ [];
  queued = sat_add s.queued 1;
}

-- What follows if the thread did not start.
unfoldable pub withdraw : Text → JobsState → JobsState
withdraw id s = record s {
  jobs = Map.remove id s.jobs;
  order = retain (λ candidate. not (text_eq candidate id)) s.order;
  queued = s.queued - 1;
}

unfoldable pub start_worker : Text → JobsState → JobsState
start_worker id s = record s { handles = s.handles ++ id ∷ [] }

-- The state in which an admission is decided.
abbrev pub tidy : WebLimits → (Text → Thread) → JobsState → JobsState
tidy limits threads s = evict_terminal limits.retained_jobs (reap_workers threads s)

abbrev pub is_closed : JobsState → Bool
is_closed s = s.shutting_down || s.worker_failed

-- The configuration, the threads, the random identifier and whether a new thread starts are the
-- environment's.
module _ (limits : WebLimits) (source : Text → Option SourceProfile) (threads : Text → Thread)
    (random_job_id : Option Text) (spawned : Bool) where
  -- The part of `admit_kind` under the lock.
  unfoldable pub admit_locked :
      Text → StoredJob → JobsState → Result AdmissionError Text × JobsState
  admit_locked id job s =
      if is_closed s
      then (err AdmissionError.unavailable, s)
      else if is_full limits id s
      then (err AdmissionError.full, s)
      else let started = enqueue limits id job s in
        if spawned
        then (ok id, start_worker id started)
        else (err AdmissionError.unavailable, withdraw id started)

  unfoldable pub admit_kind :
      Text → Text → JobKind → JobsState → Result AdmissionError Text × JobsState
  admit_kind owner source_id kind s = elim (source source_id) [
    | none ↦ (err AdmissionError.unknown_profile, s)
    | some profile ↦ elim random_job_id [
      | none ↦ (err AdmissionError.unavailable, s)
      | some id ↦
          admit_locked id (new_job id owner source_id profile.label kind) (tidy limits threads s)
    ]
  ]

  unfoldable pub admit : Text → Text → JobsState → Result AdmissionError Text × JobsState
  admit owner source_id s = elim (source source_id) [
    | none ↦ (err AdmissionError.unknown_profile, s)
    | some profile ↦ admit_kind owner source_id (scan (scan_history profile.kind)) s
  ]

  -- `server` tells whether a server profile is configured.
  unfoldable pub admit_plan :
      (Text → Bool) → Text → Text → Text → JobsState → Result AdmissionError Text × JobsState
  admit_plan server owner source_id server_id s =
      if not (server server_id)
      then (err AdmissionError.unknown_profile, s)
      else elim (source source_id) [
        | none ↦ (err AdmissionError.unknown_profile, s)
        | some profile ↦ admit_kind owner source_id (plan server_id (plan_history profile.kind)) s
      ]

  -- `load` gives the source and the server of a stored plan.
  unfoldable pub admit_dry_run :
      (Text → Bool)
      → (Text → Option (Text × Text))
      → Text
      → Text
      → JobsState
      → Result AdmissionError Text × JobsState
  admit_dry_run server load owner reference s = elim (load reference) [
    | none ↦ (err AdmissionError.unknown_profile, s)
    | some (source_id, server_id) ↦
        if not (server server_id)
        then (err AdmissionError.unknown_profile, s)
        else elim (source source_id) [
          | none ↦ (err AdmissionError.unknown_profile, s)
          | some profile ↦
              admit_kind owner source_id (dry_run reference (dry_run_history profile.kind)) s
        ]
  ]

  -- The part of `admit_apply` under the lock.
  unfoldable pub admit_apply_locked :
      Text → StoredJob → ApplyCapability → JobsState → Result AdmissionError Text × JobsState
  admit_apply_locked id job capability s =
      let reference = capability.binding.dry_run.plan_reference in
      if is_closed s
      then (err AdmissionError.unavailable, s)
      else if is_some (Map.get reference s.active_checkpoints) || is_full limits id s
      then (err AdmissionError.full, s)
      else let queued = enqueue limits id job s in
        let started : JobsState = record queued {
          apply_capabilities = Map.insert id capability s.apply_capabilities;
          active_checkpoints = Map.insert reference tt s.active_checkpoints;
        } in
        if spawned
        then (ok id, start_worker id started)
        else let withdrawn = withdraw id started in
          (
            err AdmissionError.unavailable,
            record withdrawn {
              active_checkpoints = Map.remove reference started.active_checkpoints;
              apply_capabilities = Map.remove id started.apply_capabilities;
            },
          )

  unfoldable pub admit_apply : ApplyCapability → JobsState → Result AdmissionError Text × JobsState
  admit_apply capability s =
      let binding = capability.binding in
      elim (source binding.source_profile_id) [
        | none ↦ (err AdmissionError.unknown_profile, s)
        | some profile ↦ elim random_job_id [
          | none ↦ (err AdmissionError.unavailable, s)
          | some id ↦
              admit_apply_locked id
                (new_job id binding.owner binding.source_profile_id profile.label
                  (apply binding.dry_run.plan_reference (apply_history profile.kind)))
                capability (tidy limits threads s)
        ]
      ]
