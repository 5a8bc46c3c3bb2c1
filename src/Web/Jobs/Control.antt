-- ===== src/Web/Jobs/Control.antt =====
-- jobs.rs `snapshot`, `cancel` and `shutdown`, jobs/metrics.rs and jobs/progress.rs. The signals to waiting
-- threads are in Steps; the events that the broadcast channel carries are the job's list of events.
use immich_rs.Common.Map.{Map}
use immich_rs.Common.{
  [], all, text_eq, length, some, false, ◌&&◌, not, none, true, ◌-◌, Bool, if◌then◌else◌, Option, ℕ,
  Text,
}
use immich_rs.Common.Map
use immich_rs.Common.Map.Every.{update_all}
use immich_rs.Common.Map.Counts.{count}
use immich_rs.Web.Limits.{WebLimits}
use immich_rs.Web.Jobs.Types.{
  history_kind, snapshot_job, cancelled, is_queued, push_event, JobSnapshot, apply_reference,
  HistoryKind, JobProgress, JobStatus, JobKind, StoredJob,
}
use immich_rs.Web.Jobs.{terminal, reap_workers, Thread, JobsState}

-- `state.jobs.get(id).filter(|job| &job.owner == owner)`
abbrev pub owned : Text → Text → JobsState → Option StoredJob
owned id owner s = elim (Map.get id s.jobs) [
  | none ↦ none
  | some job ↦ if text_eq job.owner owner then some job else none
]

unfoldable pub snapshot : (Text → Thread) → Text → Text → JobsState → Option JobSnapshot × JobsState
snapshot threads id owner s =
    let reaped = reap_workers threads s in
    elim (owned id owner reaped) [
      | none ↦ (none, reaped)
      | some job ↦ (some (snapshot_job job), reaped)
    ]

-- What `cancel` and `shutdown` do to a job.
unfoldable pub request_cancel : WebLimits → StoredJob → StoredJob
request_cancel limits job =
    if not (terminal job.status) && not job.cancellation_requested
    then push_event limits.sse_replay_events (record job {
      cancellation_requested = true;
      status = if is_queued job.status then cancelled else job.status;
    })
    else job

-- `active_checkpoints.remove`, for an apply job.
unfoldable pub release : JobKind → JobsState → JobsState
release kind s = elim (apply_reference kind) [
  | none ↦ s
  | some reference ↦ record s { active_checkpoints = Map.remove reference s.active_checkpoints }
]

-- What `cancel` does besides for a job that was queued.
unfoldable pub drop_queued : Text → JobKind → JobsState → JobsState
drop_queued id kind s =
    release kind
      (record s { queued = s.queued - 1; apply_capabilities = Map.remove id s.apply_capabilities })

-- The snapshot that `cancel` returns, with the kind of a job whose end is still to be recorded.
unfoldable pub answer_cancel :
    Text
    → Text
    → Option HistoryKind
    → JobsState
    → (Option JobSnapshot × Option HistoryKind) × JobsState
answer_cancel id owner record_cancelled s = elim (owned id owner s) [
  | none ↦ ((none, none), s)
  | some job ↦ ((some (snapshot_job job), record_cancelled), s)
]

-- The part of `cancel` under the first lock.
unfoldable pub cancel :
    WebLimits → Text → Text → JobsState → (Option JobSnapshot × Option HistoryKind) × JobsState
cancel limits id owner s = elim (owned id owner s) [
  | none ↦ ((none, none), s)
  | some job ↦
      let was_queued = is_queued job.status in
      let requested = record s { jobs = Map.modify id (request_cancel limits) s.jobs } in
      answer_cancel id owner
        (if was_queued && not job.cancellation_requested
          then some (history_kind job.kind)
          else none)
        (if was_queued then drop_queued id job.kind requested else requested)
]

-- What `cancel` does later, with the lock taken again, and whether the history took the record.
unfoldable pub record_cancelled : Bool → JobsState → JobsState
record_cancelled recorded s = if recorded then s else record s { worker_failed = true }

-- The jobs that `shutdown` cancels in the queue.
abbrev pub cancels_queued : StoredJob → Bool
cancels_queued job = is_queued job.status && not job.cancellation_requested

-- `joined` tells whether a thread ends without a panic when it is waited for.
unfoldable pub shutdown : WebLimits → (Text → Bool) → JobsState → Bool × JobsState
shutdown limits joined s = (
  not s.worker_failed && all joined s.handles,
  record s {
    shutting_down = true;
    jobs = update_all (request_cancel limits) s.jobs;
    queued = s.queued - count cancels_queued s.jobs;
    handles = [];
  },
)

pub record JobMetrics : Type 0 where
  pub queued : ℕ
  pub running : ℕ
  pub completed : ℕ
  pub failed : ℕ
  pub cancelled : ℕ
  pub retained : ℕ
  pub subscribers : ℕ

abbrev pub is_completed : JobStatus → Bool
is_completed JobStatus.completed = true
is_completed _ = false

abbrev pub is_failed : JobStatus → Bool
is_failed JobStatus.failed = true
is_failed _ = false

abbrev pub is_cancelled : JobStatus → Bool
is_cancelled JobStatus.cancelled = true
is_cancelled _ = false

abbrev pub count_status : (JobStatus → Bool) → Map StoredJob → ℕ
count_status p jobs = count (λ (job : StoredJob). p job.status) jobs

unfoldable pub collect : (Text → Thread) → JobsState → JobMetrics × JobsState
collect threads s =
    let reaped = reap_workers threads s in
    (
      record {
        queued = reaped.queued;
        running = reaped.running;
        completed = count_status is_completed reaped.jobs;
        failed = count_status is_failed reaped.jobs;
        cancelled = count_status is_cancelled reaped.jobs;
        retained = length reaped.jobs;
        subscribers = reaped.subscribers;
      },
      reaped,
    )

-- `JobObserver::observe` for a scan event; other events change nothing.
unfoldable pub observe : WebLimits → Text → JobProgress → JobsState → JobsState
observe limits id progress s = record s {
  jobs =
      Map.modify id
        (λ (job : StoredJob).
          push_event limits.sse_replay_events (record job { progress = progress }))
        s.jobs;
}
