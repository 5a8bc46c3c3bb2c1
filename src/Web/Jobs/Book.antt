-- ===== src/Web/Jobs/Book.antt =====
-- The job manager as seven moves on the jobs, their order, the counters and the plans under way.
use immich_rs.Web.Jobs.Control.{cancels_queued, request_cancel}
use immich_rs.Web.Jobs.Admission.{worker_limit}
use immich_rs.Web.Jobs.{JobsState, is_terminal_in, take_first}
use immich_rs.Web.Jobs.Steps.{System}
use immich_rs.Common.{
  if◌then◌else◌, text_eq, not, retain, Option, contains, ◌-◌, true, sat_add, ◌++◌, false, length,
  ◌<◌, ◌+◌, some, none, ℕ, AllSome, List, Text, ◌≡◌, ◌∷◌, [],
}
use immich_rs.Common.Map
use immich_rs.Common.Map.{Map}
use immich_rs.Common.Map.Every.{update_all}
use immich_rs.Common.Map.Counts.{count}
use immich_rs.Web.Limits.{WebLimits}
use immich_rs.Web.Jobs.Types.{
  is_queued, JobStatus, apply_reference, push_event, JobKind, StoredJob, JobProgress,
}
use immich_rs.Web.Jobs.Worker.{close_job, set_running, next_queued, is_queued_in, WorkerOutcome}

pub record Book : Type 0 where
  pub jobs : Map StoredJob
  pub order : List Text
  pub running : ℕ
  pub queued : ℕ
  pub active : Map (Unit {0})
  pub working : List Text

abbrev pub book : JobsState → List Text → Book
book s working = record {
  jobs = s.jobs;
  order = s.order;
  running = s.running;
  queued = s.queued;
  active = s.active_checkpoints;
  working = working;
}

abbrev pub book_of : System → Book
book_of s = book s.state s.working

-- The plan of an apply job is taken and given back.
abbrev pub claim : JobKind → Map (Unit {0}) → Map (Unit {0})
claim kind active = elim (apply_reference kind) [
  | none ↦ active
  | some reference ↦ Map.insert reference tt active
]

abbrev pub disclaim : JobKind → Map (Unit {0}) → Map (Unit {0})
disclaim kind active = elim (apply_reference kind) [
  | none ↦ active
  | some reference ↦ Map.remove reference active
]

-- No apply job has the plan.
abbrev pub IsFree : JobKind → Map (Unit {0}) → Type 0
IsFree kind active = AllSome (λ reference. Map.get reference active ≡ none) (apply_reference kind)

-- A job before its first event.
abbrev pub IsNewJob : StoredJob → Type 0
IsNewJob job =
    (job.status ≡ JobStatus.queued)
    × (job.cancellation_requested ≡ false)
    × (job.events ≡ [])
    × (job.next_event_sequence ≡ 0)

-- The code of `observe` on a job.
unfoldable pub set_progress : WebLimits → JobProgress → StoredJob → StoredJob
set_progress limits progress job =
    push_event limits.sse_replay_events (record job { progress = progress })

pub data Move (limits : WebLimits) : Book → Book → Type 0 where
  evicts :
      (id : Text) (order : List Text) (b : Book)
      → take_first (is_terminal_in b.jobs) b.order ≡ some (id, order)
      → Move limits b (record b { jobs = Map.remove id b.jobs; order = order })
  enqueues :
      (id : Text) (job : StoredJob) (b : Book)
      → Map.get id b.jobs ≡ none
      → b.running + b.queued < worker_limit limits
      → length b.jobs < limits.retained_jobs
      → IsNewJob job
      → IsFree job.kind b.active
      → Move limits b (record b {
        jobs = Map.insert id (push_event limits.sse_replay_events job) b.jobs;
        order = b.order ++ id ∷ [];
        queued = sat_add b.queued 1;
        active = claim job.kind b.active;
      })
  starts :
      (id : Text) (b : Book)
      → is_queued_in b.jobs id ≡ true
      → next_queued b.jobs b.order ≡ some id
      → b.running < limits.concurrent_jobs
      → Move limits b (record b {
        queued = b.queued - 1;
        running = sat_add b.running 1;
        jobs = Map.modify id (set_running limits) b.jobs;
        working = id ∷ b.working;
      })
  observes :
      (id : Text) (progress : JobProgress) (b : Book)
      → contains id b.working ≡ true
      → Move limits b (record b { jobs = Map.modify id (set_progress limits progress) b.jobs })
  ends :
      (id : Text) (outcome : WorkerOutcome) (receipt : Option Text) (b : Book)
      → contains id b.working ≡ true
      → Move limits b (record b {
        jobs = Map.modify id (close_job limits outcome receipt) b.jobs;
        running = b.running - 1;
        active = elim (Map.get id b.jobs) [
          | none ↦ b.active
          | some job ↦ disclaim job.kind b.active
        ];
        working = retain (λ other. not (text_eq other id)) b.working;
      })
  cancels :
      (id : Text) (job : StoredJob) (b : Book)
      → Map.get id b.jobs ≡ some job
      → Move limits b (record b {
        jobs = Map.modify id (request_cancel limits) b.jobs;
        queued = if is_queued job.status then b.queued - 1 else b.queued;
        active = if is_queued job.status then disclaim job.kind b.active else b.active;
      })
  stops :
      (b : Book)
      → Move limits b (record b {
        jobs = update_all (request_cancel limits) b.jobs;
        queued = b.queued - count cancels_queued b.jobs;
      })

-- Moves one after the other.
pub data Moves (limits : WebLimits) : Book → Book → Type 0 where
  stay : (b : Book) → Moves limits b b
  move : (b c d : Book) → Move limits b c → Moves limits c d → Moves limits b d
