-- ===== src/Web/Jobs/Status.antt =====
-- The statuses that the changes of a job leave.
use immich_rs.Web.Limits.{WebLimits}
use immich_rs.Web.Jobs.Control.{cancels_queued, request_cancel}
use immich_rs.Web.Jobs.Worker.{WorkerOutcome, close_job}
use immich_rs.Common.{
  inr, inl, Bool-cases, not, Bool, Option, arith, false, if◌then◌else◌, ◌&&◌, true, Text, ◌≡◌, refl,
}
use immich_rs.Web.Jobs.Types.{
  terminal, is_running, is_queued, push_event, StoredJob, JobStatus, queued, running,
}

pub status-request_cancel :
    (limits : WebLimits) (job : StoredJob)
    → StoredJob.status (request_cancel limits job)
      ≡ (if cancels_queued job then JobStatus.cancelled else job.status)
unfolding request_cancel push_event
status-request_cancel limits job = by_status job.status job.cancellation_requested refl refl
  where
    by_status :
        (status : JobStatus) (asked : Bool)
        → job.status ≡ status
        → job.cancellation_requested ≡ asked
        → StoredJob.status (request_cancel limits job) ≡ (
            if is_queued job.status && not job.cancellation_requested
            then JobStatus.cancelled
            else job.status)
    by_status queued true e a = rw (e, a) refl
    by_status queued false e a = rw (e, a) refl
    by_status running true e a = rw (e, a) refl
    by_status running false e a = rw (e, a) refl
    by_status JobStatus.completed asked e a = rw e refl
    by_status JobStatus.failed asked e a = rw e refl
    by_status JobStatus.cancelled asked e a = rw e refl

pub queued_once : (status : JobStatus) → is_queued status ≡ true → is_running status ≡ false
queued_once queued h = refl
queued_once running h = cc
queued_once JobStatus.completed h = cc
queued_once JobStatus.failed h = cc
queued_once JobStatus.cancelled h = cc

pub request_cancel-running :
    (limits : WebLimits) (job : StoredJob)
    → is_running (StoredJob.status (request_cancel limits job)) ≡ is_running job.status
request_cancel-running limits job =
    ground (arith, status-request_cancel limits job, queued_once job.status)

pub request_cancel-queued :
    (limits : WebLimits) (job : StoredJob)
    → is_queued (StoredJob.status (request_cancel limits job))
      ≡ (is_queued job.status && job.cancellation_requested)
request_cancel-queued limits job = ground (arith, status-request_cancel limits job)

pub close_job-terminal :
    (limits : WebLimits) (outcome : WorkerOutcome) (receipt : Option Text) (job : StoredJob)
    → terminal (StoredJob.status (close_job limits outcome receipt job)) ≡ true
unfolding close_job push_event
close_job-terminal limits (WorkerOutcome.completed _ _ _ _) receipt job = refl
close_job-terminal limits (WorkerOutcome.failed _) receipt job = refl
close_job-terminal limits (WorkerOutcome.cancelled _) receipt job = refl

pub kind-request_cancel :
    (limits : WebLimits) (job : StoredJob) → StoredJob.kind (request_cancel limits job) ≡ job.kind
unfolding request_cancel push_event
kind-request_cancel limits job =
    elim (Bool-cases (not (terminal job.status) && not job.cancellation_requested)) [
      | inl acts ↦ rw acts refl
      | inr rests ↦ rw rests refl
    ]
