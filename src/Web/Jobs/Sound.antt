-- ===== src/Web/Jobs/Sound.antt =====
-- jobs.rs, `running` and `queued`: the counters under each move.
pub mod Kept
use immich_rs.Web.Jobs.Status.{
  request_cancel-queued, request_cancel-running, close_job-terminal, queued_once,
}
use immich_rs.Common.Map.Counts.{
  length-update_all, count-split, count-update_all, update_all-IsOrdered, count, count-present,
}
use immich_rs.Web.Jobs.Admission.{worker_limit}
use immich_rs.Web.Jobs.Worker.{close_job, is_queued_in, set_running, WorkerOutcome}
use immich_rs.Common.Map.Every.{Every-update_all, update_all, get-modify}
use immich_rs.Web.Jobs.Ledger.{
  IsUntouched, Ledger-insert, Ledger-modify, ended_elsewhere, Ledger-remove, Ledger,
}
use immich_rs.Web.Jobs.Types.{
  JobProgress, running, is_queued, queued, JobStatus, terminal, is_running, push_event, StoredJob,
}
use immich_rs.Web.Jobs.Control.{cancels_queued, request_cancel}
use immich_rs.Common.Map.{get-insert, get-remove, Map}
use immich_rs.Common.{
  ◌∙◌, Bool-cases, ◌≤◌, length, ◌-◌, sat_add, ◌<◌, ◌+◌, Option, none, not, ◌&&◌, false, text_eq_iff,
  if◌then◌else◌, arith, is_some_and-some, true, some, is_some_and, Bool, contains, List, Text, ◌≡◌,
  refl,
}
use immich_rs.Common.Map
use immich_rs.Web.Limits.{WebLimits}
use immich_rs.Web.Jobs.{is_terminal_in, take_first}
use immich_rs.Web.Jobs.Book.{set_progress, IsNewJob, Book}
use immich_rs.Web.Jobs.Listed.{take_first-IsTaken, Listed}

abbrev pub is_running_in : Map StoredJob → Text → Bool
is_running_in jobs id = is_some_and (Map.get id jobs) (λ job. is_running job.status)

pub record Sound (limits : WebLimits) (b : Book) : Type 0 where
  pub listed : Listed b
  pub ledger : Ledger limits b.jobs b.running b.queued
  pub works : (id : Text) → contains id b.working ≡ true → is_running_in b.jobs id ≡ true

-- The jobs that run go on through a change that leaves running jobs running.
pub goes_on :
    (f : StoredJob → StoredJob) (id : Text) (jobs : Map StoredJob)
    → ((job : StoredJob)
        → is_running job.status ≡ true
        → is_running (StoredJob.status (f job)) ≡ true)
    → (k : Text) → is_running_in jobs k ≡ true
    → is_running_in (Map.modify id f jobs) k ≡ true
goes_on f id jobs keeps k runs =
    let (job, there, is_on) =
      is_some_and-some (Map.get k jobs) (λ job. is_running job.status) runs in
    ground (arith, get-modify k id f jobs, there, is_on, keeps job is_on)

module _ (limits : WebLimits) where
  pub evicts-Sound :
      (id : Text) (order : List Text) (b : Book)
      → take_first (is_terminal_in b.jobs) b.order ≡ some (id, order)
      → Listed (record b { jobs = Map.remove id b.jobs; order = order })
      → Sound limits b
      → Sound limits (record b { jobs = Map.remove id b.jobs; order = order })
  evicts-Sound id order b taken listed h =
      let (passes, _, _, _) =
        take_first-IsTaken (is_terminal_in b.jobs) b.order id order h.listed.once taken in
      let (job, there, ended) =
        is_some_and-some (Map.get id b.jobs) (λ job. terminal job.status) passes in
      record {
        listed = listed;
        ledger = Ledger-remove limits b.jobs b.running b.queued h.ledger id job there ended;
        works = λ k working.
            let (other, found, runs) =
              is_some_and-some (Map.get k b.jobs) (λ job. is_running job.status)
                (h.works k working) in
            ground (
              arith,
              get-remove k id b.jobs,
              text_eq_iff id k,
              there,
              found,
              runs,
              ended_elsewhere job.status ended,
            );
      }

  pub enqueues-Sound :
      (id : Text) (job : StoredJob) (b : Book)
      → Map.get id b.jobs ≡ none
      → b.running + b.queued < worker_limit limits
      → length b.jobs < limits.retained_jobs
      → IsNewJob job
      → Sound limits b
      → Ledger limits
          (Map.insert id (push_event limits.sse_replay_events job) b.jobs)
          b.running
          (sat_add b.queued 1)
        × ((k : Text)
            → contains k b.working ≡ true
            → is_running_in (Map.insert id (push_event limits.sse_replay_events job) b.jobs) k
              ≡ true)
  unfolding push_event
  enqueues-Sound id job b absent room space (is_new, calm, _, _) h = (
    Ledger-insert limits b.jobs b.running b.queued h.ledger id
        (push_event limits.sse_replay_events job) absent (rw is_new refl) calm room space,
    λ k working.
        let (other, found, runs) =
          is_some_and-some (Map.get k b.jobs) (λ job. is_running job.status) (h.works k working) in
        ground (
          arith,
          get-insert k id (push_event limits.sse_replay_events job) b.jobs,
          text_eq_iff id k,
          absent,
          found,
          runs,
        ),
  )

  pub starts-Sound :
      (id : Text) (b : Book)
      → is_queued_in b.jobs id ≡ true
      → b.running < limits.concurrent_jobs
      → Sound limits b
      → Ledger limits
          (Map.modify id (set_running limits) b.jobs)
          (sat_add b.running 1)
          (b.queued - 1)
  unfolding set_running push_event
  starts-Sound id b waits room h =
      let (job, there, is_new) =
        is_some_and-some (Map.get id b.jobs) (λ job. is_queued job.status) waits in
      let some_queued =
        count-present (λ (j : StoredJob). is_queued j.status) id job b.jobs h.ledger.ordered
          there in
      let one : 1 ≤ b.queued = ground (arith, some_queued, h.ledger.counts_queued, is_new) in
      let fits : b.running + b.queued ≤ worker_limit limits = h.ledger.admitted in
      Ledger-modify limits b.jobs b.running b.queued h.ledger id job (set_running limits)
        (sat_add b.running 1) (b.queued - 1) there
        (ground (arith, one, fits, queued_once job.status is_new), ground (arith, one, is_new))
        (λ _ e. cc) (ground arith) (ground (arith, one, fits))

  pub ends-Sound :
      (id : Text) (outcome : WorkerOutcome) (receipt : Option Text) (b : Book)
      → contains id b.working ≡ true
      → Sound limits b
      → Ledger limits
          (Map.modify id (close_job limits outcome receipt) b.jobs)
          (b.running - 1)
          b.queued
  ends-Sound id outcome receipt b working h =
      let (job, there, runs) =
        is_some_and-some (Map.get id b.jobs) (λ job. is_running job.status) (h.works id working) in
      let some_running =
        count-present (λ (j : StoredJob). is_running j.status) id job b.jobs h.ledger.ordered
          there in
      let closed =
        ended_elsewhere (StoredJob.status (close_job limits outcome receipt job))
          (close_job-terminal limits outcome receipt job) in
      let one : 1 ≤ b.running = ground (arith, some_running, h.ledger.counts_running, runs) in
      let not_queued : is_queued job.status ≡ false =
        ground (arith, Bool-cases (is_queued job.status), queued_once job.status) in
      Ledger-modify limits b.jobs b.running b.queued h.ledger id job
        (close_job limits outcome receipt) (b.running - 1) b.queued there
        (ground (arith, one, closed.0, runs), ground (arith, closed.1, not_queued))
        (λ _ e. ground (arith, closed.1, e)) (omega (arith, h.ledger.concurrent))
        (omega (arith, h.ledger.admitted))

  pub observes-Sound :
      (id : Text) (progress : JobProgress) (b : Book)
      → contains id b.working ≡ true
      → Sound limits b
      → Ledger limits (Map.modify id (set_progress limits progress) b.jobs) b.running b.queued
  unfolding set_progress push_event
  observes-Sound id progress b working h =
      let (job, there, runs) =
        is_some_and-some (Map.get id b.jobs) (λ job. is_running job.status) (h.works id working) in
      Ledger-modify limits b.jobs b.running b.queued h.ledger id job (set_progress limits progress)
        b.running b.queued there (refl, refl) (λ calm. calm) h.ledger.concurrent h.ledger.admitted

  pub cancels-Sound :
      (id : Text) (job : StoredJob) (b : Book)
      → Map.get id b.jobs ≡ some job
      → Sound limits b
      → Ledger limits
          (Map.modify id (request_cancel limits) b.jobs)
          b.running
          (if is_queued job.status then b.queued - 1 else b.queued)
  cancels-Sound id job b there h =
      let untouched = h.ledger.untouched id job there in
      let waits =
        count-present (λ (j : StoredJob). is_queued j.status) id job b.jobs h.ledger.ordered
          there in
      let running_same = request_cancel-running limits job in
      let queued_after = request_cancel-queued limits job in
      let not_queued : is_queued (StoredJob.status (request_cancel limits job)) ≡ false =
        ground (arith, queued_after, untouched) in
      Ledger-modify limits b.jobs b.running b.queued h.ledger id job (request_cancel limits)
        b.running (if is_queued job.status then b.queued - 1 else b.queued) there
        (ground (arith, running_same), ground (arith, not_queued, waits, h.ledger.counts_queued))
        (λ _ e. cc (not_queued, e)) h.ledger.concurrent (ground (arith, h.ledger.admitted))

  pub stops-Sound :
      (b : Book)
      → Sound limits b
      → Ledger limits
          (update_all (request_cancel limits) b.jobs)
          b.running
          (b.queued - count cancels_queued b.jobs)
  stops-Sound b h = record {
    ordered = update_all-IsOrdered (request_cancel limits) b.jobs h.ledger.ordered;
    counts_running =
        count-update_all (λ (j : StoredJob). is_running j.status) (request_cancel limits) b.jobs
          (λ job. request_cancel-running limits job)
        ∙ h.ledger.counts_running;
    counts_queued = omega (
      arith,
      count-split (λ (j : StoredJob). is_queued j.status) cancels_queued
          (λ (j : StoredJob). is_queued j.status) (request_cancel limits) b.jobs
          (λ job. ground (arith, request_cancel-queued limits job)),
      h.ledger.counts_queued,
    );
    untouched =
        Every-update_all IsUntouched (request_cancel limits) b.jobs
          (λ k job calm e. ground (arith, request_cancel-queued limits job, calm, e))
          h.ledger.untouched;
    concurrent = h.ledger.concurrent;
    admitted = omega (arith, h.ledger.admitted);
    retained = omega (arith, length-update_all (request_cancel limits) b.jobs, h.ledger.retained);
  }
