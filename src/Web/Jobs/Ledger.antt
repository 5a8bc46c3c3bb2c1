-- ===== src/Web/Jobs/Ledger.antt =====
-- The counters of the job manager against its jobs, under each change of the jobs.
use immich_rs.Web.Jobs.Admission.{worker_limit}
use mathlib.Core.Path.{subst}
use immich_rs.Common.{
  sym, refl, sat_add, arith, length, ◌<◌, bit, ◌≤◌, false, ◌+◌, none, true, some, ℕ, Text, ◌≡◌,
}
use immich_rs.Common.Map
use immich_rs.Common.Map.{
  length-insert, insert-IsOrdered, length-modify, length-remove, IsOrdered, Map,
}
use immich_rs.Common.Map.Every.{Every-remove, Every-insert, Every-modify, Every}
use immich_rs.Common.Map.Counts.{
  modify-IsOrdered, remove-IsOrdered, count-modify, count-remove, count-insert,
}
use immich_rs.Web.Limits.{WebLimits}
use immich_rs.Web.Jobs.Types.{running, queued, JobStatus, is_running, is_queued, StoredJob}
use immich_rs.Web.Jobs.{terminal, JobsState}
use immich_rs.Web.Jobs.Control.{count_status}

-- A queued job was not asked to stop.
abbrev pub IsUntouched : Text → StoredJob → Type 0
IsUntouched _ job = is_queued job.status ≡ true → job.cancellation_requested ≡ false

-- The counters are the numbers of jobs, within the limits.
pub record Ledger (limits : WebLimits) (jobs : Map StoredJob) (running_now queued_now : ℕ)
    : Type 0 where
  pub ordered : IsOrdered jobs
  pub counts_running : count_status is_running jobs ≡ running_now
  pub counts_queued : count_status is_queued jobs ≡ queued_now
  pub untouched : Every IsUntouched jobs
  pub concurrent : running_now ≤ limits.concurrent_jobs
  pub admitted : running_now + queued_now ≤ worker_limit limits
  pub retained : length jobs ≤ limits.retained_jobs

abbrev pub LedgerOf : WebLimits → JobsState → Type 0
LedgerOf limits s = Ledger limits s.jobs s.running s.queued

not_running : (status : JobStatus) → is_queued status ≡ true → bit (is_running status) ≡ 0
not_running queued h = refl
not_running running h = cc
not_running JobStatus.completed h = cc
not_running JobStatus.failed h = cc
not_running JobStatus.cancelled h = cc

pub ended_elsewhere :
    (status : JobStatus)
    → terminal status ≡ true
    → (bit (is_running status) ≡ 0) × (bit (is_queued status) ≡ 0)
ended_elsewhere queued h = cc
ended_elsewhere running h = cc
ended_elsewhere JobStatus.completed h = (refl, refl)
ended_elsewhere JobStatus.failed h = (refl, refl)
ended_elsewhere JobStatus.cancelled h = (refl, refl)

module _ (limits : WebLimits) (jobs : Map StoredJob) (running_now queued_now : ℕ)
    (ledger : Ledger limits jobs running_now queued_now) where
  pub Ledger-insert :
      (id : Text) (job : StoredJob)
      → Map.get id jobs ≡ none
      → is_queued job.status ≡ true
      → job.cancellation_requested ≡ false
      → running_now + queued_now < worker_limit limits
      → length jobs < limits.retained_jobs
      → Ledger limits (Map.insert id job jobs) running_now (sat_add queued_now 1)
  Ledger-insert id job absent is_new calm room space = record {
    ordered = insert-IsOrdered id job jobs ledger.ordered;
    counts_running = omega (
      arith,
      count-insert (λ (j : StoredJob). is_running j.status) id job jobs absent,
      ledger.counts_running,
      not_running job.status is_new,
    );
    counts_queued = ground (
      arith,
      count-insert (λ (j : StoredJob). is_queued j.status) id job jobs absent,
      ledger.counts_queued,
    );
    untouched = Every-insert IsUntouched id job jobs (λ _. calm) ledger.untouched;
    concurrent = ledger.concurrent;
    admitted = ground (arith, room);
    retained = ground (arith, length-insert id job jobs absent);
  }

  pub Ledger-remove :
      (id : Text) (job : StoredJob)
      → Map.get id jobs ≡ some job
      → terminal job.status ≡ true
      → Ledger limits (Map.remove id jobs) running_now queued_now
  Ledger-remove id job there ended = record {
    ordered = remove-IsOrdered id jobs ledger.ordered;
    counts_running = ground (
      arith,
      count-remove (λ (j : StoredJob). is_running j.status) id job jobs ledger.ordered there,
      ledger.counts_running,
      ended_elsewhere job.status ended,
    );
    counts_queued = ground (
      arith,
      count-remove (λ (j : StoredJob). is_queued j.status) id job jobs ledger.ordered there,
      ledger.counts_queued,
      ended_elsewhere job.status ended,
    );
    untouched = Every-remove IsUntouched id jobs ledger.untouched;
    concurrent = ledger.concurrent;
    admitted = ledger.admitted;
    retained = omega (arith, length-remove id jobs, ledger.retained);
  }

  pub Ledger-modify :
      (id : Text) (job : StoredJob) (f : StoredJob → StoredJob) (running_then queued_then : ℕ)
      → Map.get id jobs ≡ some job
      → (running_now + bit (is_running (StoredJob.status (f job)))
          ≡ running_then + bit (is_running job.status))
        × (queued_now + bit (is_queued (StoredJob.status (f job)))
            ≡ queued_then + bit (is_queued job.status))
      → (IsUntouched id job → IsUntouched id (f job))
      → running_then ≤ limits.concurrent_jobs
      → running_then + queued_then ≤ worker_limit limits
      → Ledger limits (Map.modify id f jobs) running_then queued_then
  Ledger-modify id job f running_then queued_then there moves calm fits room = record {
    ordered = modify-IsOrdered id f jobs ledger.ordered;
    counts_running = omega (
      arith,
      count-modify (λ (j : StoredJob). is_running j.status) id job f jobs ledger.ordered there,
      ledger.counts_running,
      moves.0,
    );
    counts_queued = omega (
      arith,
      count-modify (λ (j : StoredJob). is_queued j.status) id job f jobs ledger.ordered there,
      ledger.counts_queued,
      moves.1,
    );
    untouched =
        Every-modify IsUntouched id f jobs
          (λ v found h.
            let same : job ≡ v = cc (there, found) in
            subst (λ x. IsUntouched id (f x)) same
              (calm (subst (λ x. IsUntouched id x) (sym same) h)))
          ledger.untouched;
    concurrent = fits;
    admitted = room;
    retained = omega (arith, length-modify id f jobs, ledger.retained);
  }
