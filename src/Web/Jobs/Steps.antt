-- ===== src/Web/Jobs/Steps.antt =====
-- The calls on the job manager that the mutex lets through one after the other, by the console's handlers
-- and by the threads of the jobs.
use immich_rs.Web.Jobs.Subscription.{drop_lease, subscribe}
use immich_rs.Web.Jobs.Control.{
  record_cancelled, owned, collect, snapshot, shutdown, cancel, observe,
}
use immich_rs.Common.{
  ◌-◌, ◌≤◌, ◌+◌, is_some, ◌&&◌, if◌then◌else◌, is_some_and, text_eq, not, retain, ℤ, true, contains,
  Bool, suc, ℕ, List, Option, Text, ◌≡◌, ◌∷◌, [],
}
use immich_rs.Web.Limits.{WebLimits}
use immich_rs.Web.Jobs.Types.{terminal, StoredJob, JobProgress}
use immich_rs.Web.Jobs.{new_jobs, Thread, JobsState}
use immich_rs.Web.Jobs.Admission.{admit_apply, admit_dry_run, admit_plan, admit, SourceProfile}
use immich_rs.Web.Jobs.Worker.{finish, History, job_inputs, begin, Turn, WorkerOutcome}
use immich_rs.Web.Grants.{ApplyCapability}
use immich_rs.Web.Jobs.Worker.{refused, waiting, started}
use immich_rs.Web.Jobs.Subscription.{drop_lease}

-- The state, the jobs whose thread is between `begin` and `finish`, and those whose thread waits for the
-- signal of the condition variable `worker_available`, and how many cancelled jobs are to be recorded.
pub record System : Type 0 where
  pub state : JobsState
  pub working : List Text
  pub asleep : List Text
  pub unrecorded : ℕ

abbrev pub initial : System
initial = record { state = new_jobs; working = []; asleep = []; unrecorded = 0 }

-- The working threads after a turn.
abbrev pub joined_by : Text → Turn → List Text → List Text
joined_by id refused working = working
joined_by id waiting working = working
joined_by id started working = id ∷ working

-- The waiting threads after a turn: `worker_available.wait` for a thread that cannot start.
abbrev pub asleep_after : Text → Turn → List Text → List Text
asleep_after id waiting asleep = id ∷ retain (λ other. not (text_eq other id)) asleep
asleep_after id refused asleep = retain (λ other. not (text_eq other id)) asleep
asleep_after id started asleep = retain (λ other. not (text_eq other id)) asleep

-- Whether `cancel` reaches `notify_all`; `finish` and `shutdown` always do.
abbrev pub cancel_notifies : Text → Text → JobsState → Bool
cancel_notifies id owner s =
    is_some_and (owned id owner s)
      (λ (job : StoredJob). not (terminal job.status) && not job.cancellation_requested)

-- One step. A thread takes its turn when it starts, when it is woken, and spuriously. A thread reports progress, takes its inputs and finishes only while it works.
pub data Step (limits : WebLimits) : System → System → Type 0 where
  admits :
      (source : Text → Option SourceProfile) (threads : Text → Thread) (random : Option Text)
      (spawned : Bool) (owner source_id : Text) (s : System)
      → Step limits s (record s {
        state = (admit limits source threads random spawned owner source_id s.state).1;
      })
  admits_plan :
      (source : Text → Option SourceProfile) (threads : Text → Thread) (random : Option Text)
      (spawned : Bool) (server : Text → Bool) (owner source_id server_id : Text) (s : System)
      → Step limits s (record s {
        state =
            (admit_plan limits source threads random spawned server owner source_id server_id
              s.state).1;
      })
  admits_dry_run :
      (source : Text → Option SourceProfile) (threads : Text → Thread) (random : Option Text)
      (spawned : Bool) (server : Text → Bool) (load : Text → Option (Text × Text))
      (owner reference : Text) (s : System)
      → Step limits s (record s {
        state =
            (admit_dry_run limits source threads random spawned server load owner reference
              s.state).1;
      })
  admits_apply :
      (source : Text → Option SourceProfile) (threads : Text → Thread) (random : Option Text)
      (spawned : Bool) (capability : ApplyCapability) (s : System)
      → Step limits s (record s {
        state = (admit_apply limits source threads random spawned capability s.state).1;
      })
  begins :
      (id : Text) (s : System)
      → Step limits s (record {
        state = (begin limits id s.state).1;
        working = joined_by id (begin limits id s.state).0 s.working;
        asleep = asleep_after id (begin limits id s.state).0 s.asleep;
        unrecorded = s.unrecorded;
      })
  takes_inputs :
      (id : Text) (s : System)
      → contains id s.working ≡ true
      → Step limits s (record s { state = (job_inputs id s.state).1 })
  observes :
      (id : Text) (progress : JobProgress) (s : System)
      → contains id s.working ≡ true
      → Step limits s (record s { state = observe limits id progress s.state })
  finishes :
      (now : Option ℤ) (history : History) (id : Text) (outcome : WorkerOutcome) (s : System)
      → contains id s.working ≡ true
      → Step limits s (record {
        state = (finish limits now history id outcome s.state).1;
        working = retain (λ other. not (text_eq other id)) s.working;
        asleep = [];
        unrecorded = s.unrecorded;
      })
  cancels :
      (id owner : Text) (s : System)
      → Step limits s (record s {
        state = (cancel limits id owner s.state).1;
        asleep = if cancel_notifies id owner s.state then [] else s.asleep;
        unrecorded =
            if is_some (cancel limits id owner s.state).0.1 then s.unrecorded + 1 else s.unrecorded;
      })
  records :
      (recorded : Bool) (s : System)
      → 1 ≤ s.unrecorded
      → Step limits s
          (record s { state = record_cancelled recorded s.state; unrecorded = s.unrecorded - 1 })
  shuts_down :
      (joined : Text → Bool) (s : System)
      → Step limits s (record s { state = (shutdown limits joined s.state).1; asleep = [] })
  shows :
      (threads : Text → Thread) (id owner : Text) (s : System)
      → Step limits s (record s { state = (snapshot threads id owner s.state).1 })
  measures :
      (threads : Text → Thread) (s : System)
      → Step limits s (record s { state = (collect threads s.state).1 })
  subscribes :
      (id owner : Text) (after : Option ℕ) (s : System)
      → Step limits s (record s { state = (subscribe limits id owner after s.state).1 })
  leaves :
      (owner : Text) (s : System) → Step limits s (record s { state = drop_lease owner s.state })

-- The systems that a number of steps lead to.
pub data Reachable (limits : WebLimits) : ℕ → System → Type 0 where
  start : Reachable limits 0 initial
  after :
      (n : ℕ) (s s' : System)
      → Reachable limits n s
      → Step limits s s'
      → Reachable limits (suc n) s'
