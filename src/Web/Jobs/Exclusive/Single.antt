-- ===== src/Web/Jobs/Exclusive/Single.antt =====
-- jobs.rs and jobs/apply_admission.rs, `active_checkpoints`: the plans of the jobs under way, over all calls.
use immich_rs.Web.Jobs.Sound.Kept.{Reachable-Sound, Reachable-Moves, Move-Sound}
use immich_rs.Web.Jobs.Steps.{initial, Reachable, System}
use immich_rs.Web.Jobs.Ledger.{ended_elsewhere}
use immich_rs.Common.Map.Every.{get-modify, get-update_all, update_all}
use immich_rs.Web.Jobs.Status.{kind-request_cancel, status-request_cancel, close_job-terminal}
use immich_rs.Web.Jobs.Control.{cancels_queued, request_cancel}
use immich_rs.Common.Map.{get-insert, Map}
use immich_rs.Web.Jobs.Worker.{is_queued_in, close_job, set_running, WorkerOutcome}
use immich_rs.Common.{
  not, retain, is_some_and-some, AllSome, text_eq_iff, text_eq, Bool-cases, text_eq_refl, ◌∙◌,
  is_some, true, ◌⊎◌, sym, inr, inl, Option-cases, ◌-◌, sat_add, false, ◌++◌, arith, some, List, ℕ,
  Option, none, Text, ◌≡◌, ◌∷◌, [], refl,
}
use immich_rs.Common.Map
use immich_rs.Common.Map.Counts.{count}
use mathlib.Core.Path.{subst}
use immich_rs.Web.Limits.{WebLimits}
use immich_rs.Web.Jobs.{new_jobs}
use immich_rs.Web.Jobs.Types.{
  is_queued, is_running, JobStatus, JobKind, apply_reference, terminal, push_event, StoredJob,
}
use immich_rs.Web.Jobs.Book.{
  book_of, disclaim, claim, IsFree, set_progress, Book, Move, Moves, evicts, enqueues, starts,
  observes, ends, cancels, stops, stay, move,
}
use immich_rs.Web.Jobs.Sound.{Sound}
use immich_rs.Web.Jobs.Exclusive.{
  gives_back, plan_under_way, modify-Within, Within, remove-Within, plan_of_job, Exclusive, shrink,
}

module _ (limits : WebLimits) where
  -- A request to stop takes nothing up.
  request_cancel-plan :
      (job : StoredJob) (reference : Text)
      → plan_of_job (request_cancel limits job) ≡ some reference
      → plan_of_job job ≡ some reference
  request_cancel-plan job reference e =
      ground (arith, status-request_cancel limits job, kind-request_cancel limits job)

  close_job-plan :
      (outcome : WorkerOutcome) (receipt : Option Text) (job : StoredJob)
      → plan_of_job (close_job limits outcome receipt job) ≡ none
  close_job-plan outcome receipt job = ground (arith, close_job-terminal limits outcome receipt job)

  claim-own :
      (kind : JobKind) (active : Map (Unit {0})) (reference : Text)
      → apply_reference kind ≡ some reference
      → is_some (Map.get reference (claim kind active)) ≡ true
  claim-own kind active reference e =
      rw (e, claim)
        (ground (arith, get-insert reference reference tt active, text_eq_refl reference))

  claim-grows :
      (kind : JobKind) (active : Map (Unit {0})) (reference : Text)
      → is_some (Map.get reference active) ≡ true
      → is_some (Map.get reference (claim kind active)) ≡ true
  claim-grows kind active reference h = elim (Option-cases (apply_reference kind)) [
    | inl other ↦ rw (other, claim) h
    | inr (own, e) ↦ rw (e, claim) (ground (arith, get-insert reference own tt active))
  ]

  IsFree-own :
      (kind : JobKind) (active : Map (Unit {0})) (reference : Text)
      → IsFree kind active
      → apply_reference kind ≡ some reference
      → Map.get reference active ≡ none
  IsFree-own kind active reference free e =
      subst (λ o. AllSome (λ r. Map.get r active ≡ none) o) e free

  -- The plans under way with a new job: the old ones, and its own.
  with_new :
      (id : Text) (job : StoredJob) (jobs : Map StoredJob) (k reference : Text)
      → plan_under_way (Map.insert id (push_event limits.sse_replay_events job) jobs) k
        ≡ some reference
      → (plan_under_way jobs k ≡ some reference)
        ⊎ ((id ≡ k) × (apply_reference job.kind ≡ some reference))
  unfolding push_event
  with_new id job jobs k reference e =
      let looked = get-insert k id (push_event limits.sse_replay_events job) jobs in
      elim (Bool-cases (text_eq id k)) [
        | inl same ↦ inr ((text_eq_iff id k).0 same, ground (arith, looked))
        | inr other ↦ inl (ground (arith, looked))
      ]

  enqueues-Exclusive :
      (id : Text) (job : StoredJob) (b : Book)
      → Map.get id b.jobs ≡ none
      → IsFree job.kind b.active
      → Exclusive b
      → Exclusive (record b {
        jobs = Map.insert id (push_event limits.sse_replay_events job) b.jobs;
        order = b.order ++ id ∷ [];
        queued = sat_add b.queued 1;
        active = claim job.kind b.active;
      })
  enqueues-Exclusive id job b absent free h = record {
    taken = λ k reference e. elim (with_new id job b.jobs k reference e) [
      | inl old ↦ claim-grows job.kind b.active reference (h.taken k reference old)
      | inr (same, own) ↦ claim-own job.kind b.active reference own
    ];
    alone = λ k other reference e f. elim (with_new id job b.jobs k reference e) [
      | inl old ↦ elim (with_new id job b.jobs other reference f) [
        | inl older ↦ h.alone k other reference old older
        | inr (same, own) ↦ clash k reference old own
      ]
      | inr (same, own) ↦ elim (with_new id job b.jobs other reference f) [
        | inl older ↦ clash other reference older own
        | inr (too, _) ↦ sym same ∙ too
      ]
    ];
  }
    where
      clash :
          {A : Type 0} (k reference : Text)
          → plan_under_way b.jobs k ≡ some reference
          → apply_reference job.kind ≡ some reference
          → A
      clash k reference old own =
          cc (h.taken k reference old, IsFree-own job.kind b.active reference free own)

  ends-Exclusive :
      (id : Text) (job : StoredJob) (jobs : Map StoredJob) (running_then queued_then : ℕ)
      (working : List Text) (b : Book)
      → Map.get id b.jobs ≡ some job
      → terminal job.status ≡ false
      → Within jobs b.jobs
      → plan_under_way jobs id ≡ none
      → Exclusive b
      → Exclusive (record b {
        jobs = jobs;
        running = running_then;
        queued = queued_then;
        active = disclaim job.kind b.active;
        working = working;
      })
  ends-Exclusive id job jobs running_then queued_then working b there lives within_old ended h =
      elim (Option-cases (apply_reference job.kind)) [
        | inl other ↦
            rw (other, disclaim)
              (shrink b jobs b.order running_then queued_then working within_old h)
        | inr (reference, applies) ↦
            rw (applies, disclaim)
              (record {
                taken =
                    gives_back b id reference jobs h within_old ended
                      (rw (there, plan_under_way, lives, applies) refl);
                alone =
                    λ k other r e f. h.alone k other r (within_old k r e) (within_old other r f);
              })
      ]

  starts_plan :
      (id : Text) (job : StoredJob) (b : Book)
      → is_queued_in b.jobs id ≡ true
      → Map.get id b.jobs ≡ some job
      → (reference : Text) → plan_of_job (set_running limits job) ≡ some reference
      → plan_of_job job ≡ some reference
  unfolding set_running push_event
  starts_plan id job b waits there reference e = ground (arith, ended_elsewhere job.status)

  running_lives : (status : JobStatus) → is_running status ≡ true → terminal status ≡ false
  running_lives status h = ground (arith, Bool-cases (terminal status), ended_elsewhere status)

  queued_lives : (status : JobStatus) → is_queued status ≡ true → terminal status ≡ false
  queued_lives status h = ground (arith, Bool-cases (terminal status), ended_elsewhere status)

  stops-Within : (jobs : Map StoredJob) → Within (update_all (request_cancel limits) jobs) jobs
  stops-Within jobs k reference e = elim (Option-cases (Map.get k jobs)) [
    | inl missing ↦ ground (arith, get-update_all k (request_cancel limits) jobs)
    | inr (job, there) ↦
        rw (there, plan_under_way)
          (request_cancel-plan job reference
            (ground (arith, get-update_all k (request_cancel limits) jobs)))
  ]

  pub Move-Exclusive : {b c : Book} → Move limits b c → Sound limits b → Exclusive b → Exclusive c
  unfolding set_progress set_running push_event
  Move-Exclusive (evicts id order b taken) sound h =
      shrink b (Map.remove id b.jobs) order b.running b.queued b.working (remove-Within id b.jobs) h
  Move-Exclusive (enqueues id job b absent room space is_new free) sound h =
      enqueues-Exclusive id job b absent free h
  Move-Exclusive (starts id b waits first room) sound h =
      shrink b (Map.modify id (set_running limits) b.jobs) b.order (sat_add b.running 1)
        (b.queued - 1) (id ∷ b.working)
        (modify-Within id (set_running limits) b.jobs
          (λ job there reference e. starts_plan id job b waits there reference e))
        h
  Move-Exclusive (observes id progress b working) sound h =
      shrink b (Map.modify id (set_progress limits progress) b.jobs) b.order b.running b.queued
        b.working
        (modify-Within id (set_progress limits progress) b.jobs (λ job there reference e. e)) h
  Move-Exclusive (ends id outcome receipt b working) sound h =
      let (job, there, runs) =
        is_some_and-some (Map.get id b.jobs) (λ job. is_running job.status)
          (sound.works id working) in
      let f = close_job limits outcome receipt in
      rw there (
        ends-Exclusive id job (Map.modify id f b.jobs) (b.running - 1) b.queued
          (retain (λ other. not (text_eq other id)) b.working) b there
          (running_lives job.status runs)
          (modify-Within id f b.jobs
            (λ j found reference e. cc (e, close_job-plan outcome receipt j)))
          (ground (
            arith,
            get-modify id id f b.jobs,
            text_eq_refl id,
            there,
            close_job-plan outcome receipt job,
          ))
          h)
  Move-Exclusive (cancels id job b there) sound h =
      let within_old =
        modify-Within id (request_cancel limits) b.jobs
          (λ j found reference e. request_cancel-plan j reference e) in
      elim (Bool-cases (is_queued job.status)) [
        | inl waits ↦
            let calm = sound.ledger.untouched id job there waits in
            rw waits (
              ends-Exclusive id job (Map.modify id (request_cancel limits) b.jobs) b.running
                (b.queued - 1) b.working b there (queued_lives job.status waits) within_old
                (ground (
                  arith,
                  get-modify id id (request_cancel limits) b.jobs,
                  text_eq_refl id,
                  there,
                  status-request_cancel limits job,
                  waits,
                  calm,
                ))
                h)
        | inr other ↦ rw other (
            shrink b (Map.modify id (request_cancel limits) b.jobs) b.order b.running b.queued
              b.working within_old h)
      ]
  Move-Exclusive (stops b) sound h =
      shrink b (update_all (request_cancel limits) b.jobs) b.order b.running
        (b.queued - count cancels_queued b.jobs) b.working (stops-Within b.jobs) h

  Moves-Exclusive : {b c : Book} → Moves limits b c → Sound limits b → Exclusive b → Exclusive c
  Moves-Exclusive (stay b) sound h = h
  Moves-Exclusive (move b c d first rest) sound h =
      Moves-Exclusive rest (Move-Sound limits first sound) (Move-Exclusive first sound h)

  initial-Exclusive : Exclusive (book_of initial)
  unfolding new_jobs Map.get
  initial-Exclusive = record { taken = λ id reference e. cc; alone = λ id other reference e f. cc }

  -- In every state that calls lead to, however they interleave, two jobs that apply the same plan and
  -- have not ended are the same job.
  pub single_apply :
      {n : ℕ} {s : System}
      → Reachable limits n s
      → (id other reference : Text) → plan_under_way s.state.jobs id ≡ some reference
      → plan_under_way s.state.jobs other ≡ some reference
      → id ≡ other
  single_apply reached =
      (Moves-Exclusive (Reachable-Moves limits reached) (Reachable-Sound limits Reachable.start)
        initial-Exclusive).alone
