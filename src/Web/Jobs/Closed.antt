-- ===== src/Web/Jobs/Closed.antt =====
-- jobs.rs `shutdown`, and the calls that reach the manager after it.
use immich_rs.Web.Jobs.Book.{book}
use immich_rs.Web.Jobs.Sound.{stops-Sound}
use immich_rs.Common.Map.Every.{update_all}
use immich_rs.Web.Jobs.Status.{request_cancel-queued}
use immich_rs.Common.Map.Counts.{count, Every-All}
use immich_rs.Common.Map.{Map}
use immich_rs.Web.Jobs.Sound.Kept.{Reachable-Sound}
use immich_rs.Web.Jobs.Steps.{
  records, leaves, subscribes, measures, shows, cancels, shuts_down, after, finishes, observes,
  Reachable, takes_inputs, begins, admits_apply, admits_dry_run, admits_plan, admits, Step, System,
}
use immich_rs.Web.Grants.{ApplyCapability}
use immich_rs.Web.Jobs.Subscription.{subscription, subscribe, drop_lease}
use immich_rs.Web.Jobs.Admission.{
  dry_run_history, plan_history, scan_history, is_closed, admit_apply_locked, admit_locked, tidy,
  admit_kind, admit, admit_plan, admit_dry_run, admit_apply, SourceProfile,
}
use immich_rs.Web.Jobs.Worker.{
  WorkerOutcome, History, is_queued_in, job_inputs, Turn, finish_locked, begin, finish,
}
use immich_rs.Web.Jobs.Control.{
  record_cancelled, owned, request_cancel, count_status, collect, answer_cancel, shutdown, release,
  drop_queued, snapshot, observe, cancel,
}
use immich_rs.Web.Jobs.{
  is_terminal_in, take_first, Thread, reap_workers, evict_terminal, evict_rounds, JobsState,
}
use immich_rs.Web.Jobs.Types.{is_queued, StoredJob, dry_run, plan, scan, JobKind, AdmissionError}
use immich_rs.Web.Limits.{WebLimits}
use immich_rs.Common.Map
use immich_rs.Common.{
  Result-cases, sym, ◌∙◌, All, zero, arith, inl, Option-cases, inr, length, leb, ℤ, Bool-cases, suc,
  false, not, ◌||◌, ℕ, ok, err, Bool, ◌≢◌, true, Option, Result, Text, ◌≡◌, ◌∷◌, [], refl,
}

-- The manager shuts down, and the counter of waiting jobs is zero.
abbrev IsClosed : JobsState → Type 0
IsClosed s = (s.shutting_down ≡ true) × (s.queued ≡ 0)

-- No identifier is given out, and the manager stays closed.
abbrev Refuses : Result AdmissionError Text × JobsState → Type 0
Refuses r = ((id : Text) → r.0 ≢ ok id) × IsClosed r.1

refused_with : (e : AdmissionError) (s : JobsState) → IsClosed s → Refuses (err e, s)
refused_with e s h = (λ id given. cc given, h)

none_counts :
    (p : StoredJob → Bool) (f : StoredJob → StoredJob) (jobs : Map StoredJob)
    → All (λ (e : Text × StoredJob). p (f e.1) ≡ false) jobs
    → count p (update_all f jobs) ≡ 0
none_counts p f [] h = refl
none_counts p f ((i, job) ∷ jobs) h = ground (arith, h.0, none_counts p f jobs h.1)

-- What further calls lead to.
pub data Later (limits : WebLimits) : System → System → Type 0 where
  at_once : (s : System) → Later limits s s
  onward : (s t u : System) → Later limits s t → Step limits t u → Later limits s u

-- No job waits and none starts, and no call admits a job, whatever its arguments and its environment.
pub record IsShut (limits : WebLimits) (s : JobsState) : Type 0 where
  pub queued_zero : s.queued ≡ 0
  pub none_waits : count_status is_queued s.jobs ≡ 0
  pub none_starts : (id : Text) → (begin limits id s).0 ≡ Turn.refused
  pub refuses :
      (source : Text → Option SourceProfile) (threads : Text → Thread) (random : Option Text)
      (spawned : Bool) (owner source_id id : Text)
      → (admit limits source threads random spawned owner source_id s).0 ≢ ok id
  pub refuses_plan :
      (source : Text → Option SourceProfile) (threads : Text → Thread) (random : Option Text)
      (spawned : Bool) (server : Text → Bool) (owner source_id server_id id : Text)
      → (admit_plan limits source threads random spawned server owner source_id server_id s).0
        ≢ ok id
  pub refuses_dry_run :
      (source : Text → Option SourceProfile) (threads : Text → Thread) (random : Option Text)
      (spawned : Bool) (server : Text → Bool) (load : Text → Option (Text × Text))
      (owner reference id : Text)
      → (admit_dry_run limits source threads random spawned server load owner reference s).0 ≢ ok id
  pub refuses_apply :
      (source : Text → Option SourceProfile) (threads : Text → Thread) (random : Option Text)
      (spawned : Bool) (capability : ApplyCapability) (id : Text)
      → (admit_apply limits source threads random spawned capability s).0 ≢ ok id

module _ (limits : WebLimits) where
  evict_rounds-IsClosed :
      (retained rounds : ℕ) (s : JobsState) → IsClosed s → IsClosed (evict_rounds retained rounds s)
  unfolding evict_rounds
  evict_rounds-IsClosed retained zero s h = h
  evict_rounds-IsClosed retained (suc rounds) s h =
      elim (Bool-cases (leb retained (length s.jobs))) [
        | inr fits ↦ rw fits h
        | inl over ↦ elim (Option-cases (take_first (is_terminal_in s.jobs) s.order)) [
          | inl nothing ↦ rw (over, nothing) h
          | inr ((id, order), e) ↦
              rw (over, e)
                (evict_rounds-IsClosed retained rounds
                  (record s { jobs = Map.remove id s.jobs; order = order }) h)
        ]
      ]

  tidy-IsClosed :
      (threads : Text → Thread) (s : JobsState) → IsClosed s → IsClosed (tidy limits threads s)
  unfolding evict_terminal reap_workers
  tidy-IsClosed threads s h =
      evict_rounds-IsClosed limits.retained_jobs (suc (length s.order)) (reap_workers threads s) h

  module _ (source : Text → Option SourceProfile) (threads : Text → Thread) (random : Option Text)
      (spawned : Bool) where
    admit_kind-Refuses :
        (owner source_id : Text) (kind : JobKind) (s : JobsState)
        → IsClosed s
        → Refuses (admit_kind limits source threads random spawned owner source_id kind s)
    unfolding admit_kind admit_locked
    admit_kind-Refuses owner source_id kind s h = elim (Option-cases (source source_id)) [
      | inl unknown ↦ rw (unknown, admit_kind) (refused_with _ s h)
      | inr (profile, known) ↦ elim (Option-cases random) [
        | inl failing ↦ rw (known, failing, admit_kind) (refused_with _ s h)
        | inr (id, given) ↦
            let tidied = tidy-IsClosed threads s h in
            let now : is_closed (tidy limits threads s) ≡ true = ground (arith, tidied.0) in
            rw (known, given, admit_kind)
              (rw (now, admit_locked) (refused_with _ (tidy limits threads s) tidied))
      ]
    ]

    admit_apply-Refuses :
        (capability : ApplyCapability) (s : JobsState)
        → IsClosed s
        → Refuses (admit_apply limits source threads random spawned capability s)
    unfolding admit_apply admit_apply_locked
    admit_apply-Refuses capability s h =
        elim (Option-cases (source capability.binding.source_profile_id)) [
          | inl unknown ↦ rw (unknown, admit_apply) (refused_with _ s h)
          | inr (profile, known) ↦ elim (Option-cases random) [
            | inl failing ↦ rw (known, failing, admit_apply) (refused_with _ s h)
            | inr (id, given) ↦
                let tidied = tidy-IsClosed threads s h in
                let now : is_closed (tidy limits threads s) ≡ true = ground (arith, tidied.0) in
                rw (known, given, admit_apply)
                  (rw (now, admit_apply_locked) (refused_with _ (tidy limits threads s) tidied))
          ]
        ]

    admit-Refuses :
        (owner source_id : Text) (s : JobsState)
        → IsClosed s
        → Refuses (admit limits source threads random spawned owner source_id s)
    unfolding admit
    admit-Refuses owner source_id s h = elim (Option-cases (source source_id)) [
      | inl unknown ↦ rw (unknown, admit) (refused_with _ s h)
      | inr (profile, known) ↦
          rw (known, admit)
            (admit_kind-Refuses owner source_id (scan (scan_history profile.kind)) s h)
    ]

    admit_plan-Refuses :
        (server : Text → Bool) (owner source_id server_id : Text) (s : JobsState)
        → IsClosed s
        → Refuses
            (admit_plan limits source threads random spawned server owner source_id server_id s)
    unfolding admit_plan
    admit_plan-Refuses server owner source_id server_id s h = elim (Bool-cases (server server_id)) [
      | inr missing ↦ rw (missing, admit_plan) (refused_with _ s h)
      | inl present ↦ elim (Option-cases (source source_id)) [
        | inl unknown ↦ rw (present, unknown, admit_plan) (refused_with _ s h)
        | inr (profile, known) ↦
            rw (present, known, admit_plan)
              (admit_kind-Refuses owner source_id (plan server_id (plan_history profile.kind)) s h)
      ]
    ]

    admit_dry_run-Refuses :
        (server : Text → Bool) (load : Text → Option (Text × Text)) (owner reference : Text)
        (s : JobsState)
        → IsClosed s
        → Refuses (admit_dry_run limits source threads random spawned server load owner reference s)
    unfolding admit_dry_run
    admit_dry_run-Refuses server load owner reference s h = elim (Option-cases (load reference)) [
      | inl unread ↦ rw (unread, admit_dry_run) (refused_with _ s h)
      | inr ((source_id, server_id), loaded) ↦ elim (Bool-cases (server server_id)) [
        | inr missing ↦ rw (loaded, missing, admit_dry_run) (refused_with _ s h)
        | inl present ↦ elim (Option-cases (source source_id)) [
          | inl unknown ↦ rw (loaded, present, unknown, admit_dry_run) (refused_with _ s h)
          | inr (profile, known) ↦
              rw (loaded, present, known, admit_dry_run)
                (admit_kind-Refuses owner source_id
                  (dry_run reference (dry_run_history profile.kind)) s h)
        ]
      ]
    ]

  or_true : (a : Bool) → (a || true) ≡ true
  or_true true = refl
  or_true false = refl

  begin_closed : (id : Text) (s : JobsState) → IsClosed s → begin limits id s ≡ (Turn.refused, s)
  unfolding begin
  begin_closed id s h =
      let shut : (not (is_queued_in s.jobs id) || s.shutting_down) ≡ true =
        rw (h.0) (or_true (not (is_queued_in s.jobs id))) in
      rw (shut, begin) refl

  cancel-IsClosed :
      (id owner : Text) (s : JobsState) → IsClosed s → IsClosed (cancel limits id owner s).1
  unfolding cancel drop_queued release answer_cancel
  cancel-IsClosed id owner s h = ground arith

  finish-IsClosed :
      (now : Option ℤ) (history : History) (id : Text) (outcome : WorkerOutcome) (s : JobsState)
      → IsClosed s
      → IsClosed (finish limits now history id outcome s).1
  unfolding finish finish_locked release
  finish-IsClosed now history id outcome s h = ground arith

  Step-IsClosed : {s s' : System} → Step limits s s' → IsClosed s.state → IsClosed s'.state
  unfolding observe record_cancelled snapshot reap_workers job_inputs shutdown collect drop_lease
      subscribe
  Step-IsClosed (admits source threads random spawned owner source_id s) h =
      (admit-Refuses source threads random spawned owner source_id s.state h).1
  Step-IsClosed (admits_plan source threads random spawned server owner source_id server_id s) h =
      (admit_plan-Refuses source threads random spawned server owner source_id server_id s.state
        h).1
  Step-IsClosed (admits_dry_run source threads random spawned server load owner reference s) h =
      (admit_dry_run-Refuses source threads random spawned server load owner reference s.state h).1
  Step-IsClosed (admits_apply source threads random spawned capability s) h =
      (admit_apply-Refuses source threads random spawned capability s.state h).1
  Step-IsClosed (begins id s) h = rw (begin_closed id s.state h) h
  Step-IsClosed (takes_inputs id s working) h = elim (Option-cases (Map.get id s.state.jobs)) [
    | inl missing ↦ rw (missing, job_inputs) h
    | inr (job, e) ↦ rw (e, job_inputs) h
  ]
  Step-IsClosed (observes id progress s working) h = h
  Step-IsClosed (finishes now history id outcome s working) h =
      finish-IsClosed now history id outcome s.state h
  Step-IsClosed (cancels id owner s) h = cancel-IsClosed id owner s.state h
  Step-IsClosed (records true s some_left) h = h
  Step-IsClosed (records false s some_left) h = h
  Step-IsClosed (shuts_down joined s) h = (refl, ground (arith, h.1))
  Step-IsClosed (shows threads id owner s) h =
      elim (Option-cases (owned id owner (reap_workers threads s.state))) [
        | inl missing ↦ rw (missing, snapshot) h
        | inr (job, e) ↦ rw (e, snapshot) h
      ]
  Step-IsClosed (measures threads s) h = h
  Step-IsClosed (subscribes id owner cursor s) h =
      elim (Result-cases (subscription limits id owner cursor s.state)) [
        | inl (e, refusal) ↦ rw (refusal, subscribe) h
        | inr ((made, owner_count), accepted) ↦ rw (accepted, subscribe) h
      ]
  Step-IsClosed (leaves owner s) h = h

  Later-IsClosed : {s t : System} → Later limits s t → IsClosed s.state → IsClosed t.state
  Later-IsClosed (at_once s) h = h
  Later-IsClosed (onward s t u before step) h = Step-IsClosed step (Later-IsClosed before h)

  Later-Reachable :
      {n : ℕ} {s t : System}
      → Later limits s t
      → Reachable limits n s
      → (m : ℕ) × Reachable limits m t
  Later-Reachable {n} (at_once s) reached = (n, reached)
  Later-Reachable (onward s t u before step) reached =
      let (m, here) = Later-Reachable before reached in (suc m, after m t u here step)

  shutdown-IsClosed :
      {n : ℕ} {s : System}
      → Reachable limits n s
      → (joined : Text → Bool) → IsClosed (shutdown limits joined s.state).1
  unfolding shutdown
  shutdown-IsClosed {s = s} reached joined =
      let sound = Reachable-Sound limits reached in
      let calm =
        Every-All
          (λ _ (job : StoredJob). is_queued (StoredJob.status (request_cancel limits job)) ≡ false)
          s.state.jobs sound.ledger.ordered
          (λ k job found.
            ground (arith, request_cancel-queued limits job, sound.ledger.untouched k job found)) in
      let kept = stops-Sound limits (book s.state s.working) sound in
      (
        refl,
        sym kept.counts_queued
            ∙ none_counts (λ (j : StoredJob). is_queued j.status) (request_cancel limits)
                s.state.jobs calm,
      )

  -- After a shutdown from a state that calls lead to, and in every state that further calls lead to
  -- from there, no job waits and the counter says so, no thread starts a job, and no call, of `admit`,
  -- `admit_plan`, `admit_dry_run` and `admit_apply`, admits one.
  pub shutdown_lem :
      {n : ℕ} {s t : System}
      → Reachable limits n s
      → (joined : Text → Bool)
      → Later limits (record s { state = (shutdown limits joined s.state).1; asleep = [] }) t
      → IsShut limits t.state
  shutdown_lem {s = s} {t = t} reached joined further =
      let closed = Later-IsClosed further (shutdown-IsClosed reached joined) in
      let (m, here) = Later-Reachable further (after _ s _ reached (shuts_down joined s)) in
      record {
        queued_zero = closed.1;
        none_waits = (Reachable-Sound limits here).ledger.counts_queued ∙ closed.1;
        none_starts = λ id. rw (begin_closed id t.state closed) refl;
        refuses = λ source threads random spawned owner source_id.
            (admit-Refuses source threads random spawned owner source_id t.state closed).0;
        refuses_plan = λ source threads random spawned server owner source_id server_id.
            (admit_plan-Refuses source threads random spawned server owner source_id server_id
              t.state closed).0;
        refuses_dry_run = λ source threads random spawned server load owner reference.
            (admit_dry_run-Refuses source threads random spawned server load owner reference t.state
              closed).0;
        refuses_apply = λ source threads random spawned capability.
            (admit_apply-Refuses source threads random spawned capability t.state closed).0;
      }
