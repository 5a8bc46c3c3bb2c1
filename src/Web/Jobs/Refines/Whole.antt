-- ===== src/Web/Jobs/Refines/Whole.antt =====
-- jobs.rs and jobs/worker.rs: the other calls as moves of the book.
use immich_rs.Web.Jobs.Listed.{Listed}
use immich_rs.Web.Jobs.Steps.{
  records, leaves, subscribes, measures, shows, shuts_down, finishes, takes_inputs, begins,
  admits_apply, admits_dry_run, admits_plan, admits, Step, System, joined_by,
}
use immich_rs.Web.Jobs.Types.{
  JobKind, JobStatus, apply_reference, is_queued, StoredJob, HistoryKind,
}
use immich_rs.Web.Jobs.Subscription.{subscription, drop_lease, subscribe}
use immich_rs.Web.Jobs.Control.{
  record_cancelled, request_cancel, owned, drop_queued, answer_cancel, release, collect, shutdown,
  snapshot, observe, cancel,
}
use immich_rs.Web.Jobs.Worker.{
  kind_of, close_job, write_history, next_queued, is_queued_in, WorkerOutcome, job_inputs, History,
  finish_locked, start, begin, finish,
}
use mathlib.Core.Path.{subst}
use immich_rs.Common.{
  false, refl, Result-cases, ◌∙◌, get_or, ◌-◌, none, is_some, text_eq_iff, if◌then◌else◌, sym, ap,
  some, Option-cases, arith, ltb, ◌&&◌, is_some_and, inr, inl, ◌||◌, text_eq, not, retain,
  Bool-cases, true, contains, List, ℤ, ℕ, Option, Text, ◌≡◌,
}
use immich_rs.Common.Map
use immich_rs.Web.Limits.{WebLimits}
use immich_rs.Web.Jobs.{reap_workers, JobsState}
use immich_rs.Web.Jobs.Book.{
  stops, disclaim, ends, cancels, Move, starts, move, stay, book_of, book, Moves, set_progress,
}
use immich_rs.Web.Jobs.Refines.Calls.{
  admit_apply-Moves, admit_dry_run-Moves, admit_plan-Moves, admit-Moves,
}

module _ (limits : WebLimits) where
  is_next :
      {id : Text} (o : Option Text) → is_some_and o (λ next. text_eq next id) ≡ true → o ≡ some id
  is_next none h = cc
  is_next {id} (some next) h = ap (λ (t : Text). some t) ((text_eq_iff next id).0 h)

  begin-Moves :
      (id : Text) (s : JobsState) (working : List Text)
      → Moves limits
          (book s working)
          (book (begin limits id s).1 (joined_by id (begin limits id s).0 working))
  unfolding begin start
  begin-Moves id s working = elim (Bool-cases (not (is_queued_in s.jobs id) || s.shutting_down)) [
    | inl refusal ↦ rw (refusal, begin) (stay _)
    | inr queues ↦
        elim (Bool-cases (
          is_some_and (next_queued s.jobs s.order) (λ next. text_eq next id)
          && ltb s.running limits.concurrent_jobs)) [
            | inr early ↦ rw (queues, early, begin) (stay _)
            | inl turn ↦
                rw (queues, turn, begin)
                  (move _ _ _
                    (starts id _ (ground arith)
                      (is_next (next_queued s.jobs s.order) (ground arith)) (ground arith))
                    (stay _))
          ]
  ]

  -- The book that `finish` leaves.
  book-finish :
      (id : Text) (outcome : WorkerOutcome) (written : Option (Option Text)) (s : JobsState)
      (working : List Text)
      → book (finish_locked limits id outcome written s) working ≡ record (book s working) {
        jobs =
            Map.modify id
              (close_job limits
                (if is_some written then outcome else WorkerOutcome.failed (kind_of outcome))
                (get_or written none))
              s.jobs;
        running = s.running - 1;
        active = elim (Map.get id s.jobs) [
          | none ↦ s.active_checkpoints
          | some job ↦ disclaim job.kind s.active_checkpoints
        ];
      }
  unfolding finish_locked release
  book-finish id outcome written s working = elim (Option-cases (Map.get id s.jobs)) [
    | inl missing ↦ rw (missing, finish_locked) refl
    | inr (job, e) ↦ elim (Option-cases (apply_reference job.kind)) [
      | inl other ↦ rw (e, other, finish_locked, release, disclaim) refl
      | inr (reference, applies) ↦ rw (e, applies, finish_locked, release, disclaim) refl
    ]
  ]

  finish-Moves :
      (now : Option ℤ) (history : History) (id : Text) (outcome : WorkerOutcome) (s : JobsState)
      (working : List Text)
      → contains id working ≡ true
      → Moves limits (book s working) (
          book
            (finish limits now history id outcome s).1
            (retain (λ other. not (text_eq other id)) working))
  unfolding finish
  finish-Moves now history id outcome s working there =
      let written = write_history now history outcome in
      subst (λ b. Moves limits (book s working) b)
        (sym (book-finish id outcome written s (retain (λ other. not (text_eq other id)) working)))
        (move _ _ _ (ends id _ _ _ there) (stay _))

  book-answer :
      (id owner : Text) (kind : Option HistoryKind) (s : JobsState) (working : List Text)
      → book (answer_cancel id owner kind s).1 working ≡ book s working
  unfolding answer_cancel
  book-answer id owner kind s working = ground arith

  book-dropped :
      (id : Text) (status : JobStatus) (kind : JobKind) (s : JobsState) (working : List Text)
      → book (if is_queued status then drop_queued id kind s else s) working
        ≡ record (book s working) {
          queued = if is_queued status then s.queued - 1 else s.queued;
          active =
              if is_queued status then disclaim kind s.active_checkpoints else s.active_checkpoints;
        }
  unfolding drop_queued release
  book-dropped id status kind s working = elim (Bool-cases (is_queued status)) [
    | inr other ↦ rw other refl
    | inl waits ↦ elim (Option-cases (apply_reference kind)) [
      | inl none_of ↦ rw (waits, none_of, drop_queued, release, disclaim) refl
      | inr (reference, applies) ↦ rw (waits, applies, drop_queued, release, disclaim) refl
    ]
  ]

  -- The book that `cancel` leaves.
  pub book-cancel :
      (id owner : Text) (job : StoredJob) (s : JobsState) (working : List Text)
      → owned id owner s ≡ some job
      → book (cancel limits id owner s).1 working ≡ record (book s working) {
        jobs = Map.modify id (request_cancel limits) s.jobs;
        queued = if is_queued job.status then s.queued - 1 else s.queued;
        active =
            if is_queued job.status
            then disclaim job.kind s.active_checkpoints
            else s.active_checkpoints;
      }
  unfolding cancel drop_queued release
  book-cancel id owner job s working found =
      rw (found, cancel)
        (book-answer id owner _ _ working
          ∙ book-dropped id job.status job.kind
              (record s { jobs = Map.modify id (request_cancel limits) s.jobs }) working)

  pub owned-get :
      (id owner : Text) (s : JobsState) (job : StoredJob)
      → owned id owner s ≡ some job
      → Map.get id s.jobs ≡ some job
  owned-get id owner s job h = ground arith

  cancel-Moves :
      (id owner : Text) (s : JobsState) (working : List Text)
      → Moves limits (book s working) (book (cancel limits id owner s).1 working)
  unfolding cancel
  cancel-Moves id owner s working = elim (Option-cases (owned id owner s)) [
    | inl missing ↦ rw (missing, cancel) (stay _)
    | inr (job, found) ↦
        subst (λ b. Moves limits (book s working) b)
          (sym (book-cancel id owner job s working found))
          (move _ _ _ (cancels id job _ (owned-get id owner s job found)) (stay _))
  ]

  subscribe-Moves :
      (id owner : Text) (after : Option ℕ) (s : JobsState) (working : List Text)
      → Moves limits (book s working) (book (subscribe limits id owner after s).1 working)
  unfolding subscribe
  subscribe-Moves id owner after s working =
      elim (Result-cases (subscription limits id owner after s)) [
        | inl (e, refusal) ↦ rw (refusal, subscribe) (stay _)
        | inr ((made, owner_count), accepted) ↦ rw (accepted, subscribe) (stay _)
      ]

  pub Step-Moves :
      {s s' : System}
      → Step limits s s'
      → Listed (book_of s)
      → Moves limits (book_of s) (book_of s')
  unfolding observe record_cancelled set_progress snapshot reap_workers job_inputs shutdown collect
      drop_lease
  Step-Moves (admits source threads random spawned owner source_id s) listed =
      admit-Moves limits source threads random spawned owner source_id s.state s.working listed
  Step-Moves (admits_plan source threads random spawned server owner source_id server_id s) listed =
      admit_plan-Moves limits source threads random spawned server owner source_id server_id s.state
        s.working listed
  Step-Moves (admits_dry_run source threads random spawned server load owner reference s) listed =
      admit_dry_run-Moves limits source threads random spawned server load owner reference s.state
        s.working listed
  Step-Moves (admits_apply source threads random spawned capability s) listed =
      admit_apply-Moves limits source threads random spawned capability s.state s.working listed
  Step-Moves (begins id s) listed = begin-Moves id s.state s.working
  Step-Moves (takes_inputs id s working) listed = elim (Option-cases (Map.get id s.state.jobs)) [
    | inl missing ↦ rw (missing, job_inputs) (stay _)
    | inr (job, e) ↦ rw (e, job_inputs) (stay _)
  ]
  Step-Moves (Step.observes id progress s working) listed =
      move _ _ _ (Move.observes id progress _ working) (stay _)
  Step-Moves (finishes now history id outcome s working) listed =
      finish-Moves now history id outcome s.state s.working working
  Step-Moves (Step.cancels id owner s) listed = cancel-Moves id owner s.state s.working
  Step-Moves (records true s some_left) listed = stay _
  Step-Moves (records false s some_left) listed = stay _
  Step-Moves (shuts_down joined s) listed = move _ _ _ (stops _) (stay _)
  Step-Moves (shows threads id owner s) listed =
      elim (Option-cases (owned id owner (reap_workers threads s.state))) [
        | inl missing ↦ rw (missing, snapshot) (stay _)
        | inr (job, e) ↦ rw (e, snapshot) (stay _)
      ]
  Step-Moves (measures threads s) listed = stay _
  Step-Moves (subscribes id owner after s) listed = subscribe-Moves id owner after s.state s.working
  Step-Moves (leaves owner s) listed = stay _
