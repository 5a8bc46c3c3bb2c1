-- ===== src/Web/Jobs/Wake/Signals.antt =====
-- jobs/worker.rs and jobs.rs, `worker_available`: the threads that wait for it, and the signals.
use immich_rs.Web.Jobs.Steps.{
  records, leaves, subscribes, measures, shows, shuts_down, cancels, finishes, observes,
  takes_inputs, begins, admits_apply, admits_dry_run, admits_plan, admits,
}
use immich_rs.Common.Map.{Map}
use immich_rs.Web.Jobs.Wake.Admitted.{
  admit_apply-Extends, admit_dry_run-Extends, admit_plan-Extends, admit-Extends,
}
use immich_rs.Web.Jobs.Book.{cancels, observes, Book, book_of}
use immich_rs.Web.Jobs.Listed.{Listed}
use immich_rs.Web.Jobs.Status.{request_cancel-queued}
use immich_rs.Web.Jobs.Refines.Whole.{owned-get, book-cancel}
use immich_rs.Web.Jobs.Subscription.{subscription, subscribe, drop_lease}
use immich_rs.Web.Jobs.Control.{
  record_cancelled, request_cancel, collect, owned, snapshot, observe, cancel,
}
use immich_rs.Web.Jobs.Sound.Kept.{Reachable-Sound, contains-others}
use immich_rs.Common.Map.Every.{get-modify}
use immich_rs.Web.Jobs.Wake.{Extends-refl, Extends-same, Extends}
use immich_rs.Web.Jobs.Worker.{job_inputs, set_running, next_queued, is_queued_in, start, begin}
use immich_rs.Web.Jobs.{reap_workers, JobsState}
use immich_rs.Web.Limits.{WebLimits}
use immich_rs.Web.Jobs.Types.{push_event, is_queued, StoredJob}
use immich_rs.Common.Map
use mathlib.Core.Path.{subst}
use immich_rs.Web.Jobs.Steps.{
  Step, cancel_notifies, after, initial, Reachable, asleep_after, joined_by, System,
}
use immich_rs.Common.{
  Result-cases, ap, Bool, ℕ, false, ltb, ◌&&◌, is_some_and, text_eq_iff, sym, ◌||◌, text_eq, inr,
  not, Bool-cases, inl, Option-cases, arith, ◌≤◌, true, List, some, contains, Text, ◌≡◌, [], refl,
}

-- The threads that wait for the signal are those of waiting jobs, and if the first waiting job's thread is
-- one of them, some job runs.
pub record Awake (s : System) : Type 0 where
  pub waits : (k : Text) → contains k s.asleep ≡ true → is_queued_in s.state.jobs k ≡ true
  pub first :
      (k : Text)
      → next_queued s.state.jobs s.state.order ≡ some k
      → contains k s.asleep ≡ true
      → 1 ≤ s.state.running

-- Nobody waits for the signal.
none_waits-Awake : (s : System) → s.asleep ≡ [] → Awake s
unfolding contains
none_waits-Awake s h = record {
  waits = λ k there. cc (rw h at there);
  first = λ k e there. cc (rw h at there);
}

Extends-Awake :
    (s : System) (t : JobsState) (working : List Text) (unrecorded : ℕ)
    → Extends s.state t
    → Awake s
    → Awake (record { state = t; working = working; asleep = s.asleep; unrecorded = unrecorded })
Extends-Awake s t working unrecorded more h = record {
  waits = λ k there. more.still k (h.waits k there);
  first = λ k e there.
      let before = h.first k (more.first k e (h.waits k there)) there in
      omega (arith, before, more.runs);
}

-- A change of one job that keeps it waiting or not.
modify-Extends :
    (id : Text) (f : StoredJob → StoredJob) (s : JobsState)
    → ((job : StoredJob)
        → Map.get id s.jobs ≡ some job
        → is_queued (StoredJob.status (f job)) ≡ is_queued job.status)
    → Extends s (record s { jobs = Map.modify id f s.jobs })
modify-Extends id f s h =
    Extends-same s (record s { jobs = Map.modify id f s.jobs })
      (λ j. elim (Option-cases (Map.get j s.jobs)) [
        | inl missing ↦ ground (arith, get-modify j id f s.jobs, missing)
        | inr (job, there) ↦ elim (Bool-cases (text_eq id j)) [
          | inl same ↦ ground (
            arith,
            get-modify j id f s.jobs,
            there,
            h job
                (subst (λ t. Map.get t s.jobs ≡ some job) (sym ((text_eq_iff id j).0 same)) there),
            same,
          )
          | inr other ↦ ground (arith, get-modify j id f s.jobs, there, other)
        ]
      ])
      refl refl

module _ (limits : WebLimits) where
  begins-Awake :
      (id : Text) (s : System)
      → 1 ≤ limits.concurrent_jobs
      → Awake s
      → Awake (record {
        state = (begin limits id s.state).1;
        working = joined_by id (begin limits id s.state).0 s.working;
        asleep = asleep_after id (begin limits id s.state).0 s.asleep;
        unrecorded = s.unrecorded;
      })
  unfolding begin start contains
  begins-Awake id s one h =
      elim (Bool-cases (not (is_queued_in s.state.jobs id) || s.state.shutting_down)) [
        | inl refusal ↦
            rw (refusal, begin)
              (record {
                waits = λ k there. h.waits k (contains-others k id s.asleep there).0;
                first = λ k e there. h.first k e (contains-others k id s.asleep there).0;
              })
        | inr queues ↦
            elim (Bool-cases (
              is_some_and (next_queued s.state.jobs s.state.order) (λ next. text_eq next id)
              && ltb s.state.running limits.concurrent_jobs)) [
                | inl turn ↦
                    rw (queues, turn, begin)
                      (record {
                        waits = λ k there.
                            let (was, other) = contains-others k id s.asleep there in
                            ground (
                              arith,
                              h.waits k was,
                              other,
                              get-modify k id (set_running limits) s.state.jobs,
                            );
                        first = λ k e there. ground arith;
                      })
                | inr early ↦
                    rw (queues, early, begin)
                      (record {
                        waits = λ k there. elim (Bool-cases (text_eq id k)) [
                          | inl same ↦
                              let own : is_queued_in s.state.jobs id ≡ true =
                                ground (arith, queues) in
                              subst (λ t. is_queued_in s.state.jobs t ≡ true)
                                ((text_eq_iff id k).0 same) own
                          | inr other ↦
                              h.waits k
                                (contains-others k id s.asleep (ground (arith, there, other))).0
                        ];
                        first = λ k e there. elim (Bool-cases (text_eq id k)) [
                          | inl same ↦
                              let next : is_some_and (next_queued s.state.jobs s.state.order)
                                    (λ next. text_eq next id)
                                  ≡ true =
                                ground (arith, e, text_eq_iff k id, text_eq_iff id k, same) in
                              let busy : ltb s.state.running limits.concurrent_jobs ≡ false =
                                ground (arith, early, next) in
                              ground (arith, busy, one)
                          | inr other ↦
                              h.first k e
                                (contains-others k id s.asleep (ground (arith, there, other))).0
                        ];
                      })
              ]
      ]

  quiet_cancel :
      (id owner : Text) (s : JobsState) (working : List Text)
      → cancel_notifies id owner s ≡ false
      → Extends s (cancel limits id owner s).1
  unfolding cancel
  quiet_cancel id owner s working quiet = elim (Option-cases (owned id owner s)) [
    | inl missing ↦ rw (missing, cancel) (Extends-refl s)
    | inr (job, found) ↦
        let after = (cancel limits id owner s).1 in
        let kept = book-cancel limits id owner job s working found in
        let there = owned-get limits id owner s job found in
        let same : Extends s (record s { jobs = Map.modify id (request_cancel limits) s.jobs }) =
          modify-Extends id (request_cancel limits) s (λ own here.
            let equal : own ≡ job = ground (arith, here, there) in
            ground (arith, request_cancel-queued limits own, quiet, found, equal)) in
        let jobs : Map.modify id (request_cancel limits) s.jobs ≡ after.jobs =
          sym (ap (λ (b : Book). b.jobs) kept) in
        let order : s.order ≡ after.order = sym (ap (λ (b : Book). b.order) kept) in
        let running : after.running ≡ s.running = ap (λ (b : Book). b.running) kept in
        record {
          still = λ k waits.
              subst (λ (m : Map StoredJob). is_queued_in m k ≡ true) jobs (same.still k waits);
          first = λ k e waits.
              same.first k
                (subst
                  (λ (o : List Text).
                    next_queued (Map.modify id (request_cancel limits) s.jobs) o ≡ some k)
                  (sym order)
                  (subst (λ (m : Map StoredJob). next_queued m after.order ≡ some k) (sym jobs) e))
                waits;
          runs = omega (arith, running);
        }
  ]

  recorded_quietly : (recorded : Bool) (s : JobsState) → Extends s (record_cancelled recorded s)
  unfolding record_cancelled
  recorded_quietly true s = Extends-refl s
  recorded_quietly false s = Extends-same s _ (λ j. refl) refl refl

  Step-Awake :
      {s s' : System}
      → Step limits s s'
      → 1 ≤ limits.concurrent_jobs
      → Listed (book_of s)
      → Awake s
      → Awake s'
  unfolding observe snapshot reap_workers job_inputs collect drop_lease subscribe push_event
  Step-Awake (admits source threads random spawned owner source_id s) one listed h =
      Extends-Awake s _ s.working _
        (admit-Extends limits source threads random spawned owner source_id s.state s.working
          listed)
        h
  Step-Awake (admits_plan source threads random spawned server owner source_id server_id s) one
        listed h =
      Extends-Awake s _ s.working _
        (admit_plan-Extends limits source threads random spawned server owner source_id server_id
          s.state s.working listed)
        h
  Step-Awake (admits_dry_run source threads random spawned server load owner reference s) one listed
        h =
      Extends-Awake s _ s.working _
        (admit_dry_run-Extends limits source threads random spawned server load owner reference
          s.state s.working listed)
        h
  Step-Awake (admits_apply source threads random spawned capability s) one listed h =
      Extends-Awake s _ s.working _
        (admit_apply-Extends limits source threads random spawned capability s.state s.working
          listed)
        h
  Step-Awake (begins id s) one listed h = begins-Awake id s one h
  Step-Awake (takes_inputs id s working) one listed h =
      elim (Option-cases (Map.get id s.state.jobs)) [
        | inl missing ↦ rw (missing, job_inputs) h
        | inr (job, e) ↦
            rw (e, job_inputs)
              (Extends-Awake s _ s.working _ (Extends-same s.state _ (λ j. refl) refl refl) h)
      ]
  Step-Awake (observes id progress s working) one listed h =
      Extends-Awake s _ s.working _ (modify-Extends id _ s.state (λ job there. refl)) h
  Step-Awake (finishes now history id outcome s working) one listed h = none_waits-Awake _ refl
  Step-Awake (cancels id owner s) one listed h =
      elim (Bool-cases (cancel_notifies id owner s.state)) [
        | inl loud ↦ none_waits-Awake _ (rw loud refl)
        | inr quiet ↦
            rw quiet
              (Extends-Awake s _ s.working _ (quiet_cancel id owner s.state s.working quiet) h)
      ]
  Step-Awake (records recorded s some_left) one listed h =
      Extends-Awake s _ s.working _ (recorded_quietly recorded s.state) h
  Step-Awake (shuts_down joined s) one listed h = none_waits-Awake _ refl
  Step-Awake (shows threads id owner s) one listed h =
      let reaped = Extends-same s.state (reap_workers threads s.state) (λ j. refl) refl refl in
      elim (Option-cases (owned id owner (reap_workers threads s.state))) [
        | inl missing ↦ rw (missing, snapshot) (Extends-Awake s _ s.working _ reaped h)
        | inr (job, e) ↦ rw (e, snapshot) (Extends-Awake s _ s.working _ reaped h)
      ]
  Step-Awake (measures threads s) one listed h =
      Extends-Awake s _ s.working _ (Extends-same s.state _ (λ j. refl) refl refl) h
  Step-Awake (subscribes id owner cursor s) one listed h =
      elim (Result-cases (subscription limits id owner cursor s.state)) [
        | inl (e, refusal) ↦ rw (refusal, subscribe) h
        | inr ((made, owner_count), accepted) ↦
            rw (accepted, subscribe)
              (Extends-Awake s _ s.working _ (Extends-same s.state _ (λ j. refl) refl refl) h)
      ]
  Step-Awake (leaves owner s) one listed h =
      Extends-Awake s _ s.working _ (Extends-same s.state _ (λ j. refl) refl refl) h

  pub Reachable-Awake :
      {n : ℕ} {s : System} → Reachable limits n s → 1 ≤ limits.concurrent_jobs → Awake s
  Reachable-Awake Reachable.start one = none_waits-Awake initial refl
  Reachable-Awake (after n s s' before step) one =
      Step-Awake step one (Reachable-Sound limits before).listed (Reachable-Awake before one)
