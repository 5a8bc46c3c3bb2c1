-- ===== src/Web/Jobs/Wake.antt =====
-- jobs/worker.rs and jobs.rs, `worker_available`: what the calls that do not signal leave of the queue.
pub mod Admitted
pub mod Signals
use immich_rs.Web.Jobs.Ledger.{ended_elsewhere}
use immich_rs.Web.Jobs.Types.{terminal, push_event, StoredJob}
use immich_rs.Web.Jobs.Admission.{tidy, start_worker, enqueue}
use immich_rs.Web.Jobs.Worker.{is_queued_in, next_queued}
use immich_rs.Web.Jobs.{
  Thread, is_terminal_in, reap_workers, evict_terminal, take_first, evict_rounds, JobsState,
}
use immich_rs.Web.Limits.{WebLimits}
use immich_rs.Common.Map.{get-remove, get-insert, Map}
use immich_rs.Common.Map
use mathlib.Core.Path.{subst}
use immich_rs.Common.{
  zero, Option-cases, inr, text_eq_iff, ap, inl, length, ◌≤◌, is_some_and-some, leb, sym, ◌⊎◌, ◌++◌,
  Bool-cases, some, none, false, true, ◌∙◌, suc, List, Bool, arith, ℕ, Text, ◌≡◌, ◌∷◌, [], refl,
}

-- A call that signals nobody: jobs that wait go on waiting, the first of them is no other than before
-- unless it is new, and no fewer jobs run.
pub record Extends (s t : JobsState) : Type 0 where
  pub still : (k : Text) → is_queued_in s.jobs k ≡ true → is_queued_in t.jobs k ≡ true
  pub first :
      (k : Text)
      → next_queued t.jobs t.order ≡ some k
      → is_queued_in s.jobs k ≡ true
      → next_queued s.jobs s.order ≡ some k
  pub runs : s.running ≤ t.running

pub Extends-refl : (s : JobsState) → Extends s s
Extends-refl s = record { still = λ k h. h; first = λ k h waits. h; runs = omega arith }

pub Extends-trans : (s t u : JobsState) → Extends s t → Extends t u → Extends s u
Extends-trans s t u h k = record {
  still = λ j waits. k.still j (h.still j waits);
  first = λ j e waits. h.first j (k.first j e (h.still j waits)) waits;
  runs = omega (arith, h.runs, k.runs);
}

next_queued-grows :
    (jobs jobs' : Map StoredJob) (order extra : List Text) (k : Text)
    → ((j : Text) → is_queued_in jobs j ≡ true → is_queued_in jobs' j ≡ true)
    → ((j : Text) → next_queued jobs' extra ≡ some j → is_queued_in jobs j ≡ false)
    → next_queued jobs' (order ++ extra) ≡ some k
    → is_queued_in jobs k ≡ true
    → next_queued jobs order ≡ some k
unfolding next_queued
next_queued-grows jobs jobs' [] extra k still new h waits = cc (new k h, waits)
next_queued-grows jobs jobs' (x ∷ rest) extra k still new h waits =
    elim (Bool-cases (is_queued_in jobs' x)) [
      | inl there ↦
          let same : x ≡ k = ground (arith, h, there) in
          let before : is_queued_in jobs x ≡ true =
            subst (λ t. is_queued_in jobs t ≡ true) (sym same) waits in
          rw before (ap (λ (t : Text). some t) same)
      | inr gone ↦
          let before : is_queued_in jobs x ≡ false = ground (arith, still x, gone) in
          let later : next_queued jobs' (rest ++ extra) ≡ some k = ground (arith, h, gone) in
          rw before (next_queued-grows jobs jobs' rest extra k still new later waits)
    ]

next_queued-same :
    (jobs jobs' : Map StoredJob) (order : List Text)
    → ((j : Text) → is_queued_in jobs' j ≡ is_queued_in jobs j)
    → next_queued jobs' order ≡ next_queued jobs order
unfolding next_queued
next_queued-same jobs jobs' [] h = refl
next_queued-same jobs jobs' (x ∷ rest) h = ground (arith, h x, next_queued-same jobs jobs' rest h)

-- Jobs change but keep waiting or not.
pub Extends-same :
    (s t : JobsState)
    → ((j : Text) → is_queued_in t.jobs j ≡ is_queued_in s.jobs j)
    → t.order ≡ s.order
    → t.running ≡ s.running
    → Extends s t
Extends-same s t h order running = record {
  still = λ k waits. h k ∙ waits;
  first = λ k e waits.
      let here : next_queued t.jobs s.order ≡ some k =
        subst (λ o. next_queued t.jobs o ≡ some k) order e in
      sym (next_queued-same s.jobs t.jobs s.order h) ∙ here;
  runs = omega (arith, running);
}

take_first_queue :
    (jobs : Map StoredJob) (p : Text → Bool) (xs : List Text) (id : Text) (kept : List Text)
    → ((x : Text) → p x ≡ true → is_queued_in jobs x ≡ false)
    → take_first p xs ≡ some (id, kept)
    → (p id ≡ true) × (next_queued jobs kept ≡ next_queued jobs xs)
unfolding take_first next_queued
take_first_queue jobs p [] id kept h e = cc
take_first_queue jobs p (x ∷ xs) id kept h e =
    by_test (λ id kept e. take_first_queue jobs p xs id kept h e) (Bool-cases (p x))
      (Option-cases (take_first p xs))
  where
    by_test :
        ((id : Text) (kept : List Text)
          → take_first p xs ≡ some (id, kept)
          → (p id ≡ true) × (next_queued jobs kept ≡ next_queued jobs xs))
        → (p x ≡ true) ⊎ (p x ≡ false)
        → (take_first p xs ≡ none) ⊎ ((r : Text × List Text) × (take_first p xs ≡ some r))
        → (p id ≡ true) × (next_queued jobs kept ≡ next_queued jobs (x ∷ xs))
    by_test ih (inl hit) rest =
        let same : x ≡ id = ground (arith, hit, e) in
        let order : xs ≡ kept = ground (arith, hit, e) in
        (
          subst (λ t. p t ≡ true) same hit,
          subst (λ o. next_queued jobs o ≡ next_queued jobs (x ∷ xs)) order
              (rw (h x hit, next_queued) refl),
        )
    by_test ih (inr miss) (inl nothing) = ground (arith, miss, nothing, e)
    by_test ih (inr miss) (inr ((found, rest), f)) =
        let (ended, agree) = ih found rest f in
        let same : found ≡ id = ground (arith, miss, f, e) in
        let order : x ∷ rest ≡ kept = ground (arith, miss, f, e) in
        (
          subst (λ t. p t ≡ true) same ended,
          subst (λ o. next_queued jobs o ≡ next_queued jobs (x ∷ xs)) order (ground (arith, agree)),
        )

ended_not_queued :
    (jobs : Map StoredJob) (x : Text) → is_terminal_in jobs x ≡ true → is_queued_in jobs x ≡ false
ended_not_queued jobs x h =
    let (job, there, ended) = is_some_and-some (Map.get x jobs) (λ job. terminal job.status) h in
    ground (arith, there, ended_elsewhere job.status ended)

evict_rounds-Extends :
    (retained rounds : ℕ) (s : JobsState) → Extends s (evict_rounds retained rounds s)
unfolding evict_rounds
evict_rounds-Extends retained zero s = Extends-refl s
evict_rounds-Extends retained (suc rounds) s = elim (Bool-cases (leb retained (length s.jobs))) [
  | inr fits ↦ rw fits (Extends-refl s)
  | inl over ↦ elim (Option-cases (take_first (is_terminal_in s.jobs) s.order)) [
    | inl nothing ↦ rw (over, nothing) (Extends-refl s)
    | inr ((id, order), e) ↦
        let next : JobsState = record s { jobs = Map.remove id s.jobs; order = order } in
        let (ended, agree) =
          take_first_queue s.jobs (is_terminal_in s.jobs) s.order id order (ended_not_queued s.jobs)
            e in
        let same : (j : Text) → is_queued_in next.jobs j ≡ is_queued_in s.jobs j = λ j.
          ground
            (arith, get-remove j id s.jobs, text_eq_iff id j, ended_not_queued s.jobs id ended) in
        let one : Extends s next = record {
          still = λ k waits. same k ∙ waits;
          first = λ k f waits. sym agree ∙ sym (next_queued-same s.jobs next.jobs order same) ∙ f;
          runs = omega arith;
        } in
        rw (over, e)
          (Extends-trans s next (evict_rounds retained rounds next) one
            (evict_rounds-Extends retained rounds next))
  ]
]

module _ (limits : WebLimits) where
  pub tidy-Extends : (threads : Text → Thread) (s : JobsState) → Extends s (tidy limits threads s)
  unfolding evict_terminal reap_workers
  tidy-Extends threads s =
      let reaped = reap_workers threads s in
      Extends-trans s reaped (tidy limits threads s) (Extends-same s reaped (λ j. refl) refl refl)
        (evict_rounds-Extends limits.retained_jobs (suc (length s.order)) reaped)

  -- A new job is the last.
  pub enqueue-Extends :
      (id : Text) (job : StoredJob) (s : JobsState)
      → Map.get id s.jobs ≡ none
      → Extends s (start_worker id (enqueue limits id job s))
  unfolding enqueue start_worker next_queued
  enqueue-Extends id job s absent =
      let jobs = Map.insert id (push_event limits.sse_replay_events job) s.jobs in
      let still : (j : Text) → is_queued_in s.jobs j ≡ true → is_queued_in jobs j ≡ true =
        λ j waits. ground (
          arith,
          get-insert j id (push_event limits.sse_replay_events job) s.jobs,
          text_eq_iff id j,
          absent,
          waits,
        ) in
      record {
        still = still;
        first = λ k e waits.
            next_queued-grows s.jobs jobs s.order (id ∷ []) k still
              (λ j f. ground (arith, f, absent)) e waits;
        runs = omega arith;
      }
