-- ===== src/Web/Jobs/Progress.antt =====
-- jobs/worker.rs `begin`: which thread's turn it is.
use immich_rs.Web.Jobs.Wake.Signals.{Reachable-Awake}
use immich_rs.Web.Limits.Valid.{validate-jobs}
use immich_rs.Web.Jobs.Sound.Kept.{Reachable-Sound}
use immich_rs.Web.Jobs.Book.{book}
use immich_rs.Web.Jobs.Steps.{Reachable, System}
use immich_rs.Common.Map.{Map}
use immich_rs.Web.Jobs.{JobsState}
use immich_rs.Web.Jobs.Worker.{started, is_queued_in, begin, next_queued}
use mathlib.Core.Path.{subst}
use immich_rs.Common.{
  ok, text_eq_iff, text_eq_refl, ltb, ◌&&◌, is_some_and, ◌||◌, not, text_eq, inl, inr, Option-cases,
  arith, Bool-cases, false, ◌≤◌, true, none, some, All, ℕ, contains, List, Bool, Text, ◌≡◌, ◌∷◌, [],
  refl,
}
use immich_rs.Common.Map.Counts.{Every-All, count}
use immich_rs.Web.Limits.{validate, WebLimits}
use immich_rs.Web.Jobs.Types.{is_queued, StoredJob}
use immich_rs.Web.Jobs.Sound.{Sound}

next_queued_sound :
    (jobs : Map StoredJob) (order : List Text) (id : Text)
    → next_queued jobs order ≡ some id
    → is_queued_in jobs id ≡ true
unfolding next_queued
next_queued_sound jobs [] id h = cc
next_queued_sound jobs (x ∷ rest) id h = elim (Bool-cases (is_queued_in jobs x)) [
  | inl waits ↦
      let here : x ≡ id = ground arith in subst (λ t. is_queued_in jobs t ≡ true) here waits
  | inr other ↦ next_queued_sound jobs rest id (ground arith)
]

next_queued-none :
    (jobs : Map StoredJob) (order : List Text)
    → next_queued jobs order ≡ none
    → (k : Text) → contains k order ≡ true
    → is_queued_in jobs k ≡ false
unfolding next_queued contains
next_queued-none jobs [] h k there = cc
next_queued-none jobs (x ∷ rest) h k there = elim (Bool-cases (is_queued_in jobs x)) [
  | inl waits ↦ ground arith
  | inr other ↦ elim (Bool-cases (text_eq x k)) [
    | inl same ↦ subst (λ t. is_queued_in jobs t ≡ false) ((text_eq_iff x k).0 same) other
    | inr differs ↦ next_queued-none jobs rest (ground arith) k (ground arith)
  ]
]

none_waits :
    (p : StoredJob → Bool) (jobs : Map StoredJob)
    → All (λ (e : Text × StoredJob). p e.1 ≡ false) jobs
    → count p jobs ≡ 0
none_waits p [] h = refl
none_waits p ((i, job) ∷ jobs) h = ground (arith, h.0, none_waits p jobs h.1)

module _ (limits : WebLimits) where
  -- A waiting job has a first one in the order.
  first_waits :
      (s : JobsState) (working : List Text)
      → Sound limits (book s working)
      → 1 ≤ s.queued
      → (id : Text) × (next_queued s.jobs s.order ≡ some id)
  first_waits s working sound some_queued = elim (Option-cases (next_queued s.jobs s.order)) [
    | inr first ↦ first
    | inl nothing ↦
        let idle =
          Every-All (λ _ (job : StoredJob). is_queued job.status ≡ false) s.jobs
            sound.ledger.ordered
            (λ k job found.
              let there : contains k s.order ≡ true = ground (arith, sound.listed.same k, found) in
              ground (arith, next_queued-none s.jobs s.order nothing k there, found)) in
        absurd (
          omega (
            arith,
            none_waits (λ (j : StoredJob). is_queued j.status) s.jobs idle,
            sound.ledger.counts_queued,
            some_queued,
          ))
  ]

  -- Under limits that `validate` accepts, in every state that calls lead to, if a job waits and none runs
  -- and the manager is not shutting down, then there is a first waiting job; its thread does not wait for
  -- the signal of `worker_available`, and starts the job when it takes its turn; and the turn of no other
  -- thread starts a job.
  pub progress_lem :
      {n : ℕ} {s : System}
      → validate limits ≡ ok limits
      → Reachable limits n s
      → s.state.shutting_down ≡ false
      → s.state.running ≡ 0
      → 1 ≤ s.state.queued
      → (id : Text) × (contains id s.asleep ≡ false)
        × ((begin limits id s.state).0 ≡ started)
        × ((other : Text) → (begin limits other s.state).0 ≡ started → other ≡ id)
  unfolding begin
  progress_lem {s = s} valid reached lives idle some_queued =
      let (_, one, _, _, _) = validate-jobs limits valid in
      let (id, first) =
        first_waits s.state s.working (Reachable-Sound limits reached) some_queued in
      let waits = next_queued_sound s.state.jobs s.state.order id first in
      let stays : (not (is_queued_in s.state.jobs id) || s.state.shutting_down) ≡ false =
        ground (arith, waits, lives) in
      let turn : (is_some_and (next_queued s.state.jobs s.state.order) (λ next. text_eq next id)
            && ltb s.state.running limits.concurrent_jobs)
          ≡ true =
        ground (arith, first, text_eq_refl id, idle, one) in
      let awake = Reachable-Awake limits reached one in
      (
        id,
        ground (arith, awake.first id first, idle),
        rw (stays, turn, begin) refl,
        λ other starts. ground (arith, starts, first, text_eq_iff id other),
      )
