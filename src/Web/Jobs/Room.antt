-- ===== src/Web/Jobs/Room.antt =====
-- jobs.rs `evict_terminal` and `admit_kind`: the room that a new job finds.
use immich_rs.Web.Jobs.Refines.{tidy-Moves}
use immich_rs.Web.Jobs.Sound.Kept.{Reachable-Sound, Moves-Sound}
use immich_rs.Web.Limits.Valid.{validate-jobs}
use immich_rs.Common.Map.Counts.{Every-All}
use immich_rs.Web.Jobs.Book.{book}
use immich_rs.Web.Jobs.Sound.{Sound}
use immich_rs.Web.Jobs.Steps.{Reachable, System}
use immich_rs.Web.Limits.{validate, WebLimits}
use immich_rs.Web.Jobs.Admission.{
  admit_locked, is_full, tidy, admit_kind, SourceProfile, worker_limit, is_closed,
}
use immich_rs.Web.Jobs.Control.{count_status}
use immich_rs.Common.Map.{get-remove, Map}
use immich_rs.Common.{
  ◌∙◌, Option, ◌≤◌, ok, text_eq_iff, zero, inl, inr, leb, bit, Bool-cases, suc, arith, Option-cases,
  ◌+◌, ◌⊎◌, ◌<◌, true, false, length, some, none, ℕ, All, List, contains, Bool, Text, ◌≡◌, ◌∷◌, [],
  refl,
}
use immich_rs.Common.Map
use immich_rs.Web.Jobs.{
  evict_terminal, reap_workers, Thread, is_terminal_in, JobsState, evict_rounds, take_first,
}
use immich_rs.Web.Jobs.Types.{
  JobKind, JobStatus, is_queued, is_running, terminal, StoredJob, queued, running,
}

take_first-length :
    (p : Text → Bool) (xs : List Text) (id : Text) (kept : List Text)
    → take_first p xs ≡ some (id, kept)
    → length kept < length xs
unfolding take_first
take_first-length p [] id kept h = cc
take_first-length p (x ∷ xs) id kept h =
    by_rest (λ id kept e. take_first-length p xs id kept e) (Option-cases (take_first p xs))
  where
    by_rest :
        ((id : Text) (kept : List Text)
          → take_first p xs ≡ some (id, kept)
          → length kept < length xs)
        → (take_first p xs ≡ none) ⊎ ((r : Text × List Text) × (take_first p xs ≡ some r))
        → length kept < length (x ∷ xs)
    by_rest ih (inl nothing) = ground arith
    by_rest ih (inr ((found, rest), e)) = ground (arith, ih found rest e)

take_first-none :
    (p : Text → Bool) (xs : List Text)
    → take_first p xs ≡ none
    → (k : Text) → contains k xs ≡ true
    → p k ≡ false
unfolding take_first contains
take_first-none p [] h k there = cc
take_first-none p (x ∷ xs) h k there = elim (Bool-cases (p x)) [
  | inl hit ↦ ground arith
  | inr miss ↦ elim (Option-cases (take_first p xs)) [
    | inl nothing ↦ ground (arith, take_first-none p xs nothing k, text_eq_iff x k)
    | inr (r, e) ↦ ground arith
  ]
]

-- Evicting ends with room, or with no ended job.
evict_rounds_lem :
    (retained rounds : ℕ) (s : JobsState)
    → length s.order < rounds
    → (length (evict_rounds retained rounds s).jobs < retained)
      ⊎ (take_first
            (is_terminal_in (evict_rounds retained rounds s).jobs)
            (evict_rounds retained rounds s).order
          ≡ none)
unfolding evict_rounds
evict_rounds_lem retained zero s enough = omega arith
evict_rounds_lem retained (suc rounds) s enough = elim (Bool-cases (leb retained (length s.jobs))) [
  | inr fits ↦ rw fits (inl (ground arith))
  | inl over ↦ elim (Option-cases (take_first (is_terminal_in s.jobs) s.order)) [
    | inl nothing ↦ rw (over, nothing) (inr nothing)
    | inr ((id, order), e) ↦
        rw (over, e)
          (evict_rounds_lem retained rounds
            (record s { jobs = Map.remove id s.jobs; order = order })
            (omega (arith, take_first-length (is_terminal_in s.jobs) s.order id order e)))
  ]
]

-- Jobs none of which has ended are queued or running.
live_count :
    (jobs : Map StoredJob)
    → All (λ (e : Text × StoredJob). terminal (StoredJob.status e.1) ≡ false) jobs
    → length jobs ≡ count_status is_running jobs + count_status is_queued jobs
live_count [] h = omega arith
live_count ((i, job) ∷ jobs) h = ground (arith, live_status job.status h.0, live_count jobs h.1)
  where
    live_status :
        (status : JobStatus)
        → terminal status ≡ false
        → bit (is_running status) + bit (is_queued status) ≡ 1
    live_status queued e = refl
    live_status running e = refl
    live_status JobStatus.completed e = cc
    live_status JobStatus.failed e = cc
    live_status JobStatus.cancelled e = cc

-- What eviction leaves as it is.
unfoldable pub Evicts : JobsState → JobsState → Type 0
Evicts s t =
    (t.running ≡ s.running)
    × (t.queued ≡ s.queued)
    × (t.handles ≡ s.handles)
    × (is_closed t ≡ is_closed s)
    × ((id : Text) → Map.get id s.jobs ≡ none → Map.get id t.jobs ≡ none)

pub evict_rounds-Evicts :
    (retained rounds : ℕ) (s : JobsState) → Evicts s (evict_rounds retained rounds s)
unfolding evict_rounds Evicts
evict_rounds-Evicts retained zero s = (refl, refl, refl, refl, λ id h. h)
evict_rounds-Evicts retained (suc rounds) s = elim (Bool-cases (leb retained (length s.jobs))) [
  | inr fits ↦ rw fits (refl, refl, refl, refl, λ id h. h)
  | inl over ↦ elim (Option-cases (take_first (is_terminal_in s.jobs) s.order)) [
    | inl nothing ↦ rw (over, nothing) (refl, refl, refl, refl, λ id h. h)
    | inr ((id, order), e) ↦
        let (busy, waits, threads, open_now, absent) =
          evict_rounds-Evicts retained rounds
            (record s { jobs = Map.remove id s.jobs; order = order }) in
        rw (over, e)
          (
            busy,
            waits,
            threads,
            open_now,
            λ k h. absent k (ground (arith, get-remove k id s.jobs, h)),
          )
  ]
]

module _ (limits : WebLimits) where
  -- In a sound state that is tidy, jobs are kept below the limit unless all are under way.
  room_lem :
      (s : JobsState) (working : List Text)
      → Sound limits (book s working)
      → worker_limit limits ≤ limits.retained_jobs
      → s.running + s.queued < worker_limit limits
      → (length s.jobs < limits.retained_jobs) ⊎ (take_first (is_terminal_in s.jobs) s.order ≡ none)
      → length s.jobs < limits.retained_jobs
  room_lem s working sound enough free (inl room) = room
  room_lem s working sound enough free (inr nothing) =
      let lives =
        Every-All (λ _ (job : StoredJob). terminal job.status ≡ false) s.jobs sound.ledger.ordered
          (λ k job found.
            let there : contains k s.order ≡ true = ground (arith, sound.listed.same k, found) in
            ground
              (arith, take_first-none (is_terminal_in s.jobs) s.order nothing k there, found)) in
      omega (
        arith,
        live_count s.jobs lives,
        sound.ledger.counts_running,
        sound.ledger.counts_queued,
        enough,
        free,
      )

  -- If a source is configured, the manager is neither shutting down nor failed, fewer than
  -- `concurrent_jobs` plus `queued_jobs` jobs are queued or running and as many threads not yet joined,
  -- the random identifier is new and its thread starts, then the job is admitted in every state that
  -- calls lead to: ended jobs that are still kept do not count. The limits are those that `validate`
  -- accepts.
  pub admission_lem :
      {n : ℕ} {s : System}
      → validate limits ≡ ok limits
      → Reachable limits n s
      → (source : Text → Option SourceProfile) → (threads : Text → Thread)
      → (id owner source_id : Text) → (profile : SourceProfile) → (kind : JobKind)
      → source source_id ≡ some profile
      → is_closed (reap_workers threads s.state) ≡ false
      → s.state.running + s.state.queued < limits.concurrent_jobs + limits.queued_jobs
      → length (reap_workers threads s.state).handles < limits.concurrent_jobs + limits.queued_jobs
      → Map.get id s.state.jobs ≡ none
      → (admit_kind limits source threads (some id) true owner source_id kind s.state).0 ≡ ok id
  unfolding admit_kind admit_locked reap_workers evict_terminal Evicts
  admission_lem {s = s} valid reached source threads id owner source_id profile kind known opens
        free handles absent =
      let (enough, one, few, small, _) = validate-jobs limits valid in
      let reaped = reap_workers threads s.state in
      let t = tidy limits threads s.state in
      let rounds = suc (length reaped.order) in
      let (busy, waits, joined, opened, new) =
        evict_rounds-Evicts limits.retained_jobs rounds reaped in
      let sound =
        Moves-Sound limits (tidy-Moves limits threads s.state s.working)
          (Reachable-Sound limits reached) in
      let free_now : t.running + t.queued < worker_limit limits =
        ground (arith, busy, waits, free, few, small) in
      let space : length t.jobs < limits.retained_jobs =
        room_lem t s.working sound enough free_now
          (evict_rounds_lem limits.retained_jobs rounds reaped (omega arith)) in
      let closed : is_closed t ≡ false = opened ∙ opens in
      let vacant : is_full limits id t ≡ false =
        ground (arith, new id absent, free_now, joined, handles, few, small, space) in
      rw (known, admit_kind) (rw (closed, vacant, admit_locked) refl)
