-- ===== src/Web/Jobs/Refines.antt =====
-- jobs.rs: admissions, and the tidying before them, as moves of the book.
pub mod Calls
pub mod Whole
use immich_rs.Common.Map.{Map}
use immich_rs.Common.Map.Every.{remove-insert}
use immich_rs.Web.Jobs.Types.{AdmissionError, JobKind, new_job, apply_reference, push_event}
use immich_rs.Web.Jobs.Admission.{
  admit_kind, is_closed, admit_locked, start_worker, SourceProfile, worker_limit, tidy, withdraw,
  enqueue, is_full,
}
use immich_rs.Web.Jobs.Listed.{retain-new, Move-Listed, Listed}
use mathlib.Core.Path.{subst}
use immich_rs.Common.{
  is_some-none, or-false, Result, Bool, ◌-◌, refl, sat_add, arith, some, ◌++◌, text_eq, is_some,
  Option, not, retain, ◌<◌, ◌+◌, none, false, ◌≡◌, ◌∷◌, [], zero, Option-cases, inl, inr, length,
  leb, Bool-cases, suc, List, ℕ, Text,
}
use immich_rs.Common.Map
use immich_rs.Web.Limits.{WebLimits}
use immich_rs.Web.Jobs.{
  Thread, StoredJob, reap_workers, evict_terminal, is_terminal_in, JobsState, evict_rounds,
  take_first,
}
use immich_rs.Web.Jobs.Book.{
  book, enqueues, claim, IsFree, IsNewJob, evicts, move, stay, Moves, Book,
}

module _ (limits : WebLimits) where
  pub append_Moves : {b c d : Book} → Moves limits b c → Moves limits c d → Moves limits b d
  append_Moves (stay b) more = more
  append_Moves (move b c d first rest) more = move b c _ first (append_Moves rest more)

  pub Moves-Listed : {b c : Book} → Moves limits b c → Listed b → Listed c
  Moves-Listed (stay b) h = h
  Moves-Listed (move b c d first rest) h = Moves-Listed rest (Move-Listed limits first h)

  -- Reaping changes nothing of the book, and evicting is a run of evictions.
  evict_rounds-Moves :
      (retained rounds : ℕ) (s : JobsState) (working : List Text)
      → Moves limits (book s working) (book (evict_rounds retained rounds s) working)
  unfolding evict_rounds
  evict_rounds-Moves retained zero s working = stay _
  evict_rounds-Moves retained (suc rounds) s working =
      elim (Bool-cases (leb retained (length s.jobs))) [
        | inr fits ↦ rw fits (stay _)
        | inl over ↦ rw over (elim (Option-cases (take_first (is_terminal_in s.jobs) s.order)) [
          | inl nothing ↦ rw nothing (stay _)
          | inr ((id, order), e) ↦ rw e (
              move _ _ _ (evicts id order _ e) (
                evict_rounds-Moves retained rounds
                  (record s { jobs = Map.remove id s.jobs; order = order }) working))
        ])
      ]

  pub tidy-Moves :
      (threads : Text → Thread) (s : JobsState) (working : List Text)
      → Moves limits (book s working) (book (tidy limits threads s) working)
  unfolding evict_terminal reap_workers
  tidy-Moves threads s working =
      evict_rounds-Moves limits.retained_jobs (suc (length s.order)) (reap_workers threads s)
        working

  -- What a test that is not full says.
  pub not_full :
      (id : Text) (s : JobsState)
      → is_full limits id s ≡ false
      → (Map.get id s.jobs ≡ none)
        × (s.running + s.queued < worker_limit limits)
        × (length s.jobs < limits.retained_jobs)
  not_full id s h = (is_some-none (Map.get id s.jobs) (ground arith), ground arith, ground arith)

  -- A job whose thread does not start leaves the book as it was.
  pub withdraw-Moves :
      (id : Text) (job : StoredJob) (s : JobsState) (working : List Text)
      → Listed (book s working)
      → is_full limits id s ≡ false
      → Moves limits (book s working) (book (withdraw id (enqueue limits id job s)) working)
  unfolding enqueue withdraw
  withdraw-Moves id job s working listed vacant =
      let (absent, room, space) = not_full id s vacant in
      let back : Map.remove id (Map.insert id (push_event limits.sse_replay_events job) s.jobs)
          ≡ s.jobs =
        remove-insert id (push_event limits.sse_replay_events job) s.jobs absent in
      let order : retain (λ candidate. not (text_eq candidate id)) (s.order ++ id ∷ []) ≡ s.order =
        retain-new id s.order (cc (listed.same id, absent)) in
      let queue : sat_add s.queued 1 - 1 ≡ s.queued = ground (arith, room) in
      rw (back, order, queue) (stay _)

  claim-other :
      (kind : JobKind) (active : Map (Unit {0}))
      → apply_reference kind ≡ none
      → claim kind active ≡ active
  claim-other kind active other = rw (other, claim) refl

  IsFree-other :
      (kind : JobKind) (active : Map (Unit {0})) → apply_reference kind ≡ none → IsFree kind active
  IsFree-other kind active other = rw other tt

  -- A job whose thread starts is one more.
  pub enqueue-Moves :
      (id : Text) (job : StoredJob) (s : JobsState) (working : List Text)
      → is_full limits id s ≡ false
      → IsNewJob job
      → IsFree job.kind s.active_checkpoints
      → Moves limits
          (book s working)
          (record (book (start_worker id (enqueue limits id job s)) working) {
            active = claim job.kind s.active_checkpoints;
          })
  unfolding start_worker enqueue
  enqueue-Moves id job s working vacant is_new free =
      let (absent, room, space) = not_full id s vacant in
      move _ _ _ (enqueues id job _ absent room space is_new free) (stay _)

  module _ (source : Text → Option SourceProfile) (threads : Text → Thread) (random : Option Text)
      (spawned : Bool) where
    admit_locked-Moves :
        (id : Text) (job : StoredJob) (s : JobsState) (working : List Text)
        → Listed (book s working)
        → IsNewJob job
        → apply_reference job.kind ≡ none
        → Moves limits
            (book s working)
            (book ((admit_locked limits source threads random spawned id job s).1) working)
    unfolding admit_locked start_worker enqueue
    admit_locked-Moves id job s working listed is_new other = elim (Bool-cases (is_closed s)) [
      | inl shut ↦ rw (shut, admit_locked) (stay _)
      | inr lives ↦ elim (Bool-cases (is_full limits id s)) [
        | inl taken ↦ rw (lives, taken, admit_locked) (stay _)
        | inr vacant ↦ elim (Bool-cases spawned) [
          | inr fails ↦
              rw (lives, vacant, fails, admit_locked)
                (withdraw-Moves id job s working listed vacant)
          | inl begins ↦
              rw (lives, vacant, begins, admit_locked)
                (subst
                  (λ active.
                    Moves limits (book s working)
                      (record (book (start_worker id (enqueue limits id job s)) working) {
                        active = active;
                      }))
                  (claim-other job.kind s.active_checkpoints other)
                  (enqueue-Moves id job s working vacant is_new
                    (IsFree-other job.kind s.active_checkpoints other)))
        ]
      ]
    ]

    -- Before the lock nothing changes; under it the state is tidy first.
    pub after_tidy :
        (next : JobsState → Result AdmissionError Text × JobsState) (s : JobsState)
        (working : List Text)
        → Listed (book s working)
        → ((t : JobsState)
            → Listed (book t working)
            → Moves limits (book t working) (book (next t).1 working))
        → Moves limits (book s working) (book (next (tidy limits threads s)).1 working)
    after_tidy next s working listed rest =
        let tidied = tidy-Moves threads s working in
        append_Moves tidied (rest (tidy limits threads s) (Moves-Listed tidied listed))

    pub admit_kind-Moves :
        (owner source_id : Text) (kind : JobKind) (s : JobsState) (working : List Text)
        → Listed (book s working)
        → apply_reference kind ≡ none
        → Moves limits (book s working) (
            book
              ((admit_kind limits source threads random spawned owner source_id kind s).1)
              working)
    unfolding admit_kind new_job
    admit_kind-Moves owner source_id kind s working listed other =
        elim (Option-cases (source source_id)) [
          | inl unknown ↦ rw (unknown, admit_kind) (stay _)
          | inr (profile, e) ↦ elim (Option-cases random) [
            | inl failing ↦ rw (e, failing, admit_kind) (stay _)
            | inr (id, given) ↦
                rw (e, given, admit_kind)
                  (after_tidy
                    (admit_locked limits source threads random spawned id
                      (new_job id owner source_id profile.label kind))
                    s working listed
                    (λ t tidied.
                      admit_locked-Moves id (new_job id owner source_id profile.label kind) t
                        working tidied (refl, refl, refl, refl) other))
          ]
        ]
