-- ===== src/Web/Jobs.antt =====
-- crates/immich-web/src/jobs.rs: the state behind the mutex of the job manager, and what every call does
-- first: join the threads that have ended, and drop the oldest ended jobs. The mutex is never poisoned
-- here: no call panics while it holds it.
pub mod Types
pub mod Admission
pub mod Control
pub mod Worker
pub mod Ledger
pub mod Subscription
pub mod Steps
pub mod Book
pub mod Listed
pub mod Refines
pub mod Status
pub mod Sound
pub mod Exclusive
pub mod Room
pub mod Closed
pub mod Log
pub mod Progress
pub mod Reap
pub mod Wake
mod Examples
use immich_rs.Common.{
  zero, leb, ◌||◌, some, if◌then◌else◌, none, ◌∷◌, Option, is_some_and, suc, true, false, [],
  length, Bool, List, ℕ, Text,
}
use immich_rs.Common.Map
use immich_rs.Common.Map.{Map}
use immich_rs.Web.Jobs.Types.{terminal, StoredJob}
use immich_rs.Web.Grants.{ApplyCapability}

-- `handles` holds for each thread the job that it runs; `BTreeSet<ArtifactRef>` is a map to units.
pub record JobsState : Type 0 where
  pub jobs : Map StoredJob
  pub order : List Text
  pub handles : List Text
  pub running : ℕ
  pub queued : ℕ
  pub shutting_down : Bool
  pub worker_failed : Bool
  pub subscribers : ℕ
  pub subscribers_by_owner : Map ℕ
  pub apply_capabilities : Map ApplyCapability
  pub active_checkpoints : Map (Unit {0})

-- The state of `JobManager::new`
unfoldable pub new_jobs : JobsState
new_jobs = record {
  jobs = [];
  order = [];
  handles = [];
  running = 0;
  queued = 0;
  shutting_down = false;
  worker_failed = false;
  subscribers = 0;
  subscribers_by_owner = [];
  apply_capabilities = [];
  active_checkpoints = [];
}

-- What a thread does at the moment of a call: it runs, it has returned, or it has panicked.
pub data Thread : Type 0 where
  alive returned crashed : Thread

abbrev pub is_finished : Thread → Bool
is_finished alive = false
is_finished returned = true
is_finished crashed = true

abbrev pub is_crashed : Thread → Bool
is_crashed crashed = true
is_crashed _ = false

-- `handles.swap_remove(position)`, on what stands from the position on, without the removed handle: the
-- last one takes its place.
unfoldable pub move_last : List Text → List Text
move_last [] = []
move_last (x ∷ rest) = elim (move_last rest) [ [] ↦ x ∷ [] | last ∷ kept ↦ last ∷ x ∷ kept ]

-- The loop of `reap_workers` on the handles from the position on. Each round takes a handle away or
-- moves past one, so as many rounds are enough.
unfoldable pub reap_from : (Text → Thread) → ℕ → List Text → Bool → List Text × Bool
reap_from threads zero handles worker_failed = (handles, worker_failed)
reap_from threads (suc rounds) [] worker_failed = ([], worker_failed)
reap_from threads (suc rounds) (id ∷ rest) worker_failed =
    let removed =
      reap_from threads rounds (move_last rest) (worker_failed || is_crashed (threads id)) in
    let passed = reap_from threads rounds rest worker_failed in
    if is_finished (threads id) then removed else (id ∷ passed.0, passed.1)

unfoldable pub reap_workers : (Text → Thread) → JobsState → JobsState
reap_workers threads s =
    let (handles, worker_failed) = reap_from threads (length s.handles) s.handles s.worker_failed in
    record s { handles = handles; worker_failed = worker_failed }

-- `state.jobs.get(id).is_some_and(|job| job.status.terminal())`
abbrev pub is_terminal_in : Map StoredJob → Text → Bool
is_terminal_in jobs id = is_some_and (Map.get id jobs) (λ job. terminal job.status)

-- The first job of the order that passes the test, as `position` finds it, and the order without it.
unfoldable pub take_first : (Text → Bool) → List Text → Option (Text × List Text)
take_first p [] = none
take_first p (id ∷ rest) =
    let later = take_first p rest in
    if p id
    then some (id, rest)
    else elim later [ none ↦ none | some (found, kept) ↦ some (found, id ∷ kept) ]

-- The loop of `evict_terminal`. Each round shortens the order, so as many rounds as it has jobs, and the
-- one that stops, are enough.
unfoldable pub evict_rounds : ℕ → ℕ → JobsState → JobsState
evict_rounds retained zero s = s
evict_rounds retained (suc rounds) s =
    if leb retained (length s.jobs)
    then elim (take_first (is_terminal_in s.jobs) s.order) [
      | none ↦ s
      | some (id, order) ↦
          evict_rounds retained rounds (record s { jobs = Map.remove id s.jobs; order = order })
    ]
    else s

unfoldable pub evict_terminal : ℕ → JobsState → JobsState
evict_terminal retained s = evict_rounds retained (suc (length s.order)) s
