-- ===== src/Web/Jobs/Log.antt =====
-- jobs.rs, `push_event`: the events that a job keeps, and their numbers.
pub mod Replay
use immich_rs.Common.{
  inr, inl, ◌==◌, Bool-cases, length-append, arith, u64_max, none, ◌<◌, some, length, ◌≤◌, suc, ◌+◌,
  ◌++◌, Option, List, ℕ, Text, ◌≡◌, ◌∷◌, [], refl,
}
use immich_rs.Common.Map
use immich_rs.Web.Limits.{WebLimits}
use immich_rs.Web.Jobs.Types.{bounded, push_event, StoredJob, JobEvent}
use immich_rs.Web.Jobs.Book.{
  Book, Move, Moves, evicts, enqueues, starts, observes, ends, cancels, stops, stay, move,
}
use immich_rs.Web.Jobs.Sound.{Sound}

-- The events have the numbers from the given one on.
abbrev pub Consecutive : ℕ → List JobEvent → Type 0
Consecutive n [] = Unit
Consecutive n (e ∷ rest) = (e.sequence ≡ n) × Consecutive (suc n) rest

abbrev pub last_event : List JobEvent → Option JobEvent
last_event [] = none
last_event (e ∷ []) = some e
last_event (e ∷ later ∷ rest) = last_event (later ∷ rest)

-- What an event says of a job.
abbrev pub event_of : StoredJob → JobEvent
event_of job = record {
  sequence = job.next_event_sequence;
  status = job.status;
  cancellation_requested = job.cancellation_requested;
  progress = job.progress;
  summary = job.summary;
}

-- After some dropped events the kept ones follow, within the limit, up to the job as it is.
pub record Log (replay_limit : ℕ) (job : StoredJob) : Type 0 where
  pub dropped : ℕ
  pub numbered : Consecutive (suc dropped) job.events
  pub complete : dropped + length job.events ≡ job.next_event_sequence
  pub fits : length job.events ≤ replay_limit
  pub latest : last_event job.events ≡ some (event_of job)

append-Consecutive :
    (n : ℕ) (events : List JobEvent) (e : JobEvent)
    → Consecutive n events
    → e.sequence ≡ n + length events
    → Consecutive n (events ++ e ∷ [])
append-Consecutive n [] e h last = (omega (arith, last), tt)
append-Consecutive n (x ∷ events) e h last =
    (h.0, append-Consecutive (suc n) events e h.1 (omega (arith, last)))

last_event-append : (events : List JobEvent) (e : JobEvent) → last_event (events ++ e ∷ []) ≡ some e
last_event-append [] e = refl
last_event-append (x ∷ []) e = refl
last_event-append (x ∷ y ∷ events) e = last_event-append (y ∷ events) e

-- What is kept of the events before one more.
record Bounded (replay_limit dropped : ℕ) (events kept : List JobEvent) : Type 0 where
  pub gone : ℕ
  pub numbered : Consecutive (suc gone) kept
  pub complete : gone + length kept ≡ dropped + length events
  pub room : length kept < replay_limit

bounded-Bounded :
    (replay_limit dropped : ℕ) (events : List JobEvent)
    → 1 ≤ replay_limit
    → Consecutive (suc dropped) events
    → length events ≤ replay_limit
    → Bounded replay_limit dropped events (bounded replay_limit events)
bounded-Bounded replay_limit dropped [] some_room h fits = record {
  gone = dropped;
  numbered = tt;
  complete = refl;
  room = some_room;
}
bounded-Bounded replay_limit dropped (e ∷ rest) some_room h fits =
    elim (Bool-cases (length (e ∷ rest) == replay_limit)) [
      | inl is_full ↦ rw is_full (record {
        gone = suc dropped;
        numbered = h.1;
        complete = omega arith;
        room = ground (arith, is_full);
      })
      | inr free ↦ rw free (record {
        gone = dropped;
        numbered = h;
        complete = refl;
        room = ground (arith, free, fits);
      })
    ]

-- One more event, before the numbers run out.
pub push_event-Log :
    (replay_limit : ℕ) (job : StoredJob)
    → 1 ≤ replay_limit
    → StoredJob.next_event_sequence (push_event replay_limit job) < u64_max
    → (dropped : ℕ) → Consecutive (suc dropped) job.events
    → dropped + length job.events ≡ job.next_event_sequence
    → length job.events ≤ replay_limit
    → Log replay_limit (push_event replay_limit job)
unfolding push_event
push_event-Log replay_limit job some_room low dropped numbered complete fits =
    let kept = bounded-Bounded replay_limit dropped job.events some_room numbered fits in
    let all = bounded replay_limit job.events in
    let event : JobEvent = event_of (push_event replay_limit job) in
    record {
      dropped = kept.gone;
      numbered =
          append-Consecutive (suc kept.gone) all event kept.numbered
            (ground (arith, kept.complete, complete, low));
      complete = ground (arith, length-append all (event ∷ []), kept.complete, complete, low);
      fits = ground (arith, length-append all (event ∷ []), kept.room);
      latest = last_event-append all event;
    }
