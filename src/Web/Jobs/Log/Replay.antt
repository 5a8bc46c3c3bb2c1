-- ===== src/Web/Jobs/Log/Replay.antt =====
-- jobs/subscription.rs, `select_replay`: the events after a cursor.
use immich_rs.Web.Jobs.Subscription.{invalid_cursor, back, SubscribeError, select_replay}
use immich_rs.Web.Jobs.Sound.Kept.{Reachable-Moves}
use immich_rs.Web.Jobs.Steps.{Reachable, System}
use immich_rs.Web.Jobs.Control.{request_cancel}
use immich_rs.Web.Jobs.{new_jobs}
use immich_rs.Web.Jobs.Worker.{WorkerOutcome, set_running, close_job}
use immich_rs.Common.Map.Every.{Every-update_all, Every-modify, Every-insert, Every-remove, Every}
use mathlib.Core.Path.{subst}
use immich_rs.Common.{
  ◌∙◌, sat_add, ap, ok, err, Result, ltb, length, retain, sym, ◌+◌, List, suc, inr, if◌then◌else◌,
  true, inl, ◌&&◌, some, Option, not, arith, u64_max, Bool-cases, ◌<◌, ◌≤◌, ℕ, Text, ◌≡◌, ◌∷◌, [],
  refl,
}
use immich_rs.Common.Map
use immich_rs.Web.Limits.{WebLimits}
use immich_rs.Web.Jobs.Types.{
  is_queued, running, JobStatus, terminal, push_event, StoredJob, JobEvent,
}
use immich_rs.Web.Jobs.Book.{
  IsNewJob, set_progress, Book, Move, Moves, evicts, enqueues, starts, observes, ends, cancels,
  stops, stay, move,
}
use immich_rs.Web.Jobs.Log.{event_of, last_event, push_event-Log, Log, Consecutive}

-- Before its numbers run out, a job has its log.
abbrev Recorded : ℕ → Text → StoredJob → Type 0
Recorded replay_limit _ job = job.next_event_sequence < u64_max → Log replay_limit job

module _ (limits : WebLimits) (some_room : 1 ≤ limits.sse_replay_events) where
  abbrev replay_limit : ℕ
  replay_limit = limits.sse_replay_events

  pushed :
      (job changed : StoredJob)
      → changed.events ≡ job.events
      → changed.next_event_sequence ≡ job.next_event_sequence
      → (job.next_event_sequence < u64_max → Log replay_limit job)
      → StoredJob.next_event_sequence (push_event replay_limit changed) < u64_max
      → Log replay_limit (push_event replay_limit changed)
  unfolding push_event
  pushed job changed same_events same_next recorded low =
      let log = recorded (ground (arith, low, same_next)) in
      push_event-Log replay_limit changed some_room low log.dropped
        (subst (λ events. Consecutive (suc log.dropped) events) (sym same_events) log.numbered)
        (cc (log.complete, same_events, same_next)) (ground (arith, log.fits, same_events))

  close_job-Recorded :
      (outcome : WorkerOutcome) (receipt : Option Text) (id : Text) (job : StoredJob)
      → Recorded replay_limit id job
      → Recorded replay_limit id (close_job limits outcome receipt job)
  unfolding close_job
  close_job-Recorded (WorkerOutcome.completed kind summary artifact dry_run) receipt id job h =
      pushed job
        (record job {
          status = JobStatus.completed;
          summary = some summary;
          artifact = artifact;
          receipt = receipt;
        })
        refl refl h
  close_job-Recorded (WorkerOutcome.failed kind) receipt id job h =
      pushed job (record job { status = JobStatus.failed }) refl refl h
  close_job-Recorded (WorkerOutcome.cancelled kind) receipt id job h =
      pushed job (record job { status = JobStatus.cancelled }) refl refl h

  request_cancel-Recorded :
      (id : Text) (job : StoredJob)
      → Recorded replay_limit id job
      → Recorded replay_limit id (request_cancel limits job)
  unfolding request_cancel
  request_cancel-Recorded id job h =
      elim (Bool-cases (not (terminal job.status) && not job.cancellation_requested)) [
        | inl acts ↦ rw acts (
            pushed job
              (record job {
                cancellation_requested = true;
                status = if is_queued job.status then JobStatus.cancelled else job.status;
              })
              refl refl h)
        | inr rests ↦ rw rests h
      ]

  first_Log :
      (job : StoredJob)
      → IsNewJob job
      → StoredJob.next_event_sequence (push_event replay_limit job) < u64_max
      → Log replay_limit (push_event replay_limit job)
  first_Log job (_, _, no_events, zeroth) low =
      push_event-Log replay_limit job some_room low 0
        (subst (λ events. Consecutive 1 events) (sym no_events) tt)
        (ground (arith, no_events, zeroth)) (ground (arith, no_events))

  Move-Recorded :
      {b c : Book}
      → Move limits b c
      → Every (Recorded replay_limit) b.jobs
      → Every (Recorded replay_limit) c.jobs
  unfolding set_running set_progress
  Move-Recorded (evicts id order b taken) h = Every-remove (Recorded replay_limit) id b.jobs h
  Move-Recorded (enqueues id job b absent room space is_new free) h =
      Every-insert (Recorded replay_limit) id (push_event replay_limit job) b.jobs
        (first_Log job is_new) h
  Move-Recorded (starts id b waits first room) h =
      Every-modify (Recorded replay_limit) id (set_running limits) b.jobs
        (λ job there log. pushed job (record job { status = running }) refl refl log) h
  Move-Recorded (observes id progress b working) h =
      Every-modify (Recorded replay_limit) id (set_progress limits progress) b.jobs
        (λ job there log. pushed job (record job { progress = progress }) refl refl log) h
  Move-Recorded (ends id outcome receipt b working) h =
      Every-modify (Recorded replay_limit) id (close_job limits outcome receipt) b.jobs
        (λ job there log. close_job-Recorded outcome receipt id job log) h
  Move-Recorded (cancels id job b found) h =
      Every-modify (Recorded replay_limit) id (request_cancel limits) b.jobs
        (λ job there log. request_cancel-Recorded id job log) h
  Move-Recorded (stops b) h =
      Every-update_all (Recorded replay_limit) (request_cancel limits) b.jobs
        (λ id job log. request_cancel-Recorded id job log) h

  Moves-Recorded :
      {b c : Book}
      → Moves limits b c
      → Every (Recorded replay_limit) b.jobs
      → Every (Recorded replay_limit) c.jobs
  Moves-Recorded (stay b) h = h
  Moves-Recorded (move b c d first rest) h = Moves-Recorded rest (Move-Recorded first h)

  -- Every kept job whose event number is below 2^64 - 1 has its log, for replay limits from 1 on.
  pub kept-Log :
      {n : ℕ} {s : System}
      → Reachable limits n s
      → (id : Text) → (job : StoredJob) → Map.get id s.state.jobs ≡ some job
      → job.next_event_sequence < u64_max
      → Log replay_limit job
  unfolding new_jobs Map.get
  kept-Log reached id job there low =
      Moves-Recorded (Reachable-Moves limits reached) (λ k v found. cc) id job there low

-- The events behind a number.
later_all :
    (n after : ℕ) (events : List JobEvent)
    → Consecutive n events
    → after < n
    → retain (λ (e : JobEvent). ltb after e.sequence) events ≡ events
later_all n after [] h before = refl
later_all n after (e ∷ rest) h before =
    ground (arith, h.0, before, later_all (suc n) after rest h.1)

later_Consecutive :
    (dropped after : ℕ) (events : List JobEvent)
    → Consecutive (suc dropped) events
    → dropped ≤ after
    → after ≤ dropped + length events
    → Consecutive (suc after) (retain (λ (e : JobEvent). ltb after e.sequence) events)
      × (after + length (retain (λ (e : JobEvent). ltb after e.sequence) events)
          ≡ dropped + length events)
later_Consecutive dropped after [] h low high = (tt, omega arith)
later_Consecutive dropped after (e ∷ rest) h low high = elim (Bool-cases (ltb after e.sequence)) [
  | inl later ↦
      let exact : dropped ≡ after = ground (arith, later, h.0, low) in
      subst
        (λ (l : List JobEvent).
          Consecutive (suc after) l × (after + length l ≡ dropped + length (e ∷ rest)))
        (sym (later_all (suc dropped) after (e ∷ rest) h (omega (arith, exact))))
        (subst (λ n. Consecutive (suc n) (e ∷ rest)) exact h, omega (arith, exact))
  | inr early ↦
      let (numbered, complete) =
        later_Consecutive (suc dropped) after rest h.1 (ground (arith, early, h.0)) (omega arith) in
      rw early (numbered, omega (arith, complete))
]

back-last :
    (first : JobEvent) (rest : List JobEvent) → last_event (first ∷ rest) ≡ some (back first rest)
back-last first [] = refl
back-last first (later ∷ rest) = back-last later rest

-- What a cursor is answered, for a job with its number of events so far.
abbrev pub Answers : StoredJob → ℕ → Result SubscribeError (List JobEvent) → Type 0
Answers job after (err invalid_cursor) = job.next_event_sequence < after
Answers job after (err SubscribeError.replay_exhausted) =
    after + length job.events < job.next_event_sequence
Answers job after (err _) = ⊥
Answers job after (ok replay) =
    Consecutive (suc after) replay × (after + length replay ≡ job.next_event_sequence)

select_replay-Answers :
    (replay_limit : ℕ) (job : StoredJob) (after : ℕ) (events : List JobEvent)
    → job.events ≡ events
    → job.next_event_sequence < u64_max
    → Log replay_limit job
    → Answers job after (select_replay events (some after))
unfolding select_replay
select_replay-Answers replay_limit job after [] e low log =
    let latest : last_event [] ≡ some (event_of job) =
      subst (λ l. last_event l ≡ some (event_of job)) e log.latest in
    cc
select_replay-Answers replay_limit job after (first ∷ rest) e low log =
    let latest : last_event (first ∷ rest) ≡ some (event_of job) =
      subst (λ l. last_event l ≡ some (event_of job)) e log.latest in
    let ends_with : back first rest ≡ event_of job = cc (latest, back-last first rest) in
    let highest : (back first rest).sequence ≡ job.next_event_sequence =
      ap (λ (x : JobEvent). x.sequence) ends_with in
    let numbered : Consecutive (suc log.dropped) (first ∷ rest) =
      subst (λ l. Consecutive (suc log.dropped) l) e log.numbered in
    let complete : log.dropped + length (first ∷ rest) ≡ job.next_event_sequence =
      subst (λ l. log.dropped + length l ≡ job.next_event_sequence) e log.complete in
    elim (Bool-cases (ltb (back first rest).sequence after)) [
      | inl ahead ↦ rw ahead (ground (arith, highest))
      | inr reached ↦ elim (Bool-cases (ltb (sat_add after 1) first.sequence)) [
        | inl gone ↦ rw (reached, gone, e) (ground (arith, numbered.0, complete, low, highest))
        | inr kept ↦
            let (later, all) =
              later_Consecutive log.dropped after (first ∷ rest) numbered
                (ground (arith, numbered.0, low, highest, reached))
                (ground (arith, complete, highest, reached)) in
            rw (reached, kept) (later, all ∙ complete)
      ]
    ]

-- A subscriber with a cursor is answered in every state that calls lead to, for a job whose event number
-- is below 2^64 - 1 and replay limits from 1 on: exactly the events after the cursor, without a gap up to
-- the last one; or, if the cursor is ahead of the job, that it is invalid; or, if the event after it is no
-- longer kept, that the replay is exhausted.
pub replay_lem :
    (limits : WebLimits)
    → 1 ≤ limits.sse_replay_events
    → {n : ℕ} {s : System} → Reachable limits n s
    → (id : Text) → (job : StoredJob) → Map.get id s.state.jobs ≡ some job
    → job.next_event_sequence < u64_max
    → (after : ℕ) → Answers job after (select_replay job.events (some after))
replay_lem limits some_room reached id job there low after =
    select_replay-Answers limits.sse_replay_events job after job.events refl low
      (kept-Log limits some_room reached id job there low)
