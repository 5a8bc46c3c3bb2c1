-- ===== src/Web/Jobs/Sound/Kept.antt =====
-- jobs.rs, `running` and `queued`: the counters over all calls.
use immich_rs.Web.Jobs.Status.{request_cancel-running}
use immich_rs.Common.Map.Every.{get-update_all, get-modify}
use immich_rs.Web.Jobs.Refines.{append_Moves}
use immich_rs.Web.Jobs.Refines.Whole.{Step-Moves}
use immich_rs.Web.Jobs.Control.{request_cancel, count_status}
use immich_rs.Web.Jobs.Types.{is_queued, is_running, push_event}
use immich_rs.Web.Jobs.Steps.{after, initial, Reachable, System}
use immich_rs.Web.Jobs.Worker.{is_queued_in, close_job, set_running}
use immich_rs.Common.{
  inr, inl, Bool-cases, text_eq_iff, is_some_and-some, ◌∙◌, length, sat_add, ◌+◌, ◌≤◌, false, true,
  text_eq, arith, not, retain, List, ℕ, contains, Text, ◌≡◌, ◌∷◌, [], refl,
}
use immich_rs.Common.Map
use immich_rs.Web.Limits.{WebLimits}
use immich_rs.Web.Jobs.{new_jobs}
use immich_rs.Web.Jobs.Book.{
  set_progress, book_of, Book, Move, Moves, evicts, enqueues, starts, observes, ends, cancels,
  stops, stay, move,
}
use immich_rs.Web.Jobs.Listed.{Move-Listed}
use immich_rs.Web.Jobs.Sound.{
  is_running_in, stops-Sound, cancels-Sound, ends-Sound, goes_on, observes-Sound, starts-Sound,
  enqueues-Sound, evicts-Sound, Sound,
}

pub contains-others :
    (k id : Text) (xs : List Text)
    → contains k (retain (λ other. not (text_eq other id)) xs) ≡ true
    → (contains k xs ≡ true) × (text_eq id k ≡ false)
unfolding contains
contains-others k id [] h = cc
contains-others k id (x ∷ xs) h =
    ground (arith, contains-others k id xs, text_eq_iff x k, text_eq_iff x id, text_eq_iff id k)

module _ (limits : WebLimits) where
  started_works :
      (id k : Text) (b : Book)
      → is_queued_in b.jobs id ≡ true
      → Sound limits b
      → contains k (id ∷ b.working) ≡ true
      → is_running_in (Map.modify id (set_running limits) b.jobs) k ≡ true
  unfolding set_running push_event contains
  started_works id k b waits h working = elim (Bool-cases (text_eq id k)) [
    | inl same ↦
        let (job, there, _) =
          is_some_and-some (Map.get id b.jobs) (λ job. is_queued job.status) waits in
        ground (arith, get-modify k id (set_running limits) b.jobs, text_eq_iff id k, there)
    | inr other ↦
        goes_on (set_running limits) id b.jobs (λ job runs. refl) k
          (h.works k (ground (arith, working, other)))
  ]

  pub Move-Sound : {b c : Book} → Move limits b c → Sound limits b → Sound limits c
  unfolding set_running set_progress push_event
  Move-Sound (evicts id order b taken) h =
      evicts-Sound limits id order b taken (Move-Listed limits (evicts id order b taken) h.listed) h
  Move-Sound (enqueues id job b absent room space is_new free) h =
      let (ledger, works) = enqueues-Sound limits id job b absent room space is_new h in
      record {
        listed = Move-Listed limits (enqueues id job b absent room space is_new free) h.listed;
        ledger = ledger;
        works = works;
      }
  Move-Sound (starts id b waits first room) h = record {
    listed = Move-Listed limits (starts id b waits first room) h.listed;
    ledger = starts-Sound limits id b waits room h;
    works = λ k working. started_works id k b waits h working;
  }
  Move-Sound (observes id progress b working) h = record {
    listed = Move-Listed limits (observes id progress b working) h.listed;
    ledger = observes-Sound limits id progress b working h;
    works = λ k there.
        goes_on (set_progress limits progress) id b.jobs (λ job runs. runs) k (h.works k there);
  }
  Move-Sound (ends id outcome receipt b working) h = record {
    listed = Move-Listed limits (ends id outcome receipt b working) h.listed;
    ledger = ends-Sound limits id outcome receipt b working h;
    works = λ k there.
        let (was, other) = contains-others k id b.working there in
        ground
          (arith, h.works k was, other, get-modify k id (close_job limits outcome receipt) b.jobs);
  }
  Move-Sound (cancels id job b there) h = record {
    listed = Move-Listed limits (cancels id job b there) h.listed;
    ledger = cancels-Sound limits id job b there h;
    works = λ k working.
        goes_on (request_cancel limits) id b.jobs
          (λ job runs. request_cancel-running limits job ∙ runs) k (h.works k working);
  }
  Move-Sound (stops b) h = record {
    listed = Move-Listed limits (stops b) h.listed;
    ledger = stops-Sound limits b h;
    works = λ k working.
        let (job, there, runs) =
          is_some_and-some (Map.get k b.jobs) (λ job. is_running job.status) (h.works k working) in
        ground (
          arith,
          there,
          runs,
          get-update_all k (request_cancel limits) b.jobs,
          request_cancel-running limits job,
        );
  }

  pub Moves-Sound : {b c : Book} → Moves limits b c → Sound limits b → Sound limits c
  Moves-Sound (stay b) h = h
  Moves-Sound (move b c d first rest) h = Moves-Sound rest (Move-Sound first h)

  initial-Sound : Sound limits (book_of initial)
  unfolding new_jobs Map.get contains
  initial-Sound = record {
    listed = record { once = tt; same = λ k. refl };
    ledger = record {
      ordered = tt;
      counts_running = refl;
      counts_queued = refl;
      untouched = λ k v found. cc;
      concurrent = omega arith;
      admitted = omega arith;
      retained = omega arith;
    };
    works = λ k working. cc;
  }

  pub Reachable-Sound : {n : ℕ} {s : System} → Reachable limits n s → Sound limits (book_of s)
  Reachable-Sound Reachable.start = initial-Sound
  Reachable-Sound (after n s s' before step) =
      let h = Reachable-Sound before in Moves-Sound (Step-Moves limits step h.listed) h

  -- In every state that calls lead to, however they interleave, the counters of running and queued jobs
  -- are the numbers of such jobs, at most `concurrent_jobs` run, at most `concurrent_jobs` plus
  -- `queued_jobs` run or wait (in 64 bits), and at most `retained_jobs` are kept.
  pub counters_lem :
      {n : ℕ} {s : System}
      → Reachable limits n s
      → (count_status is_running s.state.jobs ≡ s.state.running)
        × (count_status is_queued s.state.jobs ≡ s.state.queued)
        × (s.state.running ≤ limits.concurrent_jobs)
        × (s.state.running + s.state.queued ≤ sat_add limits.concurrent_jobs limits.queued_jobs)
        × (length s.state.jobs ≤ limits.retained_jobs)
  counters_lem reached =
      let h = (Reachable-Sound reached).ledger in
      (h.counts_running, h.counts_queued, h.concurrent, h.admitted, h.retained)

  -- Every state that calls lead to is the outcome of a run of the book's moves from the empty book: a
  -- job enters the queue, starts as the first of the queue, reports, ends, is cancelled or evicted, or the
  -- manager stops; no call does anything else to the jobs, their order or the counters.
  pub Reachable-Moves :
      {n : ℕ} {s : System} → Reachable limits n s → Moves limits (book_of initial) (book_of s)
  Reachable-Moves Reachable.start = stay _
  Reachable-Moves (after n s s' before step) =
      append_Moves limits (Reachable-Moves before)
        (Step-Moves limits step (Reachable-Sound before).listed)
