-- ===== src/Web/Jobs/Examples.antt =====
-- A manager that admits an apply job and starts it.
use immich_rs.Web.Jobs.Room.{admission_lem}
use immich_rs.Web.Jobs.Reap.{reap_workers_lem, lives_and}
use immich_rs.Web.Jobs.Subscription.{select_replay}
use immich_rs.Web.Jobs.Log.Replay.{replay_lem, Answers}
use immich_rs.Web.Jobs.Progress.{progress_lem}
use immich_rs.Web.Jobs.Closed.{shutdown_lem, IsShut, onward, at_once}
use immich_rs.Web.Jobs.Exclusive.Single.{single_apply}
use immich_rs.Web.Jobs.Worker.{started, begin}
use immich_rs.Web.Jobs.Sound.Kept.{counters_lem, Reachable-Moves}
use immich_rs.Web.Grants.{ApplyCapability}
use immich_rs.Web.Jobs.{
  is_crashed, crashed, evict_rounds, evict_terminal, reap_from, reap_workers, new_jobs, alive,
  Thread,
}
use immich_rs.Web.Jobs.Admission.{
  admit_kind, apply_history, start_worker, folder, enqueue, admit_apply_locked, SourceProfile,
  admit_apply,
}
use immich_rs.Web.Jobs.Control.{shutdown, count_status}
use immich_rs.Web.Jobs.Book.{book_of, Moves}
use immich_rs.Common.{
  false, contains, ok, any, ◌||◌, [], count_if, arith, text_lt, text_eq, length, sat_add, ◌+◌, ◌≤◌,
  pos, str, true, some, Option, Text, ◌≡◌, refl,
}
use immich_rs.Common.Map
use immich_rs.Web.Limits.{
  valid_oidc, valid_stores, valid_jobs, valid_sessions, validate, default_limits,
}
use immich_rs.Web.Jobs.Types.{
  apply, folder_scan, scan, folder_apply, StoredJob, push_event, new_job, is_queued, is_running,
}
use immich_rs.Web.Jobs.Steps.{initial, System, Reachable, admits_apply, after}

abbrev sources : Text → Option SourceProfile
sources _ = some (record { kind = folder; label = str "Photos" })

abbrev capability : ApplyCapability
capability = record {
  is_production = true;
  binding = record {
    owner = str "owner";
    receipt = str "receipt";
    dry_run = record {
      plan_reference = str "plan";
      plan_sha256 = str "sha";
      source_configuration_sha256 = str "configuration";
      server_identity_sha256 = str "identity";
      server_profile_sha256 = str "server";
      credential_generation = 1;
      max_logical_effects = 2;
      completed_unix = pos 100;
    };
    source_profile_id = str "photos";
    server_profile_id = str "home";
    backup_reference_sha256 = some (str "backup");
  };
}

abbrev threads : Text → Thread
threads _ = alive

-- One job waits.
abbrev one : System
one = record initial {
  state =
      (admit_apply default_limits sources threads (some (str "job")) true capability
        initial.state).1;
}

one_reached : Reachable default_limits 1 one
one_reached =
    after 0 initial one Reachable.start
      (admits_apply sources threads (some (str "job")) true capability initial)

counters_lem_example :
    (count_status is_running one.state.jobs ≡ one.state.running)
    × (count_status is_queued one.state.jobs ≡ one.state.queued)
    × (one.state.running ≤ default_limits.concurrent_jobs)
    × (one.state.running + one.state.queued
        ≤ sat_add default_limits.concurrent_jobs default_limits.queued_jobs)
    × (length one.state.jobs ≤ default_limits.retained_jobs)
counters_lem_example = counters_lem default_limits one_reached

Reachable-Moves_example : Moves default_limits (book_of initial) (book_of one)
Reachable-Moves_example = Reachable-Moves default_limits one_reached

single_apply_example : str "job" ≡ str "job"
unfolding admit_apply admit_apply_locked enqueue start_worker new_job push_event new_jobs
    reap_workers reap_from evict_terminal evict_rounds Map.get Map.insert text_eq text_lt
    default_limits
single_apply_example =
    single_apply default_limits one_reached (str "job") (str "job") (str "plan") refl refl

progress_lem_example :
    (id : Text) × (contains id one.asleep ≡ false)
    × ((begin default_limits id one.state).0 ≡ started)
    × ((other : Text) → (begin default_limits other one.state).0 ≡ started → other ≡ id)
unfolding admit_apply admit_apply_locked enqueue start_worker new_job push_event new_jobs
    reap_workers reap_from evict_terminal evict_rounds Map.get Map.insert text_eq text_lt
    default_limits validate valid_sessions valid_jobs valid_stores valid_oidc
progress_lem_example = progress_lem default_limits refl one_reached refl refl (omega arith)

abbrev waiting_job : StoredJob
waiting_job = push_event default_limits.sse_replay_events (
    new_job (str "job") (str "owner") (str "photos") (str "Photos")
      (apply (str "plan") folder_apply))

replay_lem_example : Answers waiting_job 0 (select_replay waiting_job.events (some 0))
unfolding admit_apply admit_apply_locked enqueue start_worker new_job push_event new_jobs
    reap_workers reap_from evict_terminal evict_rounds Map.get Map.insert text_eq text_lt
    default_limits apply_history
replay_lem_example =
    replay_lem default_limits (omega arith) one_reached (str "job") waiting_job refl (omega arith) 0

admission_lem_example :
    (admit_kind default_limits sources threads
      (some (str "next"))
      true
      (str "owner")
      (str "photos")
      (scan folder_scan)
      one.state).0
    ≡ ok (str "next")
unfolding admit_apply admit_apply_locked enqueue start_worker new_job push_event new_jobs
    reap_workers reap_from evict_terminal evict_rounds Map.get Map.insert text_eq text_lt
    default_limits validate valid_sessions valid_jobs valid_stores valid_oidc
admission_lem_example =
    admission_lem default_limits refl one_reached sources threads (str "next") (str "owner")
      (str "photos") (record { kind = folder; label = str "Photos" }) (scan folder_scan) refl refl
      (omega arith) (omega arith) refl

-- The manager shuts down, and another apply job is asked for.
abbrev shut : System
shut = record one { state = (shutdown default_limits (λ _. true) one.state).1; asleep = [] }

abbrev asked : System
asked = record shut {
  state =
      (admit_apply default_limits sources threads (some (str "next")) true capability shut.state).1;
}

shutdown_lem_example : IsShut default_limits asked.state
shutdown_lem_example =
    shutdown_lem default_limits one_reached (λ _. true)
      (onward shut shut asked (at_once shut)
        (admits_apply sources threads (some (str "next")) true capability shut))

reap_workers_lem_example :
    (count_if (λ _. true) (reap_workers (λ _. crashed) one.state).handles
      ≡ count_if (lives_and (λ _. crashed) (λ _. true)) one.state.handles)
    × ((reap_workers (λ _. crashed) one.state).worker_failed
        ≡ (one.state.worker_failed || any (λ id. is_crashed crashed) one.state.handles))
reap_workers_lem_example = reap_workers_lem (λ _. crashed) one.state (λ _. true)
