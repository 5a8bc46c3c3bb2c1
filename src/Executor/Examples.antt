-- ===== src/Executor/Examples.antt =====
-- One upload that times out once, its journal, and the theorems on them.
use immich_rs.Executor.Apply.Run.{run_groups_lem, IsNew}
use immich_rs.Executor.Groups.Attempted.{apply_group_lem, IsAttempt}
use immich_rs.Executor.Apply.Recorded.{record_outcomes_lem, IsRecordable, counted}
use immich_rs.Core.Reports.{new_report}
use immich_rs.Executor.Apply.{run_groups, record_outcomes, event_of, Progress}
use immich_rs.Executor.Operation.Outcomes.{apply-IsOutcome, IsOutcome}
use immich_rs.Executor.Operation.Attempts.{apply_lem, Within, IsBudget}
use immich_rs.Executor.Groups.{apply_group, GroupResult, OperationGroup}
use immich_rs.Common.Map.{Map}
use immich_rs.Executor.Retry.{backoff_bounds, delay-le-cap, backoff, delay, exponential_delay}
use immich_rs.Executor.Journal.Resume.{
  completed_lem, last_event, append_completed, done_by, completed_map, IsJournal,
}
use immich_rs.Executor.Config.{IsConfig, UploadExecutionConfig}
use immich_rs.Common.{
  List, ◌+◌, err, ◌==◌, ◌*◌, if◌then◌else◌, false, contains_byte, str, All, ok, arith, ◌∷◌, true,
  ◌≤◌, ◌<◌, [], ℕ, text_eq, Text, none, some, ◌≡◌, refl,
}
use immich_rs.Common.Map
use immich_rs.Client.Errors as Errors
use immich_rs.Client.Uploads as Uploads
use immich_rs.Client.Uploads.{
  Network, UploadRequest, BulkCheckResult, UploadResponse, UploadResult, BulkCheckAction,
}
use immich_rs.Core.Samples.{digest_b, photo_video, photo_image, digest_a, asset_1}
use immich_rs.Executor.Operation as Operation
use immich_rs.Executor.Operation.{VerifiedAsset, Session, OperationResult, OperationOutcome}
use immich_rs.Executor.Groups as Groups
use immich_rs.Executor.Retry as Retry
use immich_rs.Executor.Journal as Journal
use immich_rs.Executor.Journal.{JournalEvent, Journal, completed_assets, OutcomeKind}

-- The server has never seen the asset; the first upload of it times out. The world counts the uploads.
abbrev flaky : Network ℕ
flaky = record {
  post_check = λ operation_id sha1 n.
      (ok (record { id = operation_id; action = BulkCheckAction.accept; asset_id = none } ∷ []), n);
  post_upload = λ request n. (
    (if n == 0
        then err (Errors.new Errors.timeout)
        else ok (record { id = asset_1; status = UploadResult.created })),
    n + 1,
  );
  wait = λ delay n. (true, n);
  is_cancelled = λ n. (false, n);
}

-- Any function from texts to texts will do for the digest.
abbrev echo : Text → Text
echo bytes = bytes

abbrev config : UploadExecutionConfig
config = record {
  verification_buffer_bytes = 65_536;
  concurrency = 2;
  max_attempts_per_operation = 3;
  max_retries_per_run = 5;
  retry_base_delay = 1_000_000_000;
  retry_delay_cap = 8_000_000_000;
}

config-IsConfig : IsConfig config
config-IsConfig = ground arith

abbrev source : VerifiedAsset
source = record { file_name = str "a.mov"; sha1_base64 = str "c2hh"; xmp_len = none }

abbrev start : Session ℕ
start = record { world = 0; budget = Retry.new 5 }

abbrev uploaded : OperationOutcome
uploaded = record {
  operation_id = digest_a;
  kind = OutcomeKind.created;
  asset_id = some asset_1;
  retries = 1;
}

start-IsBudget : IsBudget start.budget
unfolding Retry.new
start-IsBudget = ground arith

apply-uploaded :
    (Operation.apply flaky echo config photo_video source none start).0
    ≡ some (OperationResult.completed uploaded)
unfolding Operation.apply Operation.loop Operation.round Operation.check Operation.after_check
    Operation.send Operation.request Operation.after_upload Operation.retry_allowed
    Operation.wait_or Operation.successful Retry.claim Retry.new Errors.is_retryable Errors.new
    Uploads.duplicate_check Uploads.read_check Uploads.duplicate_of Uploads.upload
    Uploads.read_upload Uploads.validate_upload_request text_eq contains_byte
apply-uploaded = refl

apply_lem_example :
    (result : OperationResult) × ((Operation.apply flaky echo config photo_video source none
        start).0
      ≡ some result)
    × Within 3 0 start.budget
        (Operation.apply flaky echo config photo_video source none start).1.budget
        result
apply_lem_example =
    apply_lem flaky echo config photo_video source none start (omega arith) start-IsBudget

apply-IsOutcome_example : IsOutcome photo_video uploaded
apply-IsOutcome_example =
    apply-IsOutcome flaky echo config photo_video source none start
      (OperationResult.completed uploaded) apply-uploaded

abbrev photo_group : OperationGroup
photo_group = record { operations = photo_video ∷ photo_image ∷ [] }

abbrev sources : Map VerifiedAsset
sources = (digest_a, source) ∷ []

apply_group_lem_example :
    (result : GroupResult) × ((apply_group flaky echo config sources [] photo_group start).0
      ≡ some result)
    × IsBudget (apply_group flaky echo config sources [] photo_group start).1.budget
    × All (IsAttempt [] photo_group.operations) result.outcomes
apply_group_lem_example =
    apply_group_lem flaky echo config (omega arith) sources [] photo_group start start-IsBudget

abbrev lost : OperationOutcome
lost = record {
  operation_id = digest_b;
  kind = OutcomeKind.indeterminate;
  asset_id = none;
  retries = 2;
}

abbrev progress : Progress
progress = record { journal = record { events = [] }; report = new_report 2 false }

outcomes-IsRecordable : All IsRecordable (uploaded ∷ lost ∷ [])
unfolding event_of Journal.asset_contract
outcomes-IsRecordable = ground arith

record_outcomes_lem_example :
    ((record_outcomes (λ _. true) (uploaded ∷ lost ∷ []) progress).0 ≡ ok tt)
    × ((record_outcomes (λ _. true) (uploaded ∷ lost ∷ []) progress).1.journal.events
        ≡ event_of uploaded ∷ event_of lost ∷ [])
    × (counted (record_outcomes (λ _. true) (uploaded ∷ lost ∷ []) progress).1.report ≡ 2)
unfolding new_report
record_outcomes_lem_example =
    record_outcomes_lem (uploaded ∷ lost ∷ []) progress outcomes-IsRecordable (omega arith)

abbrev journal_1 : Journal
journal_1 = record { events = event_of uploaded ∷ [] }

abbrev journal_2 : Journal
journal_2 = record { events = event_of uploaded ∷ event_of lost ∷ [] }

journal_1-IsJournal : IsJournal journal_1
unfolding event_of Journal.asset_contract
journal_1-IsJournal = ground arith

completed_lem_example :
    (completed_assets journal_1 ≡ ok (completed_map journal_1))
    × ((k : Text) → Map.get k (completed_map journal_1) ≡ done_by (last_event k journal_1.events))
completed_lem_example = completed_lem journal_1 journal_1-IsJournal

append-journal_2 : Journal.append (event_of lost) true journal_1 ≡ ok journal_2
unfolding Journal.append Journal.asset_contract event_of
append-journal_2 = refl

append_completed_example :
    IsJournal journal_2
    × (completed_assets journal_2 ≡ ok (completed_map journal_2))
    × ((k : Text)
        → Map.get k (completed_map journal_2) ≡ (
            if text_eq (event_of lost).operation_id k
            then done_by (some (event_of lost))
            else Map.get k (completed_map journal_1)))
append_completed_example =
    append_completed journal_1 journal_2 (event_of lost) journal_1-IsJournal append-journal_2

backoff_bounds_example :
    (exponential_delay 3 config ≤ backoff echo digest_a 3 config)
    × (backoff echo digest_a 3 config ≤ config.retry_delay_cap)
    × (4 * backoff echo digest_a 3 config
        < 4 * exponential_delay 3 config + config.retry_base_delay)
backoff_bounds_example = backoff_bounds echo digest_a 3 config config-IsConfig

delay-le-cap_example : delay echo digest_a 3 (Errors.new Errors.timeout) config ≤ 8_000_000_000
delay-le-cap_example =
    delay-le-cap echo digest_a 3 (Errors.new Errors.timeout) config config-IsConfig

run_groups_lem_example :
    (events : List JournalEvent) × ((run_groups
        (λ _. true)
        flaky
        echo
        config
        sources
        []
        (photo_group ∷ [])
        start
        progress).0
      ≡ some (ok tt))
    × ((run_groups
          (λ _. true)
          flaky
          echo
          config
          sources
          []
          (photo_group ∷ [])
          start
          progress).1.1.journal.events
        ≡ events)
    × All (IsNew []) events
run_groups_lem_example =
    run_groups_lem flaky echo config (omega arith) sources [] (photo_group ∷ []) start progress
      start-IsBudget (((refl, (refl, tt)), tt))
