-- ===== src/Executor/Apply.antt =====
-- crates/immich-executor/src/apply.rs, `apply_upload_inner` and what it calls around the groups. The
-- groups run one after the other here; the source keeps up to `concurrency` of them under way.
pub mod Recorded
pub mod Run
use immich_rs.Executor.Config.{invalid_plan, checkpoint, UploadExecutionConfig, ExecutorErrorClass}
use immich_rs.Core.Upload.{ServerCompatibility, UploadPlan}
use immich_rs.Core.Reports.{new_report, ApplyReport}
use immich_rs.Common.{
  text_eq, ◌>>=◌, ◌&&◌, ◌==◌, none, [], not, some, err, ◌-◌, Option, true, ◌∷◌, any, length, false,
  ok, refuse_if, ◌>>◌, if◌then◌else◌, sat_add, Result, Text, List, Bool, ℕ,
}
use immich_rs.Common.Map
use immich_rs.Common.Map.{Map, contains_key}
use immich_rs.Client.Uploads.{Network}
use immich_rs.Executor.Operation.{VerifiedAsset, OperationOutcome, Session}
use immich_rs.Executor.Groups.{pending_groups, OperationGroup, GroupResult, apply_group, is_planned}
use immich_rs.Executor.Journal.{completed_assets, OutcomeKind, Journal, JournalEvent, append}
use immich_rs.Executor.Retry as Retry
use immich_rs.Executor.Config as Config

-- `completed.keys()` all name operations of the plan.
unfoldable pub validate_completed : UploadPlan → Map Text → Result ExecutorErrorClass (Unit {0})
unfolding is_planned
validate_completed plan done_before =
    refuse_if (any (λ row. not (is_planned row.0 plan.operations)) done_before) checkpoint

-- The `match outcome.kind` of `record_report`.
unfoldable pub count_kind : OutcomeKind → ApplyReport → ApplyReport
count_kind OutcomeKind.created report = record report { created = sat_add report.created 1 }
count_kind OutcomeKind.duplicate report = record report { duplicate = sat_add report.duplicate 1 }
count_kind OutcomeKind.failed report = record report { failed = sat_add report.failed 1 }
count_kind OutcomeKind.indeterminate report = record report {
  indeterminate = sat_add report.indeterminate 1;
}

unfoldable pub record_report : ApplyReport → OperationOutcome → ApplyReport
unfolding count_kind
record_report report outcome =
    count_kind outcome.kind (record report { retried = sat_add report.retried outcome.retries })

unfoldable pub event_of : OperationOutcome → JournalEvent
event_of outcome = record {
  operation_id = outcome.operation_id;
  kind = outcome.kind;
  asset_id = outcome.asset_id;
  retry_count = outcome.retries;
}

-- The state of the collecting loop. An error leaves the rows that were committed before it.
pub record Progress : Type 0 where
  pub journal : Journal
  pub report : ApplyReport

-- `committed` says whether the next insert into the database succeeds.
module _ (committed : Journal → Bool) where
  -- `for outcome in group_result.outcomes`
  unfoldable pub record_outcomes :
      List OperationOutcome → Progress → Result ExecutorErrorClass (Unit {0}) × Progress
  record_outcomes [] p = (ok tt, p)
  record_outcomes (outcome ∷ rest) p =
      elim (append (event_of outcome) (committed p.journal) p.journal) [
        | err e ↦ (err e, p)
        | ok journal ↦
            record_outcomes rest
              (record { journal = journal; report = record_report p.report outcome })
      ]

  unfoldable pub record_group :
      GroupResult → Progress → Result ExecutorErrorClass (Unit {0}) × Progress
  record_group result p = record_outcomes result.outcomes (record p {
    report = if result.cancelled then record p.report { cancelled = true } else p.report;
  })

  module _ {W : Type 0} (net : Network W) (sha256 : Text → Text) (config : UploadExecutionConfig)
      (verified : Map VerifiedAsset) (done_before : Map Text) where
    -- The stream of groups; `none` only where an upload has run out of fuel.
    unfoldable pub run_groups :
        List OperationGroup
        → Session W
        → Progress
        → Option (Result ExecutorErrorClass (Unit {0})) × (Session W × Progress)
    run_groups [] s p = (some (ok tt), (s, p))
    run_groups (group ∷ rest) s p =
        let (result, s') = apply_group net sha256 config verified done_before group s in
        elim result [
          | none ↦ (none, (s', p))
          | some finished ↦
              let (end, p') = record_group finished p in
              elim end [ err e ↦ (some (err e), (s', p')) | ok _ ↦ run_groups rest s' p' ]
        ]

-- The report that a run starts with.
unfoldable pub starting_report : UploadPlan → Map Text → ApplyReport
starting_report plan done_before = record (new_report plan.summary.operations false) {
  resumed = length done_before;
}

-- `dry_run_upload` after the source and the checkpoint were read.
unfoldable pub dry_run_report : UploadPlan → Map Text → Result ExecutorErrorClass ApplyReport
dry_run_report plan done_before = do
  validate_completed plan done_before
  ok (record (new_report plan.summary.operations true) {
    resumed = length done_before;
    would_upload = plan.summary.operations - length done_before;
  })

-- `ServerCompatibility: Eq`
unfoldable pub compatibility_eq : ServerCompatibility → ServerCompatibility → Bool
compatibility_eq a b =
    a.version.major == b.version.major
    && (a.version.minor == b.version.minor
        && (a.version.patch == b.version.patch && text_eq a.identity_sha256 b.identity_sha256))

-- What a run has in hand before its first group.
pub record Prepared : Type 0 where
  pub verified : Map VerifiedAsset
  pub done_before : Map Text
  pub groups : List OperationGroup

-- `apply_upload_inner` up to the stream of groups. The client's compatibility, what `verify_source`
-- returned and the journal that was opened come from outside.
unfoldable pub prepare :
    UploadPlan
    → UploadExecutionConfig
    → ServerCompatibility
    → Result ExecutorErrorClass (Map VerifiedAsset)
    → Journal
    → Result ExecutorErrorClass Prepared
unfolding compatibility_eq
prepare plan config client_server verify_source journal = do
  Config.validate config
  refuse_if (not (compatibility_eq client_server plan.server)) invalid_plan
  verified ← verify_source
  done_before ← completed_assets journal
  validate_completed plan done_before
  groups ← pending_groups plan done_before
  ok (record { verified = verified; done_before = done_before; groups = groups })

-- The value of `Ok(report)`, or the error that `?` passes on.
abbrev pub reported :
    Option (Result ExecutorErrorClass (Unit {0}))
    → ApplyReport
    → Option (Result ExecutorErrorClass ApplyReport)
reported none report = none
reported (some (err e)) report = some (err e)
reported (some (ok _)) report = some (ok report)

module _ (committed : Journal → Bool) {W : Type 0} (net : Network W) (sha256 : Text → Text) where
  unfoldable pub apply_upload_inner :
      UploadPlan
      → UploadExecutionConfig
      → ServerCompatibility
      → Result ExecutorErrorClass (Map VerifiedAsset)
      → Journal
      → W
      → Option (Result ExecutorErrorClass ApplyReport) × (W × Journal)
  apply_upload_inner plan config client_server verify_source journal w =
      elim (prepare plan config client_server verify_source journal) [
        | err e ↦ (some (err e), (w, journal))
        | ok ready ↦
            let start : Session W = record {
              world = w;
              budget = Retry.new config.max_retries_per_run;
            } in
            let fresh : Progress = record {
              journal = journal;
              report = starting_report plan ready.done_before;
            } in
            let (end, (s, p)) =
              run_groups committed net sha256 config ready.verified ready.done_before ready.groups
                start fresh in
            (reported end p.report, (s.world, p.journal))
      ]
