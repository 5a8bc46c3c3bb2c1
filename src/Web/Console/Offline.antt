-- ===== src/Web/Console/Offline.antt =====
-- crates/immich-web/src/jobs/dry_run.rs: a dry run checks that nothing has changed since the plan was
-- published, before and after it verifies the source, and binds what it saw.
use immich_rs.Common.{
  ◌||◌, refuse_if, sat_add, ok_or, text_eq, ◌==◌, ok, ◌>>◌, some, err, ◌&&◌, not, ℤ, ◌>>=◌, ℕ,
  if◌then◌else◌, Option, Bool, Result, Text,
}
use immich_rs.Core.Upload.{UploadPlan, summary_eq}
use immich_rs.Core.Reports.{ApplyReport, ImportApplyReport}
use immich_rs.Web.Jobs.Types.{DryRunBinding, HistoryKind}
use immich_rs.Web.Jobs.Worker.{WorkerOutcome}
use immich_rs.Web.Console.{
  source_configuration_digest, PlanBinding, ServerProfile, Console, StoredUploadPlan,
}

pub data UploadDryRunReport : Type 0 where
  folder_report : ApplyReport → UploadDryRunReport
  import_report : ImportApplyReport → UploadDryRunReport

pub data OfflineOutcome : Type 0 where
  completed : (schema planned : ℕ) → OfflineOutcome
  cancelled failed : OfflineOutcome

-- `valid_folder_dry_run` and `valid_import_dry_run` of jobs/apply.rs, and the same tests in
-- `offline_report`
unfoldable pub valid_folder_dry_run : ApplyReport → Bool
valid_folder_dry_run report =
    report.dry_run
    && not report.cancelled
    && report.created == 0
    && report.duplicate == 0
    && report.retried == 0
    && report.failed == 0
    && report.indeterminate == 0
    && report.planned == sat_add report.would_upload report.resumed

unfoldable pub valid_import_dry_run : ImportApplyReport → UploadPlan → Bool
valid_import_dry_run report plan =
    report.dry_run
    && not report.cancelled
    && report.created == 0
    && report.duplicate == 0
    && report.metadata_updated == 0
    && report.albums_created == 0
    && report.albums_reused == 0
    && report.album_memberships_updated == 0
    && report.resumed_effects == 0
    && report.retried == 0
    && report.failed == 0
    && report.indeterminate == 0
    && summary_eq report.planned plan.summary
    && report.would_upload == report.planned.operations
    && report.would_update_metadata == report.planned.metadata_updates
    && report.would_create_albums == report.planned.album_creates
    && report.would_add_album_memberships == report.planned.album_memberships

unfoldable pub offline_report : UploadDryRunReport → UploadPlan → Bool → OfflineOutcome
offline_report (folder_report report) plan checkpoint_unused =
    if valid_folder_dry_run report && checkpoint_unused
    then completed report.schema_version report.planned
    else failed
offline_report (import_report report) plan checkpoint_unused =
    if valid_import_dry_run report plan && checkpoint_unused
    then completed report.schema_version report.planned.operations
    else failed

-- What the offline verification meets: whether there is a checkpoint to try, the report or whether the
-- run was cancelled, and whether the checkpoint stayed unused.
pub record OfflineRun : Type 0 where
  pub has_checkpoint : Bool
  pub report : Result Bool UploadDryRunReport
  pub checkpoint_unused : Bool

unfoldable pub verify_offline : OfflineRun → UploadPlan → OfflineOutcome
verify_offline run plan = if not run.has_checkpoint then failed else elim run.report [
  | ok report ↦ offline_report report plan run.checkpoint_unused
  | err is_cancelled ↦ if is_cancelled then cancelled else failed
]

-- The digest of the source's inputs, if the state directory is the store's.
unfoldable pub current_source_generation : Console → Option Text → Result (Unit {0}) Text
current_source_generation console profile = do
  resolved ← ok_or profile tt
  matches ← ok_or console.state_matches tt
  refuse_if (not matches) tt
  ok resolved

-- The tests on the binding of the stored plan that stand before and after the verification.
abbrev pub is_server_bound : ServerProfile → PlanBinding → Bool
is_server_bound server binding =
    text_eq server.generation_sha256 binding.server_profile_sha256
    && server.credential_generation == binding.credential_generation

-- What `execute` reads and tests first. An error says that the job fails.
unfoldable pub check_before :
    Console
    → Text
    → Text
    → Result (Unit {0}) (Option Text × (StoredUploadPlan × (ServerProfile × Text)))
check_before console source_id reference = do
  source ← ok_or (console.source source_id) tt
  stored ← ok_or (console.load reference) tt
  server ← ok_or (console.server stored.binding.server_profile_id) tt
  generation ← current_source_generation console source
  refuse_if
      (not (text_eq stored.binding.source_profile_id source_id)
        || not (text_eq generation stored.binding.source_profile_sha256)
        || not (is_server_bound server stored.binding))
      tt
  ok (source, (stored, (server, generation)))

-- What it tests after the verification, when the console may say something else: the source again, and
-- then, with what the console says `last`, the state directory, and the time.
unfoldable pub check_after :
    Console → Console → Option Text → Text → ServerProfile → PlanBinding → Result (Unit {0}) ℤ
check_after later last source generation server binding = do
  current ← current_source_generation later source
  matches ← ok_or last.state_matches tt
  refuse_if
      (not (text_eq current generation) || not matches || not (is_server_bound server binding)) tt
  ok_or last.now_unix tt

-- The `DryRunBinding` of `execute`.
abbrev pub new_binding : Console → Text → StoredUploadPlan → Text → ℤ → DryRunBinding
new_binding console reference stored generation completed_unix = record {
  plan_reference = reference;
  plan_sha256 = stored.binding.plan_sha256;
  source_configuration_sha256 =
      source_configuration_digest console generation stored.plan.configuration_sha256;
  server_identity_sha256 = stored.binding.server_identity_sha256;
  server_profile_sha256 = stored.binding.server_profile_sha256;
  credential_generation = stored.binding.credential_generation;
  max_logical_effects = stored.binding.max_logical_effects;
  completed_unix = completed_unix;
}

-- The outcome of a dry run that went through.
unfoldable pub dry_run_completed :
    Console
    → Text
    → HistoryKind
    → StoredUploadPlan
    → Text
    → (schema planned : ℕ) → ℤ
    → WorkerOutcome
dry_run_completed console reference kind stored generation schema planned completed_unix =
    let binding = stored.binding in
    WorkerOutcome.completed kind
      (record {
        schema_version = schema;
        assets = planned;
        sidecars = stored.plan.summary.xmp_sidecars;
        bytes_read = stored.plan.summary.media_bytes;
        warnings = 0;
        errors = 0;
      })
      (some (record {
        reference = reference;
        schema_version = stored.plan.schema_version;
        plan_sha256 = binding.plan_sha256;
        max_logical_effects = binding.max_logical_effects;
      }))
      (some (new_binding console reference stored generation completed_unix))

-- The console before the verification, after it and at the end, and what the source resolves to after it.
unfoldable pub execute :
    Console
    → Console
    → Console
    → Option Text
    → OfflineRun
    → Text
    → Text
    → HistoryKind
    → WorkerOutcome
execute console later last source_later run source_id reference kind =
    elim (check_before console source_id reference) [
      | err _ ↦ WorkerOutcome.failed kind
      | ok (source, (stored, (server, generation))) ↦ elim (verify_offline run stored.plan) [
        | cancelled ↦ WorkerOutcome.cancelled kind
        | failed ↦ WorkerOutcome.failed kind
        | completed schema planned ↦
            elim (check_after later last source_later generation server stored.binding) [
              | err _ ↦ WorkerOutcome.failed kind
              | ok completed_unix ↦
                  dry_run_completed console reference kind stored generation schema planned
                    completed_unix
            ]
      ]
    ]
