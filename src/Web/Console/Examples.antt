-- ===== src/Web/Console/Examples.antt =====
-- A dry run that completes, and the grant that is prepared from it.
use immich_rs.Common.{text_eq, none, pos, ok, some, true, false, str, ◌≡◌, [], refl}
use immich_rs.Core.Samples.{upload_plan}
use immich_rs.Core.Reports.{new_report}
use immich_rs.Web.Limits.{default_limits}
use immich_rs.Web.Jobs.Types.{JobSummary, PlanArtifact, DryRunBinding, folder_dry_run}
use immich_rs.Web.Grants.{ApplyCapability}
use immich_rs.Web.Console.{
  source_configuration_digest, agrees, read_for, validate_backup, validate_receipt_age,
  granted_plan, confirmed_receipt, Console, StoredUploadPlan, GrantRequest, prepare,
  binding_is_current,
}
use immich_rs.Web.Console.Offline.{
  dry_run_completed, check_after, valid_folder_dry_run, offline_report, verify_offline,
  current_source_generation, check_before, execute, OfflineRun, folder_report,
}
use immich_rs.Web.Console.Receipts.{execute-binding_is_current}
use immich_rs.Web.Console.Prepared.{prepare-IsPrepared, IsPrepared}

abbrev stored : StoredUploadPlan
stored = record {
  plan = upload_plan;
  binding = record {
    schema_version = 1;
    plan_sha256 = str "sha";
    source_profile_id = str "photos";
    source_profile_sha256 = str "inputs";
    server_profile_id = str "home";
    server_profile_sha256 = str "server";
    credential_generation = 1;
    server_identity_sha256 = str "identity";
    max_logical_effects = 2;
  };
}

abbrev bound : DryRunBinding
bound = record {
  plan_reference = str "plan";
  plan_sha256 = str "sha";
  source_configuration_sha256 = str "digest";
  server_identity_sha256 = str "identity";
  server_profile_sha256 = str "server";
  credential_generation = 1;
  max_logical_effects = 2;
  completed_unix = pos 100;
}

abbrev console : Console
console = record {
  source = λ _. some (some (str "inputs"));
  server = λ _. some (record {
    generation_sha256 = str "server";
    credential_generation = 1;
    is_production = false;
  });
  load = λ _. some stored;
  dry_run_receipt = λ _. some (some bound);
  receipt_is_newer = λ _ _. some true;
  state_matches = some true;
  now_unix = some (pos 100);
  sha256_hex = λ _. str "digest";
}

abbrev offline : OfflineRun
offline = record {
  has_checkpoint = true;
  report = ok (folder_report (new_report 0 true));
  checkpoint_unused = true;
}

abbrev artifact : PlanArtifact
artifact = record {
  reference = str "plan";
  schema_version = upload_plan.schema_version;
  plan_sha256 = str "sha";
  max_logical_effects = 2;
}

abbrev summary : JobSummary
summary = record {
  schema_version = 1;
  assets = 0;
  sidecars = upload_plan.summary.xmp_sidecars;
  bytes_read = upload_plan.summary.media_bytes;
  warnings = 0;
  errors = 0;
}

execute-binding_is_current_example :
    binding_is_current console (record {
      owner = str "owner";
      receipt = str "receipt";
      dry_run = bound;
      source_profile_id = str "photos";
      server_profile_id = str "home";
      backup_reference_sha256 = none;
    })
    ≡ true
unfolding execute check_before current_source_generation verify_offline offline_report
    valid_folder_dry_run new_report check_after dry_run_completed source_configuration_digest
    text_eq
execute-binding_is_current_example =
    execute-binding_is_current console console console (some (str "inputs")) offline (str "photos")
      (str "plan") folder_dry_run folder_dry_run summary (some artifact) bound refl (str "owner")
      (str "receipt") none stored refl refl

abbrev request : GrantRequest
request = record {
  receipt = str "receipt";
  plan_sha256 = str "sha";
  max_logical_effects = 2;
  backup_reference = [];
}

abbrev prepared_grant : ApplyCapability
prepared_grant = record {
  is_production = false;
  binding = record {
    owner = str "owner";
    receipt = str "receipt";
    dry_run = bound;
    source_profile_id = str "photos";
    server_profile_id = str "home";
    backup_reference_sha256 = none;
  };
}

prepare-IsPrepared_example :
    IsPrepared console default_limits (str "owner") request (prepared_grant, false)
unfolding prepare confirmed_receipt granted_plan validate_receipt_age validate_backup
    binding_is_current read_for agrees source_configuration_digest text_eq default_limits
prepare-IsPrepared_example =
    prepare-IsPrepared console default_limits (λ _ _. true) (str "owner") request
      (prepared_grant, false) refl
