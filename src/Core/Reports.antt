-- ===== src/Core/Reports.antt =====
-- crates/immich-core/src/apply_report.rs and import_report.rs: the outcome counters.
use immich_rs.Core.Upload.{UploadPlanSummary}
use immich_rs.Common.{true, false, Bool, ℕ}

pub record ApplyReport : Type 0 where
  pub schema_version : ℕ
  pub dry_run : Bool
  pub planned : ℕ
  pub would_upload : ℕ
  pub created : ℕ
  pub duplicate : ℕ
  pub resumed : ℕ
  pub retried : ℕ
  pub failed : ℕ
  pub indeterminate : ℕ
  pub cancelled : Bool

-- `ApplyReport::new`
unfoldable pub new_report : ℕ → Bool → ApplyReport
new_report planned dry_run = record {
  schema_version = 1;
  dry_run = dry_run;
  planned = planned;
  would_upload = 0;
  created = 0;
  duplicate = 0;
  resumed = 0;
  retried = 0;
  failed = 0;
  indeterminate = 0;
  cancelled = false;
}

pub record ImportApplyReport : Type 0 where
  pub schema_version : ℕ
  pub dry_run : Bool
  pub planned : UploadPlanSummary
  pub would_upload : ℕ
  pub would_update_metadata : ℕ
  pub would_create_albums : ℕ
  pub would_add_album_memberships : ℕ
  pub created : ℕ
  pub duplicate : ℕ
  pub metadata_updated : ℕ
  pub albums_created : ℕ
  pub albums_reused : ℕ
  pub album_memberships_updated : ℕ
  pub resumed_effects : ℕ
  pub retried : ℕ
  pub failed : ℕ
  pub indeterminate : ℕ
  pub cancelled : Bool

-- `ImportApplyReport::dry_run`
unfoldable pub import_dry_run : UploadPlanSummary → ImportApplyReport
import_dry_run planned = record {
  schema_version = 1;
  dry_run = true;
  planned = planned;
  would_upload = planned.operations;
  would_update_metadata = planned.metadata_updates;
  would_create_albums = planned.album_creates;
  would_add_album_memberships = planned.album_memberships;
  created = 0;
  duplicate = 0;
  metadata_updated = 0;
  albums_created = 0;
  albums_reused = 0;
  album_memberships_updated = 0;
  resumed_effects = 0;
  retried = 0;
  failed = 0;
  indeterminate = 0;
  cancelled = false;
}
