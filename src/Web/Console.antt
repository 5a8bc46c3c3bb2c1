-- ===== src/Web/Console.antt =====
-- crates/immich-web: what ties a dry run to the write that follows it. src/grants.rs `prepare` and
-- `binding_is_current`, and the configuration and store that they read.
pub mod Offline
pub mod Receipts
pub mod Prepared
mod Examples
use immich_rs.Common.{
  ok_or, has_control, since, is_trimmed, length, lt_ℤ, ltb, ◌^◌, ◌||◌, leb, ok, eq_ℤ, not,
  refuse_if, if◌then◌else◌, err, ◌>>◌, ◌==◌, some, false, Result, ◌>>=◌, text_eq, none, ℤ, ◌++◌,
  ◌&&◌, str, Option, Bool, ℕ, Text, ◌∷◌, [],
}
use immich_rs.Core.Upload.{UploadPlan}
use immich_rs.Web.Limits.{WebLimits}
use immich_rs.Web.Jobs.Types.{DryRunBinding}
use immich_rs.Web.Grants.{GrantBinding, ApplyCapability, GrantError}

pub record PlanBinding : Type 0 where
  pub schema_version : ℕ
  pub plan_sha256 : Text
  pub source_profile_id : Text
  pub source_profile_sha256 : Text
  pub server_profile_id : Text
  pub server_profile_sha256 : Text
  pub credential_generation : ℕ
  pub server_identity_sha256 : Text
  pub max_logical_effects : ℕ

pub record StoredUploadPlan : Type 0 where
  pub plan : UploadPlan
  pub binding : PlanBinding

-- A server profile: its digest, its credentials, and whether its mode is `ProductionRead`.
pub record ServerProfile : Type 0 where
  pub generation_sha256 : Text
  pub credential_generation : ℕ
  pub is_production : Bool

-- What the configuration and the store say at one moment. A source is configured or not, and resolves to
-- the digest of its inputs or fails; a receipt's query fails, finds nothing, or finds a binding;
-- `state_matches` is nothing if the state directory does not resolve. The digest is SHA-256 in hexadecimal.
pub record Console : Type 0 where
  pub source : Text → Option (Option Text)
  pub server : Text → Option ServerProfile
  pub load : Text → Option StoredUploadPlan
  pub dry_run_receipt : Text → Option (Option DryRunBinding)
  pub receipt_is_newer : Text → ℤ → Option Bool
  pub state_matches : Option Bool
  pub now_unix : Option ℤ
  pub sha256_hex : Text → Text

-- `source_configuration_digest` of src/state_store.rs
unfoldable pub source_configuration_digest : Console → Text → Text → Text
source_configuration_digest console source configuration =
    console.sha256_hex
      (str "immich-rs-web-source-configuration-v1" ++ 0 ∷ source ++ 0 ∷ configuration)

-- `==` on `DryRunBinding`
abbrev pub dry_run_eq : DryRunBinding → DryRunBinding → Bool
dry_run_eq a b =
    text_eq a.plan_reference b.plan_reference
    && text_eq a.plan_sha256 b.plan_sha256
    && text_eq a.source_configuration_sha256 b.source_configuration_sha256
    && text_eq a.server_identity_sha256 b.server_identity_sha256
    && text_eq a.server_profile_sha256 b.server_profile_sha256
    && a.credential_generation == b.credential_generation
    && a.max_logical_effects == b.max_logical_effects
    && eq_ℤ a.completed_unix b.completed_unix

-- The comparisons of `binding_is_current`, once everything is read.
unfoldable pub agrees :
    Console → GrantBinding → DryRunBinding → StoredUploadPlan → ServerProfile → Text → Bool → Bool
agrees console grant receipt stored server resolved matches =
    let dry_run = grant.dry_run in
    let binding = stored.binding in
    dry_run_eq receipt dry_run
    && matches
    && text_eq binding.plan_sha256 dry_run.plan_sha256
    && text_eq binding.source_profile_id grant.source_profile_id
    && text_eq binding.source_profile_sha256 resolved
    && text_eq (source_configuration_digest console resolved stored.plan.configuration_sha256)
        dry_run.source_configuration_sha256
    && text_eq binding.server_profile_id grant.server_profile_id
    && text_eq binding.server_identity_sha256 dry_run.server_identity_sha256
    && text_eq binding.server_profile_sha256 dry_run.server_profile_sha256
    && binding.credential_generation == dry_run.credential_generation
    && text_eq server.generation_sha256 dry_run.server_profile_sha256
    && server.credential_generation == dry_run.credential_generation
    && binding.max_logical_effects == dry_run.max_logical_effects

-- What `binding_is_current` reads before it compares.
unfoldable pub read_for :
    Console
    → GrantBinding
    → Result (Unit {0}) (DryRunBinding × (StoredUploadPlan × (ServerProfile × (Text × Bool))))
read_for console grant = do
  found ← ok_or (console.dry_run_receipt grant.receipt) tt
  receipt ← ok_or found tt
  stored ← ok_or (console.load grant.dry_run.plan_reference) tt
  source ← ok_or (console.source grant.source_profile_id) tt
  server ← ok_or (console.server grant.server_profile_id) tt
  resolved ← ok_or source tt
  matches ← ok_or console.state_matches tt
  ok (receipt, (stored, (server, (resolved, matches))))

unfoldable pub binding_is_current : Console → GrantBinding → Bool
binding_is_current console grant = elim (read_for console grant) [
  | err _ ↦ false
  | ok (receipt, (stored, (server, (resolved, matches)))) ↦
      agrees console grant receipt stored server resolved matches
]

pub record GrantRequest : Type 0 where
  pub receipt : Text
  pub plan_sha256 : Text
  pub max_logical_effects : ℕ
  pub backup_reference : Text

unfoldable pub validate_receipt_age :
    WebLimits → Option ℤ → DryRunBinding → Result GrantError (Unit {0})
validate_receipt_age limits now_unix binding = do
  now ← ok_or now_unix GrantError.unavailable
  refuse_if (leb (2 ^ 63) limits.dry_run_receipt_seconds) GrantError.invalid
  refuse_if
      (lt_ℤ now binding.completed_unix
        || ltb limits.dry_run_receipt_seconds (since now binding.completed_unix))
      GrantError.expired

unfoldable pub validate_backup : Console → WebLimits → Text → Bool → Result GrantError (Option Text)
validate_backup console limits reference production =
    if not production
    then if text_eq reference [] then ok none else err GrantError.invalid
    else if text_eq reference []
        || ltb limits.backup_reference_bytes (length reference)
        || not (is_trimmed reference)
        || has_control reference
    then err GrantError.invalid
    else ok (some (console.sha256_hex reference))

-- The first tests of `prepare`: the receipt is there, fresh, and the one that was confirmed.
unfoldable pub confirmed_receipt :
    Console → WebLimits → GrantRequest → Result GrantError DryRunBinding
confirmed_receipt console limits request = do
  found ← ok_or (console.dry_run_receipt request.receipt) GrantError.unavailable
  receipt ← ok_or found GrantError.invalid
  validate_receipt_age limits console.now_unix receipt
  refuse_if
      (not (text_eq request.plan_sha256 receipt.plan_sha256)
        || not (request.max_logical_effects == receipt.max_logical_effects))
      GrantError.invalid
  ok receipt

-- Its plan and server, with a checkpoint older than the receipt.
unfoldable pub granted_plan :
    Console → DryRunBinding → Result GrantError (StoredUploadPlan × ServerProfile)
granted_plan console receipt = do
  stored ← ok_or (console.load receipt.plan_reference) GrantError.invalid
  refuse_if (not (stored.plan.schema_version == 1 || stored.plan.schema_version == 2))
      GrantError.invalid
  newer ←
      ok_or (console.receipt_is_newer receipt.plan_reference receipt.completed_unix)
        GrantError.unavailable
  refuse_if (not newer) GrantError.invalid
  server ← ok_or (console.server stored.binding.server_profile_id) GrantError.invalid
  ok (stored, server)

abbrev pub new_grant :
    Text → GrantRequest → DryRunBinding → PlanBinding → Option Text → GrantBinding
new_grant owner request receipt binding backup = record {
  owner = owner;
  receipt = request.receipt;
  dry_run = receipt;
  source_profile_id = binding.source_profile_id;
  server_profile_id = binding.server_profile_id;
  backup_reference_sha256 = backup;
}

-- `prepared` tells whether `prepare_upload_apply` accepts the plan for a production or a test write.
unfoldable pub prepare :
    Console
    → WebLimits
    → (UploadPlan → Bool → Bool)
    → Text
    → GrantRequest
    → Result GrantError (ApplyCapability × Bool)
prepare console limits prepared owner request = do
  receipt ← confirmed_receipt console limits request
  plan ← granted_plan console receipt
  backup ← validate_backup console limits request.backup_reference plan.1.is_production
  refuse_if (not (prepared plan.0.plan plan.1.is_production)) GrantError.invalid
  refuse_if
      (not (binding_is_current console (new_grant owner request receipt plan.0.binding backup)))
      GrantError.invalid
  ok (
    record {
      is_production = plan.1.is_production;
      binding = new_grant owner request receipt plan.0.binding backup;
    },
    plan.1.is_production,
  )
