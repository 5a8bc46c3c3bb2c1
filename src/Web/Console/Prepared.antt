-- ===== src/Web/Console/Prepared.antt =====
-- crates/immich-web/src/grants.rs `prepare`: what stands behind a prepared capability.
use immich_rs.Core.Upload.{UploadPlan}
use immich_rs.Web.Limits.{WebLimits}
use mathlib.Core.Path.{subst}
use immich_rs.Common.{
  ◌==◌, ltb, ◌||◌, ◌^◌, text_eq, leb, text_eq_iff, ap, ◌∙◌, ◌≤◌, since, not, refuse_if, arith,
  false, is_some, ok_or, lt_ℤ, true, ok, some, ℤ, Option, Bool, Text, ◌≡◌, refl, ok_or-ok,
  refuse_if-ok, >>=-eq-ok,
}
use immich_rs.Web.Jobs.Types.{DryRunBinding}
use immich_rs.Web.Grants.{ApplyCapability, GrantError}
use immich_rs.Web.Console.{
  ServerProfile, new_grant, confirmed_receipt, granted_plan, GrantRequest, prepare, validate_backup,
  validate_receipt_age, Console, StoredUploadPlan, binding_is_current,
}

-- The dry run ended at most so many seconds ago.
abbrev pub IsFresh : WebLimits → Option ℤ → ℤ → Type 0
IsFresh limits now_unix completed_unix =
    (now : ℤ) × (now_unix ≡ some now)
    × (lt_ℤ now completed_unix ≡ false)
    × (since now completed_unix ≤ limits.dry_run_receipt_seconds)

-- What a prepared capability says of the request, and of the console at that moment.
pub record IsPrepared (console : Console) (limits : WebLimits) (owner : Text)
    (request : GrantRequest) (r : ApplyCapability × Bool) : Type 0 where
  pub owned : r.0.binding.owner ≡ owner
  pub receipt : r.0.binding.receipt ≡ request.receipt
  pub kept : console.dry_run_receipt request.receipt ≡ some (some r.0.binding.dry_run)
  pub confirmed :
      (r.0.binding.dry_run.plan_sha256 ≡ request.plan_sha256)
      × (r.0.binding.dry_run.max_logical_effects ≡ request.max_logical_effects)
  pub fresh : IsFresh limits console.now_unix r.0.binding.dry_run.completed_unix
  pub newer :
      console.receipt_is_newer r.0.binding.dry_run.plan_reference r.0.binding.dry_run.completed_unix
      ≡ some true
  pub backed_up : is_some r.0.binding.backup_reference_sha256 ≡ r.0.is_production
  pub current : binding_is_current console r.0.binding ≡ true

validate_backup-some :
    (console : Console) (limits : WebLimits) (reference : Text) (production : Bool)
    (backup : Option Text)
    → validate_backup console limits reference production ≡ ok backup
    → is_some backup ≡ production
unfolding validate_backup
validate_backup-some console limits reference true backup h = ground arith
validate_backup-some console limits reference false backup h = ground arith

validate_receipt_age-IsFresh :
    (limits : WebLimits) (now_unix : Option ℤ) (binding : DryRunBinding) (value : Unit {0})
    → validate_receipt_age limits now_unix binding ≡ ok value
    → IsFresh limits now_unix binding.completed_unix
unfolding validate_receipt_age
validate_receipt_age-IsFresh limits now_unix binding value h =
    let (now, a, h1) = >>=-eq-ok (ok_or now_unix GrantError.unavailable) _ h in
    let (_, b, h2) =
      >>=-eq-ok (refuse_if (leb (2 ^ 63) limits.dry_run_receipt_seconds) GrantError.invalid) _ h1 in
    let sure =
      refuse_if-ok
        (lt_ℤ now binding.completed_unix
          || ltb limits.dry_run_receipt_seconds (since now binding.completed_unix))
        GrantError.expired h2 in
    (now, ok_or-ok now_unix GrantError.unavailable a, ground (arith, sure), ground (arith, sure))

-- What the first tests find.
confirmed_receipt_lem :
    (console : Console) (limits : WebLimits) (request : GrantRequest) (receipt : DryRunBinding)
    → confirmed_receipt console limits request ≡ ok receipt
    → (console.dry_run_receipt request.receipt ≡ some (some receipt))
      × IsFresh limits console.now_unix receipt.completed_unix
      × (receipt.plan_sha256 ≡ request.plan_sha256)
      × (receipt.max_logical_effects ≡ request.max_logical_effects)
unfolding confirmed_receipt
confirmed_receipt_lem console limits request receipt h =
    let (found, a, h1) =
      >>=-eq-ok (ok_or (console.dry_run_receipt request.receipt) GrantError.unavailable) _ h in
    let (kept, b, h2) = >>=-eq-ok (ok_or found GrantError.invalid) _ h1 in
    let (age, c, h3) = >>=-eq-ok (validate_receipt_age limits console.now_unix kept) _ h2 in
    let (_, d, end) =
      >>=-eq-ok
        (refuse_if
          (not (text_eq request.plan_sha256 kept.plan_sha256)
            || not (request.max_logical_effects == kept.max_logical_effects))
          GrantError.invalid)
        _ h3 in
    let digests =
      refuse_if-ok
        (not (text_eq request.plan_sha256 kept.plan_sha256)
          || not (request.max_logical_effects == kept.max_logical_effects))
        GrantError.invalid d in
    let same : kept ≡ receipt = cc end in
    subst
      (λ (r : DryRunBinding).
        (console.dry_run_receipt request.receipt ≡ some (some r))
        × IsFresh limits console.now_unix r.completed_unix
        × (r.plan_sha256 ≡ request.plan_sha256)
        × (r.max_logical_effects ≡ request.max_logical_effects))
      same
      (
        ok_or-ok (console.dry_run_receipt request.receipt) GrantError.unavailable a
            ∙ ap (λ (o : Option DryRunBinding). some o) (ok_or-ok found GrantError.invalid b),
        validate_receipt_age-IsFresh limits console.now_unix kept age c,
        ground (arith, digests, text_eq_iff request.plan_sha256 kept.plan_sha256),
        ground (arith, digests),
      )

granted_plan-newer :
    (console : Console) (receipt : DryRunBinding) (plan : StoredUploadPlan × ServerProfile)
    → granted_plan console receipt ≡ ok plan
    → console.receipt_is_newer receipt.plan_reference receipt.completed_unix ≡ some true
unfolding granted_plan
granted_plan-newer console receipt plan h =
    let (stored, a, h1) =
      >>=-eq-ok (ok_or (console.load receipt.plan_reference) GrantError.invalid) _ h in
    let (_, b, h2) =
      >>=-eq-ok
        (refuse_if (not (stored.plan.schema_version == 1 || stored.plan.schema_version == 2))
          GrantError.invalid)
        _ h1 in
    let (newer, c, h3) =
      >>=-eq-ok
        (ok_or (console.receipt_is_newer receipt.plan_reference receipt.completed_unix)
          GrantError.unavailable)
        _ h2 in
    let (_, d, _) = >>=-eq-ok (refuse_if (not newer) GrantError.invalid) _ h3 in
    let is_newer : newer ≡ true = ground (arith, refuse_if-ok (not newer) GrantError.invalid d) in
    ok_or-ok (console.receipt_is_newer receipt.plan_reference receipt.completed_unix)
      GrantError.unavailable c
    ∙ ap (λ (b : Bool). some b) is_newer

-- A capability that `prepare` gives is its owner's, for the receipt, the plan digest and the number of
-- effects of the request; the receipt is in the store, not older than the limit, and newer than the plan's
-- checkpoint; exactly a production write has a backup reference; and the grant is current.
pub prepare-IsPrepared :
    (console : Console) (limits : WebLimits) (prepared : UploadPlan → Bool → Bool) (owner : Text)
    (request : GrantRequest) (r : ApplyCapability × Bool)
    → prepare console limits prepared owner request ≡ ok r
    → IsPrepared console limits owner request r
unfolding prepare
prepare-IsPrepared console limits prepared owner request r h =
    let (receipt, a, h1) = >>=-eq-ok (confirmed_receipt console limits request) _ h in
    let (plan, b, h2) = >>=-eq-ok (granted_plan console receipt) _ h1 in
    let (backup, c, h3) =
      >>=-eq-ok (validate_backup console limits request.backup_reference plan.1.is_production) _
        h2 in
    let (_, d, h4) =
      >>=-eq-ok (refuse_if (not (prepared plan.0.plan plan.1.is_production)) GrantError.invalid) _
        h3 in
    let (_, e, end) =
      >>=-eq-ok
        (refuse_if
          (not (binding_is_current console (new_grant owner request receipt plan.0.binding backup)))
          GrantError.invalid)
        _ h4 in
    let (kept, fresh, digest, effects) = confirmed_receipt_lem console limits request receipt a in
    let made : ApplyCapability = record {
      is_production = plan.1.is_production;
      binding = new_grant owner request receipt plan.0.binding backup;
    } in
    let same : (made, plan.1.is_production) ≡ r = cc end in
    subst (λ (t : ApplyCapability × Bool). IsPrepared console limits owner request t) same
      (record {
        owned = refl;
        receipt = refl;
        kept = kept;
        confirmed = (digest, effects);
        fresh = fresh;
        newer = granted_plan-newer console receipt plan b;
        backed_up =
            validate_backup-some console limits request.backup_reference plan.1.is_production backup
              c;
        current = ground (
          arith,
          refuse_if-ok
              (not (
                binding_is_current console (new_grant owner request receipt plan.0.binding backup)))
              GrantError.invalid e,
        );
      })
