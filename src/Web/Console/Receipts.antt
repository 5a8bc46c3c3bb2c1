-- ===== src/Web/Console/Receipts.antt =====
-- crates/immich-web/src/jobs/dry_run.rs `execute` and grants.rs `binding_is_current`: what a dry run leaves
-- and what a grant reads of it.
use mathlib.Core.Path.{subst}
use immich_rs.Common.{
  text_eq_iff, eq_ℤ_refl, text_eq_refl, sym, inr, inl, Result-cases, ℤ, ap, ◌∙◌, false, arith, ◌||◌,
  refuse_if, text_eq, not, ok_or, ok, true, some, Option, Text, ◌≡◌, refl, ok_or-ok, refuse_if-ok,
  >>=-eq-ok,
}
use immich_rs.Web.Jobs.Types.{PlanArtifact, JobSummary, HistoryKind, DryRunBinding}
use immich_rs.Web.Jobs.Worker.{WorkerOutcome}
use immich_rs.Web.Grants.{GrantBinding}
use immich_rs.Web.Console.{
  agrees, binding_is_current, read_for, source_configuration_digest, ServerProfile, Console,
  StoredUploadPlan,
}
use immich_rs.Web.Console.Offline.{
  new_binding, check_after, verify_offline, OfflineOutcome, OfflineRun, dry_run_completed,
  is_server_bound, check_before, current_source_generation, execute,
}

-- What a dry run has seen when it passes its first tests.
record Bound (console : Console) (source_id reference : Text) (stored : StoredUploadPlan)
    (server : ServerProfile) (generation : Text) : Type 0 where
  pub source_there : console.source source_id ≡ some (some generation)
  pub plan_there : console.load reference ≡ some stored
  pub server_there : console.server stored.binding.server_profile_id ≡ some server
  pub state_there : console.state_matches ≡ some true
  pub tests :
      (not (text_eq stored.binding.source_profile_id source_id)
        || not (text_eq generation stored.binding.source_profile_sha256)
        || not (is_server_bound server stored.binding))
      ≡ false

generation-inv :
    (console : Console) (profile : Option Text) (generation : Text)
    → current_source_generation console profile ≡ ok generation
    → (profile ≡ some generation) × (console.state_matches ≡ some true)
unfolding current_source_generation
generation-inv console profile generation h =
    let (resolved, e, rest) = >>=-eq-ok (ok_or profile tt) _ h in
    let (matches, f, last) = >>=-eq-ok (ok_or console.state_matches tt) _ rest in
    let (_, g, end) = >>=-eq-ok (refuse_if (not matches) tt) _ last in
    let sure = refuse_if-ok (not matches) tt g in
    (
      ground (arith, ok_or-ok profile tt e, end),
      ground (arith, ok_or-ok console.state_matches tt f, sure),
    )

check_before-Bound :
    (console : Console) (source_id reference : Text)
    (r : Option Text × (StoredUploadPlan × (ServerProfile × Text)))
    → check_before console source_id reference ≡ ok r
    → Bound console source_id reference r.1.0 r.1.1.0 r.1.1.1
unfolding check_before
check_before-Bound console source_id reference r h =
    let (source, a, h1) = >>=-eq-ok (ok_or (console.source source_id) tt) _ h in
    let (stored, b, h2) = >>=-eq-ok (ok_or (console.load reference) tt) _ h1 in
    let (server, c, h3) =
      >>=-eq-ok (ok_or (console.server stored.binding.server_profile_id) tt) _ h2 in
    let (generation, d, h4) = >>=-eq-ok (current_source_generation console source) _ h3 in
    let (_, f, end) = >>=-eq-ok (refuse_if _ tt) _ h4 in
    let (resolves, matches) = generation-inv console source generation d in
    let bound : Bound console source_id reference stored server generation = record {
      source_there =
          ok_or-ok (console.source source_id) tt a ∙ ap (λ (o : Option Text). some o) resolves;
      plan_there = ok_or-ok (console.load reference) tt b;
      server_there = ok_or-ok (console.server stored.binding.server_profile_id) tt c;
      state_there = matches;
      tests = refuse_if-ok _ tt f;
    } in
    let same : (source, (stored, (server, generation))) ≡ r = cc end in
    subst
      (λ (t : Option Text × (StoredUploadPlan × (ServerProfile × Text))).
        Bound console source_id reference t.1.0 t.1.1.0 t.1.1.1)
      same bound

-- A dry run that leaves a binding passed its first tests, and bound what they saw.
record Ran (console : Console) (source_id reference : Text) (binding : DryRunBinding) : Type 0 where
  pub stored : StoredUploadPlan
  pub server : ServerProfile
  pub generation : Text
  pub time : ℤ
  pub bound : Bound console source_id reference stored server generation
  pub made : binding ≡ new_binding console reference stored generation time

execute-Ran :
    (console later last : Console) (source_later : Option Text) (run : OfflineRun)
    (source_id reference : Text) (kind kind' : HistoryKind) (summary : JobSummary)
    (artifact : Option PlanArtifact) (binding : DryRunBinding)
    → execute console later last source_later run source_id reference kind
      ≡ WorkerOutcome.completed kind' summary artifact (some binding)
    → Ran console source_id reference binding
unfolding execute dry_run_completed
execute-Ran console later last source_later run source_id reference kind kind' summary artifact
      binding h =
    elim (Result-cases (check_before console source_id reference)) [
      | inl (_, e) ↦ cc (rw (e, execute) at h)
      | inr (r, e) ↦ by_run r e (verify_offline run r.1.0.plan) refl
    ]
  where
    by_run :
        (r : Option Text × (StoredUploadPlan × (ServerProfile × Text)))
        → check_before console source_id reference ≡ ok r
        → (o : OfflineOutcome) → verify_offline run r.1.0.plan ≡ o
        → Ran console source_id reference binding
    by_run r e OfflineOutcome.cancelled o = cc (rw (e, o, execute) at h)
    by_run r e OfflineOutcome.failed o = cc (rw (e, o, execute) at h)
    by_run r e (OfflineOutcome.completed schema planned) o =
        elim (Result-cases (check_after later last source_later r.1.1.1 r.1.1.0 r.1.0.binding)) [
          | inl (_, f) ↦ cc (rw (e, o, f, execute) at h)
          | inr (t, f) ↦ record {
            stored = r.1.0;
            server = r.1.1.0;
            generation = r.1.1.1;
            time = t;
            bound = check_before-Bound console source_id reference r e;
            made = cc (rw (e, o, f, execute) at h);
          }
        ]

-- What is read for a grant whose receipt holds the binding.
read_for-Ran :
    (console : Console) (grant : GrantBinding) (source_id reference : Text)
    (stored : StoredUploadPlan) (server : ServerProfile) (generation : Text)
    → Bound console source_id reference stored server generation
    → console.dry_run_receipt grant.receipt ≡ some (some grant.dry_run)
    → grant.dry_run.plan_reference ≡ reference
    → grant.source_profile_id ≡ source_id
    → grant.server_profile_id ≡ stored.binding.server_profile_id
    → read_for console grant ≡ ok (grant.dry_run, (stored, (server, (generation, true))))
unfolding read_for
read_for-Ran console grant source_id reference stored server generation bound kept same_plan
      same_source same_server =
    rw
      (
        kept, same_plan, same_source, same_server, bound.plan_there, bound.source_there,
        bound.server_there, bound.state_there, read_for,
      )
      refl

-- The grant of a user for what a dry run of a source has bound.
abbrev grant_for :
    Text → Text → Option Text → Text → StoredUploadPlan → DryRunBinding → GrantBinding
grant_for owner receipt backup source_id stored binding = record {
  owner = owner;
  receipt = receipt;
  dry_run = binding;
  source_profile_id = source_id;
  server_profile_id = stored.binding.server_profile_id;
  backup_reference_sha256 = backup;
}

agrees-new_binding :
    (console : Console) (source_id reference : Text) (stored : StoredUploadPlan)
    (server : ServerProfile) (generation owner receipt : Text) (backup : Option Text) (t : ℤ)
    → Bound console source_id reference stored server generation
    → agrees console
        (grant_for owner receipt backup source_id stored
          (new_binding console reference stored generation t))
        (new_binding console reference stored generation t)
        stored
        server
        generation
        true
      ≡ true
unfolding agrees
agrees-new_binding console source_id reference stored server generation owner receipt backup t
      bound =
    let is_source : text_eq stored.binding.source_profile_id source_id ≡ true =
      ground (arith, bound.tests) in
    let same_inputs : text_eq generation stored.binding.source_profile_sha256 ≡ true =
      ground (arith, bound.tests) in
    let is_bound : is_server_bound server stored.binding ≡ true = ground (arith, bound.tests) in
    rw
      (
        text_eq_refl reference,
        text_eq_refl stored.binding.plan_sha256,
        text_eq_refl
            (source_configuration_digest console generation stored.plan.configuration_sha256),
        text_eq_refl stored.binding.server_identity_sha256,
        text_eq_refl stored.binding.server_profile_sha256,
        text_eq_refl stored.binding.server_profile_id,
        eq_ℤ_refl t,
      )
      (ground (
        arith,
        is_source,
        same_inputs,
        is_bound,
        text_eq_iff generation stored.binding.source_profile_sha256,
        text_eq_iff stored.binding.source_profile_sha256 generation,
      ))

new_binding-current :
    (console : Console) (source_id reference : Text) (stored : StoredUploadPlan)
    (server : ServerProfile) (generation owner receipt : Text) (backup : Option Text) (t : ℤ)
    → Bound console source_id reference stored server generation
    → console.dry_run_receipt receipt
      ≡ some (some (new_binding console reference stored generation t))
    → binding_is_current console (
        grant_for owner receipt backup source_id stored
          (new_binding console reference stored generation t))
      ≡ true
unfolding binding_is_current
new_binding-current console source_id reference stored server generation owner receipt backup t
      bound kept =
    rw
      (
        read_for-Ran console
            (grant_for owner receipt backup source_id stored
              (new_binding console reference stored generation t))
            source_id reference stored server generation bound kept refl refl refl,
        binding_is_current,
      )
      (agrees-new_binding console source_id reference stored server generation owner receipt backup
        t bound)

-- If a dry run completes with a binding, and the store then holds that binding for a receipt while the
-- configuration and the store otherwise say what they said when the dry run began, then a grant for the
-- receipt, the plan's source and its server is current.
pub execute-binding_is_current :
    (console later last : Console) (source_later : Option Text) (run : OfflineRun)
    (source_id reference : Text) (kind kind' : HistoryKind) (summary : JobSummary)
    (artifact : Option PlanArtifact) (binding : DryRunBinding)
    → execute console later last source_later run source_id reference kind
      ≡ WorkerOutcome.completed kind' summary artifact (some binding)
    → (owner receipt : Text) → (backup : Option Text) → (stored : StoredUploadPlan)
    → console.load reference ≡ some stored
    → console.dry_run_receipt receipt ≡ some (some binding)
    → binding_is_current console (grant_for owner receipt backup source_id stored binding) ≡ true
unfolding binding_is_current agrees
execute-binding_is_current console later last source_later run source_id reference kind kind'
      summary artifact binding h owner receipt backup stored loaded kept =
    let ran =
      execute-Ran console later last source_later run source_id reference kind kind' summary
        artifact binding h in
    let same : ran.stored ≡ stored = cc (ran.bound.plan_there, loaded) in
    subst
      (λ (x : StoredUploadPlan).
        binding_is_current console (grant_for owner receipt backup source_id x binding) ≡ true)
      same
      (subst
        (λ (b : DryRunBinding).
          console.dry_run_receipt receipt ≡ some (some b)
          → binding_is_current console (grant_for owner receipt backup source_id ran.stored b)
            ≡ true)
        (sym ran.made)
        (λ k.
          new_binding-current console source_id reference ran.stored ran.server ran.generation owner
            receipt backup ran.time ran.bound k)
        kept)
