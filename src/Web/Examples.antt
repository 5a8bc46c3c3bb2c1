-- ===== src/Web/Examples.antt =====
-- A grant that is confirmed, used and asked for again.
use immich_rs.Web.Jobs.Types.{DryRunBinding}
use immich_rs.Web.Grants.Replay.{admit_locked-admit_locked}
use immich_rs.Common.Map
use immich_rs.Web.Grants.{
  existing, settle, pending, consumed, use_entry, admit_locked, GrantEntry, GrantState, new_state,
  ApplyCapability,
}
use immich_rs.Common.{
  pos, contains, refl, arith, ◌≡◌, text_eq, [], ◌∷◌, some, ◌≤◌, ok, str, length, true, Distinct,
  List,
}
use immich_rs.Web.Grants.Single.{revoke, admit, confirm, Call, run, single_use}

abbrev dry_run_binding : DryRunBinding
dry_run_binding = record {
  plan_reference = str "plan";
  plan_sha256 = str "sha";
  source_configuration_sha256 = str "configuration";
  server_identity_sha256 = str "identity";
  server_profile_sha256 = str "server";
  credential_generation = 1;
  max_logical_effects = 2;
  completed_unix = pos 100;
}

abbrev capability : ApplyCapability
capability = record {
  is_production = true;
  binding = record {
    owner = str "owner";
    receipt = str "receipt";
    dry_run = dry_run_binding;
    source_profile_id = str "photos";
    server_profile_id = str "home";
    backup_reference_sha256 = some (str "backup");
  };
}

abbrev calls : List Call
calls =
    confirm (str "owner") (str "receipt") (ok capability) (ok (str "key")) (ok 10)
    ∷ admit (str "owner") (str "receipt") (str "key") 4 (λ c. true) (λ c. ok (str "job"))
    ∷ admit (str "owner") (str "receipt") (str "key") 5 (λ c. true) (λ c. ok (str "other"))
    ∷ revoke (str "owner")
    ∷ []

single_use_example : Distinct (run 3 calls new_state).0 × (length (run 3 calls new_state).0 ≤ 3)
single_use_example = single_use 3 calls

abbrev entry : GrantEntry
entry = record {
  receipt = str "receipt";
  idempotency_key = str "key";
  deadline = 10;
  status = pending (some capability);
}

abbrev before : GrantState
before = record { entries = (str "owner", entry) ∷ []; spent_receipts = [] }

abbrev after : GrantState
after = record {
  entries = (str "owner", record entry { status = consumed (str "job") }) ∷ [];
  spent_receipts = str "receipt" ∷ [];
}

admit_locked-admit_locked_example :
    admit_locked 3
      (λ c. true)
      (λ c. ok (str "job"))
      (str "owner")
      (str "receipt")
      (str "key")
      5
      after
    ≡ (ok (existing (str "job")), after)
unfolding admit_locked use_entry settle Map.get Map.insert text_eq contains
admit_locked-admit_locked_example =
    admit_locked-admit_locked 3 (λ c. true) (λ c. ok (str "job")) (str "owner") (str "receipt")
      (str "key") (str "job") 4 5 entry before after refl (omega arith) refl
