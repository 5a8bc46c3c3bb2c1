-- ===== src/Web/Grants.antt =====
-- crates/immich-web/src/grants.rs: a grant lets its owner start one production or test write for one
-- dry-run receipt. The state behind the mutex changes in one call at a time.
pub mod Single
pub mod Replay
use immich_rs.Common.{
  is_some, length, leb, ◌||◌, text_eq, refuse_if, not, contains, some, if◌then◌else◌, ◌∷◌, ◌>>◌,
  none, err, ◌>>=◌, ok, List, [], Text, Result, Option, Bool, ℕ,
}
use immich_rs.Common.Map
use immich_rs.Web.Jobs.Types.{AdmissionError, DryRunBinding}
use immich_rs.Common.Map.{Map}

pub record GrantBinding : Type 0 where
  pub owner : Text
  pub receipt : Text
  pub dry_run : DryRunBinding
  pub source_profile_id : Text
  pub server_profile_id : Text
  pub backup_reference_sha256 : Option Text

-- What `prepare` returns; of the prepared upload, whether it is for production.
pub record ApplyCapability : Type 0 where
  pub is_production : Bool
  pub binding : GrantBinding

pub data GrantStatus : Type 0 where
  pending : Option ApplyCapability → GrantStatus
  consumed : Text → GrantStatus

-- Receipts and owners are byte strings; instants are numbers.
pub record GrantEntry : Type 0 where
  pub receipt : Text
  pub idempotency_key : Text
  pub deadline : ℕ
  pub status : GrantStatus

pub record GrantState : Type 0 where
  pub entries : Map GrantEntry
  pub spent_receipts : List Text

pub data GrantError : Type 0 where
  invalid expired unavailable : GrantError
  admission : AdmissionError → GrantError

pub data GrantAdmission : Type 0 where
  admitted : Text → GrantAdmission
  existing : Text → GrantAdmission

-- `GrantStore::new`
unfoldable pub new_state : GrantState
new_state = record { entries = []; spent_receipts = [] }

abbrev without : Text → GrantState → GrantState
without owner s = record s { entries = Map.remove owner s.entries }

-- The entry that `confirm_at` inserts, with what `prepare`, `random_idempotency_key` and `checked_add`
-- returned.
unfoldable pub new_entry :
    Text
    → Result GrantError ApplyCapability
    → Result GrantError Text
    → Result GrantError ℕ
    → GrantState
    → Result GrantError GrantEntry
new_entry receipt prepared random checked s = do
  capability ← prepared
  idempotency_key ← random
  deadline ← checked
  refuse_if (contains receipt s.spent_receipts) GrantError.invalid
  ok (record {
    receipt = capability.binding.receipt;
    idempotency_key = idempotency_key;
    deadline = deadline;
    status = pending (some capability);
  })

unfoldable pub confirm_at :
    Text
    → Text
    → Result GrantError ApplyCapability
    → Result GrantError Text
    → Result GrantError ℕ
    → GrantState
    → Result GrantError Text × GrantState
confirm_at owner receipt prepared random checked s =
    elim (new_entry receipt prepared random checked s) [
      | err e ↦ (err e, s)
      | ok entry ↦
          (ok entry.idempotency_key, record s { entries = Map.insert owner entry s.entries })
    ]

unfoldable pub revoke_owner : Text → GrantState → GrantState
revoke_owner owner s = without owner s

-- `history_retained_rows`, whether a binding is current, and the admission of the job.
module _ (history_retained_rows : ℕ) (is_current : ApplyCapability → Bool)
    (admit : ApplyCapability → Result AdmissionError Text) where
  -- The `match admit(*capability)`.
  unfoldable pub settle :
      Text
      → Text
      → GrantEntry
      → Result AdmissionError Text
      → GrantState
      → Result GrantError GrantAdmission × GrantState
  settle owner receipt entry (ok job_id) s = (
    ok (admitted job_id),
    record {
      entries = Map.insert owner (record entry { status = consumed job_id }) s.entries;
      spent_receipts = receipt ∷ s.spent_receipts;
    },
  )
  settle owner receipt entry (err error) s = (err (admission error), without owner s)

  -- The tests on the status, the spent receipts and the slot; a slot is found empty only if a call
  -- before took it and left.
  unfoldable pub use_entry :
      Text
      → Text
      → GrantEntry
      → GrantStatus
      → GrantState
      → Result GrantError GrantAdmission × GrantState
  use_entry owner receipt entry (consumed job_id) s = (ok (existing job_id), s)
  use_entry owner receipt entry (pending slot) s =
      if contains receipt s.spent_receipts || leb history_retained_rows (length s.spent_receipts)
      then (err GrantError.unavailable, without owner s)
      else elim slot [
        | none ↦ (err GrantError.unavailable, s)
        | some capability ↦
            if not (
                if capability.is_production
                then is_some capability.binding.backup_reference_sha256
                else not (is_some capability.binding.backup_reference_sha256))
              || not (is_current capability)
            then (err GrantError.invalid, without owner s)
            else settle owner receipt entry (admit capability) s
      ]

  unfoldable pub admit_locked :
      Text → Text → Text → ℕ → GrantState → Result GrantError GrantAdmission × GrantState
  admit_locked owner receipt idempotency_key now s = elim (Map.get owner s.entries) [
    | none ↦ (err GrantError.invalid, s)
    | some entry ↦
        if not (text_eq entry.receipt receipt)
          || not (text_eq entry.idempotency_key idempotency_key)
        then (err GrantError.invalid, s)
        else if leb entry.deadline now
        then (err GrantError.expired, without owner s)
        else use_entry owner receipt entry entry.status s
  ]
