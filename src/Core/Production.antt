-- ===== src/Core/Production.antt =====
-- crates/immich-core/src/production.rs: the operator's confirmation of a production write.
use immich_rs.Core.Metadata.{is_empty}
use immich_rs.Common.{
  false, ltb, has_control, ◌||◌, is_trimmed, is_lower_hexdigit, ◌≤◌, not, [], all, ◌&&◌, refuse_if,
  ◌≢◌, arith, ◌>>◌, ◌↔◌, ◌<◌, ◌==◌, true, Result, ok, length, ◌≡◌, Bool, ℕ, Text,
}

pub record ProductionWriteConfirmation : Type 0 where
  pub plan_sha256 : Text
  pub expected_operations : ℕ
  pub backup_reference : Text

pub data ProductionConfirmationError : Type 0 where
  not_acknowledged invalid_plan_digest invalid_operation_count : ProductionConfirmationError
  invalid_backup_reference : ProductionConfirmationError

abbrev pub max_backup_reference_bytes : ℕ
max_backup_reference_bytes = 256

unfoldable pub is_lower_sha256 : Text → Bool
is_lower_sha256 value = length value == 64 && all is_lower_hexdigit value

-- `ProductionWriteConfirmation::new`
unfoldable pub new :
    Bool → Text → ℕ → Text → Result ProductionConfirmationError ProductionWriteConfirmation
new acknowledged plan_sha256 expected_operations backup_reference = do
  refuse_if (not acknowledged) not_acknowledged
  refuse_if (not (is_lower_sha256 plan_sha256)) invalid_plan_digest
  refuse_if (expected_operations == 0) invalid_operation_count
  refuse_if
      (is_empty backup_reference
        || (ltb max_backup_reference_bytes (length backup_reference)
            || (not (is_trimmed backup_reference) || has_control backup_reference)))
      invalid_backup_reference
  ok (record {
    plan_sha256 = plan_sha256;
    expected_operations = expected_operations;
    backup_reference = backup_reference;
  })

-- What a confirmation vouches for.
pub record IsConfirmation (c : ProductionWriteConfirmation) : Type 0 where
  pub digest : is_lower_sha256 c.plan_sha256 ≡ true
  pub budget : 0 < c.expected_operations
  pub named : c.backup_reference ≢ []
  pub bounded : length c.backup_reference ≤ max_backup_reference_bytes
  pub trimmed : is_trimmed c.backup_reference ≡ true
  pub printable : has_control c.backup_reference ≡ false

-- A confirmation is issued exactly for an acknowledged request whose facts are all in order, and it
-- carries those facts unchanged.
pub IsConfirmation-iff :
    (acknowledged : Bool) (digest : Text) (operations : ℕ) (backup : Text)
    (c : ProductionWriteConfirmation)
    → (new acknowledged digest operations backup ≡ ok c) ↔ (
        (acknowledged ≡ true)
        × (c ≡ record {
          plan_sha256 = digest;
          expected_operations = operations;
          backup_reference = backup;
        })
        × IsConfirmation c)
unfolding new
IsConfirmation-iff acknowledged digest operations backup c =
    (λ h. (ground arith, ground arith, ground arith), λ h. ground (arith, h.0, h.1, h.2))
