-- ===== src/Executor/Groups/Attempted.antt =====
-- apply.rs, `apply_group`: which operations it attempts.
use immich_rs.Common.{
  arith, is_none, ◌&&◌, [], refl, inl, inr, none, Bool-cases, some, ◌∷◌, All, Any, Option, ◌≤◌,
  List, Text, ◌≡◌,
}
use immich_rs.Executor.Journal.{asset_contract}
use immich_rs.Common.Map
use immich_rs.Common.Map.{Map, contains_key}
use immich_rs.Client.Uploads.{Network}
use immich_rs.Executor.Operation.{failed_outcome, Session}
use immich_rs.Executor.Operation.Attempts.{AllOutcome, IsBudget, apply_lem}
use immich_rs.Executor.Operation.Outcomes.{IsOutcome, apply-IsOutcome}
use immich_rs.Executor.Groups.{
  is_video, is_photo_image, OperationResult, attempt, visit, after_result, OperationGroup,
  VerifiedAsset, GroupResult, OperationOutcome, UploadExecutionConfig, UploadOperation,
  apply_operations, apply_group, with_outcome,
}

-- An outcome of a run over some of the operations: it is about one of them that was not completed
-- before, and keeps the asset contract.
abbrev pub IsAttempt : Map Text → List UploadOperation → OperationOutcome → Type 0
IsAttempt done_before operations outcome =
    Any
      (λ (op : UploadOperation).
        IsOutcome op outcome × (Map.get op.operation_id done_before ≡ none))
      operations

-- What `apply_operations` returns: a result, of such outcomes, with the budget intact.
abbrev Returns :
    {W : Type 0} → Map Text → List UploadOperation → Option GroupResult × Session W → Type 0
Returns done_before operations (none, s) = ⊥
Returns done_before operations (some result, s) =
    IsBudget s.budget × All (IsAttempt done_before operations) result.outcomes

later :
    (done_before : Map Text) (op : UploadOperation) (rest : List UploadOperation)
    (outcomes : List OperationOutcome)
    → All (IsAttempt done_before rest) outcomes
    → All (IsAttempt done_before (op ∷ rest)) outcomes
later done_before op rest [] h = tt
later done_before op rest (o ∷ os) h = (inr h.0, later done_before op rest os h.1)

module _ {W : Type 0} (done_before : Map Text) (op : UploadOperation)
    (rest : List UploadOperation) where
  skipped :
      (end : Option GroupResult × Session W)
      → Returns done_before rest end
      → Returns done_before (op ∷ rest) end
  skipped (none, s) h = h
  skipped (some result, s) h = (h.0, later done_before op rest result.outcomes h.1)

  attempted :
      (outcome : OperationOutcome) (end : Option GroupResult × Session W)
      → IsOutcome op outcome
      → Map.get op.operation_id done_before ≡ none
      → Returns done_before rest end
      → Returns done_before (op ∷ rest) (with_outcome outcome end)
  attempted outcome (none, s) o fresh h = h
  attempted outcome (some result, s) o fresh h =
      (h.0, (inl (o, fresh), later done_before op rest result.outcomes h.1))

never_tried : (op : UploadOperation) → IsOutcome op (failed_outcome op 0)
unfolding failed_outcome asset_contract
never_tried op = ground arith

module _ {W : Type 0} (net : Network W) (sha256 : Text → Text) (config : UploadExecutionConfig)
    (some_attempt : 1 ≤ config.max_attempts_per_operation) (verified : Map VerifiedAsset)
    (done_before : Map Text) where
  module _ (op : UploadOperation) (rest : List UploadOperation)
      (more : Option Text → Session W → Option GroupResult × Session W)
      (ih : (video : Option Text) (s : Session W)
        → IsBudget s.budget
        → Returns done_before rest (more video s)) where
    after_result-Returns :
        (video : Option Text) (result : OperationResult) (s : Session W)
        → Map.get op.operation_id done_before ≡ none
        → IsBudget s.budget
        → AllOutcome (IsOutcome op) result
        → Returns done_before
            (op ∷ rest)
            (after_result net sha256 config verified done_before op video (some result) s more)
    unfolding after_result
    after_result-Returns video (OperationResult.cancelled none) s fresh b good = (b, tt)
    after_result-Returns video (OperationResult.cancelled (some o)) s fresh b good =
        (b, (inl (good, fresh), tt))
    after_result-Returns video (OperationResult.completed o) s fresh b good =
        elim (Bool-cases (is_none o.asset_id && is_video op.role)) [
          | inl stop ↦ rw stop (b, (inl (good, fresh), tt))
          | inr go_on ↦ rw go_on (attempted done_before op rest o _ good fresh (ih _ s b))
        ]

    failed-Returns :
        (video : Option Text) (s : Session W)
        → Map.get op.operation_id done_before ≡ none
        → IsBudget s.budget
        → Returns done_before (op ∷ rest) (with_outcome (failed_outcome op 0) (more video s))
    failed-Returns video s fresh b =
        attempted done_before op rest (failed_outcome op 0) (more video s) (never_tried op) fresh
          (ih video s b)

    attempt-Returns :
        (source : Option VerifiedAsset) (video : Option Text) (s : Session W)
        → Map.get op.operation_id done_before ≡ none
        → IsBudget s.budget
        → Returns done_before
            (op ∷ rest)
            (attempt net sha256 config verified done_before op source video s more)
    unfolding attempt
    attempt-Returns none video s fresh b = failed-Returns video s fresh b
    attempt-Returns (some source) video s fresh b =
        let (result, e, within) = apply_lem net sha256 config op source video s some_attempt b in
        rw e (
          after_result-Returns video result _ fresh within.0
            (apply-IsOutcome net sha256 config op source video s result e))

    visit-Returns :
        (found : Option Text) (video : Option Text) (s : Session W)
        → Map.get op.operation_id done_before ≡ found
        → IsBudget s.budget
        → Returns done_before
            (op ∷ rest)
            (visit net sha256 config verified done_before op found video s more)
    unfolding visit
    visit-Returns (some id) video s found b = skipped done_before op rest _ (ih _ s b)
    visit-Returns none video s fresh b =
        elim (Bool-cases (is_photo_image op.role && is_none video)) [
          | inl waits ↦ rw waits (failed-Returns video s fresh b)
          | inr goes ↦ rw goes (attempt-Returns (Map.get op.operation_id verified) video s fresh b)
        ]

  apply_operations-Returns :
      (operations : List UploadOperation) (video : Option Text) (s : Session W)
      → IsBudget s.budget
      → Returns done_before operations
          (apply_operations net sha256 config verified done_before operations video s)
  unfolding apply_operations
  apply_operations-Returns [] video s b = (b, tt)
  apply_operations-Returns (op ∷ rest) video s b = elim (Bool-cases (net.is_cancelled s.world).0) [
    | inl stop ↦ rw stop (b, tt)
    | inr go_on ↦ rw go_on (
        visit-Returns op rest (apply_operations net sha256 config verified done_before rest)
          (apply_operations-Returns rest) (Map.get op.operation_id done_before) video _ refl b)
  ]

  -- Under a configuration with at least one attempt, and with a retry budget within its maximum, a
  -- group always ends with a result. Each of its outcomes is about an operation of the group that
  -- was not listed as completed before, and keeps the journal's asset contract; the budget stays
  -- within its maximum.
  pub apply_group_lem :
      (group : OperationGroup) (s : Session W)
      → IsBudget s.budget
      → (result : GroupResult) × ((apply_group net sha256 config verified done_before group s).0
          ≡ some result)
        × IsBudget (apply_group net sha256 config verified done_before group s).1.budget
        × All (IsAttempt done_before group.operations) result.outcomes
  unfolding apply_group
  apply_group_lem group s b = read _ (apply_operations-Returns group.operations none s b)
    where
      read :
          (end : Option GroupResult × Session W)
          → Returns done_before group.operations end
          → (result : GroupResult) × (end.0 ≡ some result)
            × IsBudget end.1.budget
            × All (IsAttempt done_before group.operations) result.outcomes
      read (none, s) h = absurd h
      read (some result, s) h = (result, refl, h.0, h.1)
