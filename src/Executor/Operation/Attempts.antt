-- ===== src/Executor/Operation/Attempts.antt =====
-- operation.rs, the loop of `apply`: how often it goes round, and what it takes from the budget.
use immich_rs.Common.{
  zero, suc, ◌⊎◌, refl, inr, inl, Bool-cases, err, ok, none, some, Result, arith, true, false,
  Option, AllSome, ◌<◌, ◌+◌, u32_max, ◌≤◌, ◌≡◌,
}
use immich_rs.Client.Uploads.{UploadResult, DuplicateCheck, Network}
use immich_rs.Executor.Retry.{claim}
use immich_rs.Executor.Operation.{
  loop, apply, is_cancelled_class, failed_outcome, send, check, wait_or, round, after_upload,
  after_check, reconcile_uncertain, indeterminate_outcome, successful, ClientError, retry_allowed,
  after_reconcile, done, cancelled, VerifiedAsset, UploadOperation, completed, Round,
  UploadExecutionConfig, OperationResult, OperationOutcome, RetryBudget, Text, ℕ, again, Session,
}

-- The budget is within its maximum, which is a u32.
abbrev pub IsBudget : RetryBudget → Type 0
IsBudget budget = (budget.used ≤ budget.maximum) × (budget.maximum ≤ u32_max)

-- The outcome of an operation, if the result has one, satisfies the predicate.
abbrev pub AllOutcome : (OperationOutcome → Type 0) → OperationResult → Type 0
AllOutcome P (completed outcome) = P outcome
AllOutcome P (cancelled outcome) = AllSome P outcome

-- The budget after a call that claimed `n` retries of it.
abbrev Spent : ℕ → RetryBudget → RetryBudget → Type 0
Spent n before after =
    IsBudget after × (after.maximum ≡ before.maximum) × (after.used ≡ before.used + n)

-- What an operation that has gone round `retries` times may still do to the budget, and the number of
-- retries that its outcome has.
abbrev pub Within : ℕ → ℕ → RetryBudget → RetryBudget → OperationResult → Type 0
Within max retries before after result =
    IsBudget after
    × (after.maximum ≡ before.maximum)
    × (after.used + retries < before.used + max)
    × (before.used ≤ after.used)
    × AllOutcome (λ o. (o.retries < max) × (before.used + o.retries ≤ after.used + retries)) result

-- The end of one round.
abbrev Ends : {W : Type 0} → ℕ → ℕ → RetryBudget → Round × Session W → Type 0
Ends max retries before (again, after) = (retries + 1 < max) × Spent 1 before after.budget
Ends max retries before (done result, after) = Within max retries before after.budget result

pub Round-cases : (end : Round) → (end ≡ again) ⊎ ((result : OperationResult) × (end ≡ done result))
Round-cases again = inl refl
Round-cases (done result) = inr (result, refl)

module _ {W : Type 0} (net : Network W) (sha256 : Text → Text) (config : UploadExecutionConfig)
    (operation : UploadOperation) (source : VerifiedAsset) (live_photo_video_id : Option Text) where
  abbrev max : ℕ
  max = config.max_attempts_per_operation

  retry_allowed-true :
      (error : ClientError) (retries : ℕ) (s : Session W)
      → IsBudget s.budget
      → (retry_allowed net sha256 config operation source live_photo_video_id error retries s).0
        ≡ true
      → (retries + 1 < max)
        × Spent 1 s.budget
            (retry_allowed net sha256 config operation source live_photo_video_id error retries
              s).1.budget
  unfolding retry_allowed claim
  retry_allowed-true error retries s b h = ground arith

  retry_allowed-false :
      (error : ClientError) (retries : ℕ) (s : Session W)
      → (retry_allowed net sha256 config operation source live_photo_video_id error retries s).0
        ≡ false
      → (retry_allowed net sha256 config operation source live_photo_video_id error retries
          s).1.budget
        ≡ s.budget
  unfolding retry_allowed claim
  retry_allowed-false error retries s h = ground arith

  after_reconcile-Within :
      (retries : ℕ) (reply : Result ClientError DuplicateCheck) (s : Session W)
      → IsBudget s.budget
      → retries < max
      → Within max retries s.budget
          (after_reconcile net sha256 config operation source live_photo_video_id retries reply
            s).1.budget
          (after_reconcile net sha256 config operation source live_photo_video_id retries reply s).0
  unfolding after_reconcile successful indeterminate_outcome
  after_reconcile-Within retries reply s b lt = ground arith

  reconcile_uncertain-Within :
      (retries : ℕ) (s : Session W)
      → IsBudget s.budget
      → retries < max
      → Within max retries s.budget
          (reconcile_uncertain net sha256 config operation source live_photo_video_id retries
            s).1.budget
          (reconcile_uncertain net sha256 config operation source live_photo_video_id retries s).0
  unfolding reconcile_uncertain check
  reconcile_uncertain-Within retries s b lt =
      after_reconcile-Within retries
        (check net sha256 config operation source live_photo_video_id s).0
        (check net sha256 config operation source live_photo_video_id s).1 b lt

  -- A wait after a claim that the budget granted.
  wait_or-Ends :
      (error : ClientError) (retries : ℕ) (before : RetryBudget) (stopped : OperationResult)
      (s : Session W)
      → retries + 1 < max
      → Spent 1 before s.budget
      → AllOutcome (λ o. o.retries ≡ retries) stopped
      → Ends max retries before
          (wait_or net sha256 config operation source live_photo_video_id error retries stopped s)
  unfolding wait_or
  wait_or-Ends error retries before (completed o) s lt spent same = ground arith
  wait_or-Ends error retries before (cancelled none) s lt spent same = ground arith
  wait_or-Ends error retries before (cancelled (some o)) s lt spent same = ground arith

  after_upload-Ends :
      (retries : ℕ) (reply : Result ClientError (UploadResult × Text)) (s : Session W)
      → IsBudget s.budget
      → retries < max
      → Ends max retries s.budget
          (after_upload net sha256 config operation source live_photo_video_id retries reply s)
  unfolding after_upload successful indeterminate_outcome failed_outcome
  after_upload-Ends retries (ok (status, id)) s b lt = ground arith
  after_upload-Ends retries (err error) s b lt =
      let allowed =
        retry_allowed net sha256 config operation source live_photo_video_id error retries s in
      elim (Bool-cases (is_cancelled_class error.class)) [
        | inl c ↦ rw c (ground arith)
        | inr c ↦ rw c (elim (Bool-cases allowed.0) [
          | inl granted ↦ rw granted (
              let (more, spent) = retry_allowed-true error retries s b granted in
              wait_or-Ends error retries s.budget
                (cancelled (some (indeterminate_outcome operation retries))) allowed.1 more spent
                refl)
          | inr denied ↦ rw denied (
              let same : allowed.1.budget ≡ s.budget = retry_allowed-false error retries s denied in
              let within = reconcile_uncertain-Within retries allowed.1 (rw same b) lt in
              ground (arith, same, within))
        ])
      ]

  after_check-Ends :
      (retries : ℕ) (reply : Result ClientError DuplicateCheck) (s : Session W)
      → IsBudget s.budget
      → retries < max
      → Ends max retries s.budget
          (after_check net sha256 config operation source live_photo_video_id retries reply s)
  unfolding after_check send successful failed_outcome
  after_check-Ends retries (ok (DuplicateCheck.duplicate id)) s b lt = ground arith
  after_check-Ends retries (ok DuplicateCheck.accept) s b lt =
      after_upload-Ends retries (send net sha256 config operation source live_photo_video_id s).0
        (send net sha256 config operation source live_photo_video_id s).1 b lt
  after_check-Ends retries (err error) s b lt =
      let allowed =
        retry_allowed net sha256 config operation source live_photo_video_id error retries s in
      elim (Bool-cases (is_cancelled_class error.class)) [
        | inl c ↦ rw c (ground arith)
        | inr c ↦ rw c (elim (Bool-cases allowed.0) [
          | inl granted ↦ rw granted (
              let (more, spent) = retry_allowed-true error retries s b granted in
              wait_or-Ends error retries s.budget (cancelled none) allowed.1 more spent tt)
          | inr denied ↦ rw denied (ground (arith, retry_allowed-false error retries s denied))
        ])
      ]

  round-Ends :
      (retries : ℕ) (s : Session W)
      → IsBudget s.budget
      → retries < max
      → Ends max retries s.budget
          (round net sha256 config operation source live_photo_video_id retries s)
  unfolding round check
  round-Ends retries s b lt =
      after_check-Ends retries (check net sha256 config operation source live_photo_video_id s).0
        (check net sha256 config operation source live_photo_video_id s).1 b lt

  -- With as many rounds to go as there are attempts left, the loop ends with a result.
  loop-Within :
      (fuel retries : ℕ) (s : Session W)
      → IsBudget s.budget
      → retries < max
      → max ≤ fuel + retries
      → (result : OperationResult) × ((loop net sha256 config operation source live_photo_video_id
            fuel retries s).0
          ≡ some result)
        × Within max retries s.budget
            (loop net sha256 config operation source live_photo_video_id fuel retries s).1.budget
            result
  unfolding loop
  loop-Within zero retries s b lt enough = absurd (omega arith)
  loop-Within (suc fuel) retries s b lt enough =
      let first = round net sha256 config operation source live_photo_video_id retries s in
      let ends : Ends max retries s.budget first = round-Ends retries s b lt in
      elim (Round-cases first.0) [
        | inl more ↦
            let next : (retries + 1 < max) × Spent 1 s.budget first.1.budget =
              rw (more, Ends) at ends in
            let (result, e, w) =
              loop-Within fuel (retries + 1) first.1 next.1.0 next.0 (omega arith) in
            rw (more, loop) (result, e, ground arith)
        | inr (result, over) ↦ rw (over, loop) (result, refl, rw (over, Ends) at ends)
      ]

  -- Under a configuration with at least one attempt, and with a retry budget within its maximum, the
  -- upload of one operation always ends with a result, however the server answers. The retries of
  -- its outcome are fewer than the attempts and were all claimed from the budget that the run
  -- shares, which stays within its maximum and loses fewer retries than there are attempts.
  pub apply_lem :
      (s : Session W)
      → 1 ≤ config.max_attempts_per_operation
      → IsBudget s.budget
      → (result : OperationResult) × ((apply net sha256 config operation source live_photo_video_id
            s).0
          ≡ some result)
        × Within config.max_attempts_per_operation 0 s.budget
            (apply net sha256 config operation source live_photo_video_id s).1.budget
            result
  unfolding apply
  apply_lem s some_attempt b = loop-Within max 0 s b (omega arith) (omega arith)
