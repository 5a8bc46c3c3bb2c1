-- ===== src/Executor/Operation.antt =====
-- crates/immich-executor/src/operation.rs: one upload with its duplicate checks and retries.
pub mod Attempts
pub mod Outcomes
use immich_rs.Common.{
  ltb, err, zero, ◌&&◌, false, ok, suc, ◌+◌, if◌then◌else◌, Result, true, Option, some, none, Bool,
  ℕ, Text,
}
use immich_rs.Client.Errors as Errors
use immich_rs.Client.Errors.{ClientError, is_retryable, timeout, disconnect, is_cancelled_class}
use immich_rs.Client.Uploads.{
  DuplicateCheck, UploadRequest, UploadResult, Network, duplicate_check, upload,
}
use immich_rs.Client.Uploads as Uploads
use immich_rs.Core.Upload.{UploadOperation}
use immich_rs.Executor.Config.{UploadExecutionConfig}
use immich_rs.Executor.Retry.{RetryBudget, claim, delay}
use immich_rs.Executor.Journal.{OutcomeKind, created, duplicate, failed, indeterminate}

-- What `verify_source` found of the file; the paths are read by the transport only.
pub record VerifiedAsset : Type 0 where
  pub file_name : Text
  pub sha1_base64 : Text
  pub xmp_len : Option ℕ

pub record OperationOutcome : Type 0 where
  pub operation_id : Text
  pub kind : OutcomeKind
  pub asset_id : Option Text
  pub retries : ℕ

pub data OperationResult : Type 0 where
  completed : OperationOutcome → OperationResult
  cancelled : Option OperationOutcome → OperationResult

-- The end of one round of the loop: return, or `retries += 1` and go round again.
pub data Round : Type 0 where
  done : OperationResult → Round
  again : Round

abbrev pub uncertain_class : Errors.ClientErrorClass → Bool
uncertain_class Errors.disconnect = true
uncertain_class Errors.timeout = true
uncertain_class _ = false

unfoldable pub uncertain : ClientError → Bool
uncertain error = uncertain_class error.class

module _ (operation : UploadOperation) where
  unfoldable pub successful : OutcomeKind → Text → ℕ → OperationOutcome
  successful kind asset_id retries = record {
    operation_id = operation.operation_id;
    kind = kind;
    asset_id = some asset_id;
    retries = retries;
  }

  unfoldable pub failed_outcome : ℕ → OperationOutcome
  failed_outcome retries = record {
    operation_id = operation.operation_id;
    kind = failed;
    asset_id = none;
    retries = retries;
  }

  unfoldable pub indeterminate_outcome : ℕ → OperationOutcome
  indeterminate_outcome retries = record {
    operation_id = operation.operation_id;
    kind = indeterminate;
    asset_id = none;
    retries = retries;
  }

-- The state that an operation works on: everything outside, and the budget that the run shares.
pub record Session (W : Type 0) : Type 0 where
  pub world : W
  pub budget : RetryBudget

abbrev pub kind_of : UploadResult → OutcomeKind
kind_of Uploads.UploadResult.created = created
kind_of Uploads.UploadResult.duplicate = duplicate

module _ {W : Type 0} (net : Network W) (sha256 : Text → Text) (config : UploadExecutionConfig)
    (operation : UploadOperation) (source : VerifiedAsset) (live_photo_video_id : Option Text) where
  -- `retry_allowed`: the budget is claimed only if the other two tests pass.
  unfoldable pub retry_allowed : ClientError → ℕ → Session W → Bool × Session W
  retry_allowed error retries s =
      if is_retryable error && ltb (retries + 1) config.max_attempts_per_operation
      then ((claim s.budget).1, record s { budget = (claim s.budget).0 })
      else (false, s)

  -- `retry::wait(delay, cancellation)`, with what follows when the delay passed and when it did not.
  unfoldable pub wait_or : ClientError → ℕ → OperationResult → Session W → Round × Session W
  wait_or error retries stopped s =
      let (slept, w) =
        net.wait (delay sha256 operation.operation_id (retries + 1) error config) s.world in
      (if slept then again else done stopped, record s { world = w })

  unfoldable pub check : Session W → Result ClientError DuplicateCheck × Session W
  check s =
      let (reply, w) = duplicate_check net operation.operation_id source.sha1_base64 s.world in
      (reply, record s { world = w })

  unfoldable pub request : UploadRequest
  request = record {
    operation_id = operation.operation_id;
    file_name = source.file_name;
    media_len = operation.byte_len;
    sha1_base64 = source.sha1_base64;
    created_at_unix_ms = operation.created_at_unix_ms;
    modified_at_unix_ms = operation.modified_at_unix_ms;
    xmp_len = source.xmp_len;
    live_photo_video_id = live_photo_video_id;
  }

  unfoldable pub send : Session W → Result ClientError (UploadResult × Text) × Session W
  send s = let (reply, w) = upload net request s.world in (reply, record s { world = w })

  -- The `match check` of `reconcile_uncertain`.
  unfoldable pub after_reconcile :
      ℕ → Result ClientError DuplicateCheck → Session W → OperationResult × Session W
  after_reconcile retries (ok (DuplicateCheck.duplicate asset_id)) s =
      (completed (successful operation duplicate asset_id retries), s)
  after_reconcile retries _ s =
      let (stop, w) = net.is_cancelled s.world in
      (
        (if stop
            then cancelled (some (indeterminate_outcome operation retries))
            else completed (indeterminate_outcome operation retries)),
        record s { world = w },
      )

  unfoldable pub reconcile_uncertain : ℕ → Session W → OperationResult × Session W
  reconcile_uncertain retries s = let (reply, s') = check s in after_reconcile retries reply s'

  -- The `match client.upload(..)`.
  unfoldable pub after_upload :
      ℕ → Result ClientError (UploadResult × Text) → Session W → Round × Session W
  after_upload retries (ok (status, asset_id)) s =
      (done (completed (successful operation (kind_of status) asset_id retries)), s)
  after_upload retries (err error) s =
      let (allowed, s') = retry_allowed error retries s in
      let (result, s'') = reconcile_uncertain retries s' in
      if is_cancelled_class error.class
      then (done (cancelled (some (indeterminate_outcome operation retries))), s)
      else if allowed
      then wait_or error retries (cancelled (some (indeterminate_outcome operation retries))) s'
      else if uncertain error
      then (done result, s'')
      else (done (completed (failed_outcome operation retries)), s')

  -- The `match duplicate`.
  unfoldable pub after_check : ℕ → Result ClientError DuplicateCheck → Session W → Round × Session W
  after_check retries (ok (DuplicateCheck.duplicate asset_id)) s =
      (done (completed (successful operation duplicate asset_id retries)), s)
  after_check retries (ok DuplicateCheck.accept) s =
      let (reply, s') = send s in after_upload retries reply s'
  after_check retries (err error) s =
      let (allowed, s') = retry_allowed error retries s in
      if is_cancelled_class error.class
      then (done (cancelled none), s)
      else if allowed
      then wait_or error retries (cancelled none) s'
      else (done (completed (failed_outcome operation retries)), s')

  unfoldable pub round : ℕ → Session W → Round × Session W
  round retries s = let (reply, s') = check s in after_check retries reply s'

  -- The loop of `apply`; `none` only if the fuel runs out.
  unfoldable pub loop : ℕ → ℕ → Session W → Option OperationResult × Session W
  loop zero retries s = (none, s)
  loop (suc fuel) retries s =
      let (end, s') = round retries s in
      elim end [ done result ↦ (some result, s') | again ↦ loop fuel (retries + 1) s' ]

  -- `apply`: as many rounds as there are attempts.
  unfoldable pub apply : Session W → Option OperationResult × Session W
  unfolding loop
  apply s = loop config.max_attempts_per_operation 0 s
