-- ===== src/Executor/Operation/Outcomes.antt =====
-- operation.rs and journal.rs: the outcome of an upload and the journal's contract.
use immich_rs.Common.{
  zero, inr, none, ◌+◌, inl, refl, suc, err, arith, some, ℕ, true, Option, ok, ◌≡◌, Result, Text,
}
use immich_rs.Client.Uploads.{
  duplicate_check, upload, is_remote_id, UploadResult, DuplicateCheck, Network, duplicate_check-id,
  upload-id,
}
use immich_rs.Executor.Journal.{is_success, OutcomeKind, asset_contract}
use immich_rs.Executor.Operation.{
  cancelled, request, retry_allowed, reconcile_uncertain, send, check, OperationResult,
  after_reconcile, successful, indeterminate_outcome, after_check, after_upload, wait_or,
  failed_outcome, done, VerifiedAsset, UploadExecutionConfig, Round, OperationOutcome, ClientError,
  UploadOperation, apply, loop, round, again, Session,
}
use immich_rs.Executor.Operation.Attempts.{Round-cases, AllOutcome}

-- The outcome is about this operation, and has an asset ID exactly if it is a success.
pub record IsOutcome (operation : UploadOperation) (outcome : OperationOutcome) : Type 0 where
  pub own : outcome.operation_id ≡ operation.operation_id
  pub contract : asset_contract outcome.kind outcome.asset_id ≡ true

-- What a reply may pass on: the asset ID, if there is one, is one that the journal takes.
abbrev IsCheckReply : Result ClientError DuplicateCheck → Type 0
IsCheckReply (ok (DuplicateCheck.duplicate id)) = is_remote_id id ≡ true
IsCheckReply _ = Unit

abbrev IsUploadReply : Result ClientError (UploadResult × Text) → Type 0
IsUploadReply (ok (status, id)) = is_remote_id id ≡ true
IsUploadReply _ = Unit

abbrev IsEnd : UploadOperation → Round → Type 0
IsEnd operation again = Unit
IsEnd operation (done result) = AllOutcome (IsOutcome operation) result

module _ {W : Type 0} (net : Network W) (sha256 : Text → Text) (config : UploadExecutionConfig)
    (operation : UploadOperation) (source : VerifiedAsset) (live_photo_video_id : Option Text) where
  successful-IsOutcome :
      (kind : OutcomeKind) (id : Text) (retries : ℕ)
      → is_success kind ≡ true
      → is_remote_id id ≡ true
      → IsOutcome operation (successful operation kind id retries)
  unfolding successful asset_contract
  successful-IsOutcome kind id retries h k = ground arith

  failed-IsOutcome : (retries : ℕ) → IsOutcome operation (failed_outcome operation retries)
  unfolding failed_outcome asset_contract
  failed-IsOutcome retries = ground arith

  indeterminate-IsOutcome :
      (retries : ℕ) → IsOutcome operation (indeterminate_outcome operation retries)
  unfolding indeterminate_outcome asset_contract
  indeterminate-IsOutcome retries = ground arith

  check-IsCheckReply :
      (s : Session W)
      → IsCheckReply (check net sha256 config operation source live_photo_video_id s).0
  unfolding check
  check-IsCheckReply s =
      reply-id (duplicate_check net operation.operation_id source.sha1_base64 s.world).0
        (duplicate_check-id net operation.operation_id source.sha1_base64 s.world)
    where
      reply-id :
          (reply : Result ClientError DuplicateCheck)
          → ((id : Text) → reply ≡ ok (DuplicateCheck.duplicate id) → is_remote_id id ≡ true)
          → IsCheckReply reply
      reply-id (ok (DuplicateCheck.duplicate id)) h = h id refl
      reply-id (ok DuplicateCheck.accept) h = tt
      reply-id (err _) h = tt

  send-IsUploadReply :
      (s : Session W)
      → IsUploadReply (send net sha256 config operation source live_photo_video_id s).0
  unfolding send
  send-IsUploadReply s =
      reply-id
        (upload net (request net sha256 config operation source live_photo_video_id) s.world).0
        (upload-id net (request net sha256 config operation source live_photo_video_id) s.world)
    where
      reply-id :
          (reply : Result ClientError (UploadResult × Text))
          → ((status : UploadResult) (id : Text) → reply ≡ ok (status, id) → is_remote_id id ≡ true)
          → IsUploadReply reply
      reply-id (ok (status, id)) h = h status id refl
      reply-id (err _) h = tt

  wait_or-IsEnd :
      (error : ClientError) (retries : ℕ) (stopped : OperationResult) (s : Session W)
      → AllOutcome (IsOutcome operation) stopped
      → IsEnd operation
          (wait_or net sha256 config operation source live_photo_video_id error retries stopped s).0
  unfolding wait_or
  wait_or-IsEnd error retries stopped s h = ground arith

  after_reconcile-AllOutcome :
      (retries : ℕ) (reply : Result ClientError DuplicateCheck) (s : Session W)
      → IsCheckReply reply
      → AllOutcome
          (IsOutcome operation)
          (after_reconcile net sha256 config operation source live_photo_video_id retries reply s).0
  unfolding after_reconcile
  after_reconcile-AllOutcome retries (ok (DuplicateCheck.duplicate id)) s h =
      successful-IsOutcome OutcomeKind.duplicate id retries refl h
  after_reconcile-AllOutcome retries (ok DuplicateCheck.accept) s h =
      ground (arith, indeterminate-IsOutcome retries)
  after_reconcile-AllOutcome retries (err _) s h = ground (arith, indeterminate-IsOutcome retries)

  after_upload-IsEnd :
      (retries : ℕ) (reply : Result ClientError (UploadResult × Text)) (s : Session W)
      → IsUploadReply reply
      → IsEnd operation
          (after_upload net sha256 config operation source live_photo_video_id retries reply s).0
  unfolding after_upload reconcile_uncertain
  after_upload-IsEnd retries (ok (UploadResult.created, id)) s h =
      successful-IsOutcome OutcomeKind.created id retries refl h
  after_upload-IsEnd retries (ok (UploadResult.duplicate, id)) s h =
      successful-IsOutcome OutcomeKind.duplicate id retries refl h
  after_upload-IsEnd retries (err error) s h =
      let s' =
        (retry_allowed net sha256 config operation source live_photo_video_id error retries s).1 in
      let stop : OperationResult = cancelled (some (indeterminate_outcome operation retries)) in
      let checked = check net sha256 config operation source live_photo_video_id s' in
      ground (
        arith,
        indeterminate-IsOutcome retries,
        failed-IsOutcome retries,
        wait_or-IsEnd error retries stop s' (indeterminate-IsOutcome retries),
        after_reconcile-AllOutcome retries checked.0 checked.1 (check-IsCheckReply s'),
      )

  after_check-IsEnd :
      (retries : ℕ) (reply : Result ClientError DuplicateCheck) (s : Session W)
      → IsCheckReply reply
      → IsEnd operation
          (after_check net sha256 config operation source live_photo_video_id retries reply s).0
  unfolding after_check
  after_check-IsEnd retries (ok (DuplicateCheck.duplicate id)) s h =
      successful-IsOutcome OutcomeKind.duplicate id retries refl h
  after_check-IsEnd retries (ok DuplicateCheck.accept) s h =
      after_upload-IsEnd retries (send net sha256 config operation source live_photo_video_id s).0
        (send net sha256 config operation source live_photo_video_id s).1 (send-IsUploadReply s)
  after_check-IsEnd retries (err error) s h =
      let s' =
        (retry_allowed net sha256 config operation source live_photo_video_id error retries s).1 in
      ground (arith, failed-IsOutcome retries, wait_or-IsEnd error retries (cancelled none) s' tt)

  round-IsEnd :
      (retries : ℕ) (s : Session W)
      → IsEnd operation (round net sha256 config operation source live_photo_video_id retries s).0
  unfolding round
  round-IsEnd retries s =
      after_check-IsEnd retries (check net sha256 config operation source live_photo_video_id s).0
        (check net sha256 config operation source live_photo_video_id s).1 (check-IsCheckReply s)

  loop-AllOutcome :
      (fuel retries : ℕ) (s : Session W) (result : OperationResult)
      → (loop net sha256 config operation source live_photo_video_id fuel retries s).0 ≡ some result
      → AllOutcome (IsOutcome operation) result
  unfolding loop
  loop-AllOutcome zero retries s result h = absurd (ground arith)
  loop-AllOutcome (suc fuel) retries s result h =
      let first = round net sha256 config operation source live_photo_video_id retries s in
      elim (Round-cases first.0) [
        | inl more ↦ loop-AllOutcome fuel (retries + 1) first.1 result (rw (more, loop) at h)
        | inr (other, over) ↦
            let same : some other ≡ some result = rw (over, loop) at h in
            let ends : AllOutcome (IsOutcome operation) other =
              rw (over, IsEnd) at (round-IsEnd retries s) in
            let equal : result ≡ other = ground arith in rw equal ends
      ]

  -- Whatever the server answers, the outcome that an upload ends with bears the operation's own ID and
  -- keeps the journal's contract: a valid asset ID with a success, and none otherwise.
  pub apply-IsOutcome :
      (s : Session W) (result : OperationResult)
      → (apply net sha256 config operation source live_photo_video_id s).0 ≡ some result
      → AllOutcome (IsOutcome operation) result
  unfolding apply
  apply-IsOutcome s result h = loop-AllOutcome config.max_attempts_per_operation 0 s result h
