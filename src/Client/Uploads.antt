-- ===== src/Client/Uploads.antt =====
-- crates/immich-client/src/upload.rs: the checks of requests and responses around the transport.
use immich_rs.Core.Metadata.{is_empty}
use immich_rs.Common.{
  ℤ, is_none_or, ltb, length, leb, has_separator, arith, none, ◌>>=◌, [], ◌&&◌, text_eq, true, some,
  if◌then◌else◌, ◌∷◌, ok, not, err, Result, ◌≡◌, Option, List, Bool, ℕ, Text,
}
use immich_rs.Client.Errors.{cancelled, ClientError, ClientErrorClass, protocol}
use immich_rs.Client.Errors as Errors

pub data BulkCheckAction : Type 0 where
  accept reject : BulkCheckAction

pub record BulkCheckResult : Type 0 where
  pub id : Text
  pub action : BulkCheckAction
  pub asset_id : Option Text

pub data UploadResult : Type 0 where
  created duplicate : UploadResult

-- `status` is an `UploadStatus`, which has the same two values.
pub record UploadResponse : Type 0 where
  pub id : Text
  pub status : UploadResult

pub data DuplicateCheck : Type 0 where
  accept : DuplicateCheck
  duplicate : Text → DuplicateCheck

-- The paths of the two files are left out: only the transport opens them.
pub record UploadRequest : Type 0 where
  pub operation_id : Text
  pub file_name : Text
  pub media_len : ℕ
  pub sha1_base64 : Text
  pub created_at_unix_ms : ℤ
  pub modified_at_unix_ms : ℤ
  pub xmp_len : Option ℕ
  pub live_photo_video_id : Option Text

abbrev pub fails : {A : Type 0} → Result ClientError A
fails = err (Errors.new protocol)

-- `!id.is_empty() && id.len() <= 4_096`
abbrev pub is_remote_id : Text → Bool
is_remote_id id = not (is_empty id) && leb (length id) 4096

unfoldable pub duplicate_of : BulkCheckAction → Option Text → Result ClientError DuplicateCheck
duplicate_of BulkCheckAction.accept none = ok accept
duplicate_of BulkCheckAction.reject (some asset_id) =
    if is_remote_id asset_id then ok (duplicate asset_id) else fails
duplicate_of _ _ = fails

-- The end of `duplicate_check`: exactly one result, for the operation that was asked about.
unfoldable pub read_check : Text → List BulkCheckResult → Result ClientError DuplicateCheck
unfolding duplicate_of
read_check operation_id (result ∷ []) =
    if text_eq result.id operation_id then duplicate_of result.action result.asset_id else fails
read_check operation_id _ = fails

-- The end of `upload`.
unfoldable pub read_upload : UploadResponse → Result ClientError (UploadResult × Text)
read_upload body = if is_remote_id body.id then ok (body.status, body.id) else fails

unfoldable pub validate_upload_request : UploadRequest → Result ClientError (Unit {0})
validate_upload_request request =
    if not (is_empty request.operation_id)
      && (not (is_empty request.file_name)
          && (not (has_separator request.file_name)
              && (ltb 0 request.media_len
                  && (not (is_empty request.sha1_base64)
                      && (leb (length request.sha1_base64) 128
                          && (is_none_or request.live_photo_video_id is_remote_id
                              && is_none_or request.xmp_len (λ len. ltb 0 len)))))))
    then ok tt
    else fails

-- The transport and the server: each call may change anything that a later call sees. The posts stand
-- for building and sending one request and decoding its bounded body, and return the failure's class
-- otherwise.
pub record Network (W : Type 0) : Type 0 where
  pub post_check : Text → Text → W → Result ClientError (List BulkCheckResult) × W
  pub post_upload : UploadRequest → W → Result ClientError UploadResponse × W
  -- `retry::wait`: true after the delay, false if cancellation came first
  pub wait : ℕ → W → Bool × W
  -- `cancellation.is_cancelled()`
  pub is_cancelled : W → Bool × W

module _ {W : Type 0} (net : Network W) where
  -- `ImmichUploadClient::duplicate_check`
  unfoldable pub duplicate_check : Text → Text → W → Result ClientError DuplicateCheck × W
  duplicate_check operation_id sha1 w =
      let (stop, w1) = net.is_cancelled w in
      let (reply, w2) = net.post_check operation_id sha1 w1 in
      if stop
      then (err (Errors.new cancelled), w1)
      else (do results ← reply; read_check operation_id results, w2)

  -- `ImmichUploadClient::upload`: an invalid request is refused before anything is sent.
  unfoldable pub upload : UploadRequest → W → Result ClientError (UploadResult × Text) × W
  upload request w =
      let (stop, w1) = net.is_cancelled w in
      let (reply, w2) = net.post_upload request w1 in
      if stop then (err (Errors.new cancelled), w1) else (elim (validate_upload_request request) [
        | err e ↦ (err e, w1)
        | ok _ ↦ (do body ← reply; read_upload body, w2)
      ])

  -- Whatever the server answers, an asset ID that the client passes on is nonempty and at most 4,096
  -- bytes long.
  pub duplicate_check-id :
      (operation_id sha1 : Text) (w : W) (id : Text)
      → (duplicate_check operation_id sha1 w).0 ≡ ok (duplicate id)
      → is_remote_id id ≡ true
  unfolding duplicate_check read_check
  duplicate_check-id operation_id sha1 w id h = ground arith

  pub upload-id :
      (request : UploadRequest) (w : W) (status : UploadResult) (id : Text)
      → (upload request w).0 ≡ ok (status, id)
      → is_remote_id id ≡ true
  unfolding upload read_upload
  upload-id request w status id h = ground arith
