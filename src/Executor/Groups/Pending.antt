-- ===== src/Executor/Groups/Pending.antt =====
-- apply.rs, `pending_groups`: which groups a run starts.
use immich_rs.Common.{◌&&◌, ◌⊎◌, false, true, [], ◌∷◌, some, List, Text, ◌≡◌, Any}
use immich_rs.Common.Map.{Map, contains_key}
use immich_rs.Executor.Groups.{
  is_video, live_photo_video, standalone, is_image_of, OperationGroup, UploadOperation, find_image,
}

-- The operation is on the list.
abbrev pub Planned : List UploadOperation → UploadOperation → Type 0
Planned operations op = Any (λ (other : UploadOperation). other ≡ op) operations

-- A group that a run may start: one operation of the plan's on its own, or a video of the plan's with an
-- image of the plan's that names it, and not all of it completed.
abbrev pub IsPending : List UploadOperation → Map Text → OperationGroup → Type 0
IsPending operations done_before group =
    ((op : UploadOperation) × (group.operations ≡ op ∷ [])
      × Planned operations op
      × (op.role ≡ standalone)
      × (contains_key op.operation_id done_before ≡ false))
    ⊎ ((video : UploadOperation) × (image : UploadOperation) × (group.operations
          ≡ video ∷ image ∷ [])
        × Planned operations video
        × Planned operations image
        × (is_video video.role ≡ true)
        × (is_image_of video.operation_id image.role ≡ true)
        × (contains_key video.operation_id done_before
              && contains_key image.operation_id done_before
            ≡ false))

-- A group of exactly these operations is among the groups.
abbrev pub Starts : List OperationGroup → List UploadOperation → Type 0
Starts groups operations = Any (λ (group : OperationGroup). group.operations ≡ operations) groups

-- What is left to do of an operation that stands for itself or is a video is in some group.
abbrev pub IsServed :
    List UploadOperation → Map Text → List OperationGroup → UploadOperation → Type 0
IsServed operations done_before groups op =
    (op.role ≡ standalone
      → contains_key op.operation_id done_before ≡ false
      → Starts groups (op ∷ []))
    × ((pair : Text) (image : UploadOperation)
        → op.role ≡ live_photo_video pair
        → find_image op.operation_id operations ≡ some image
        → contains_key op.operation_id done_before && contains_key image.operation_id done_before
          ≡ false
        → Starts groups (op ∷ image ∷ []))
