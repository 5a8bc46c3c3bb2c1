-- ===== src/Executor/Groups.antt =====
-- crates/immich-executor/src/apply.rs, `pending_groups` and `apply_group`: the operations of a live
-- photo are one group, its video first.
pub mod Attempted
pub mod Once
pub mod Pending
pub mod Sorted
use immich_rs.Executor.Config.{invalid_plan, ExecutorErrorClass, UploadExecutionConfig}
use immich_rs.Core.Upload.{UploadOperation, UploadPlan}
use immich_rs.Core.Roles.{standalone, live_photo_image, live_photo_video, UploadRole}
use immich_rs.Common.{
  ◌++◌, not, ◌>>=◌, text_lt, ◌||◌, err, ◌&&◌, is_none, ok, false, text_eq, none, true,
  if◌then◌else◌, [], Result, ◌∷◌, some, Option, Text, List, Bool, ℕ,
}
use immich_rs.Common.Map
use immich_rs.Common.Map.{Map, contains_key}
use immich_rs.Client.Uploads.{Network}
use immich_rs.Executor.Operation.{
  OperationResult, apply, failed_outcome, VerifiedAsset, OperationOutcome, Session,
}

pub record OperationGroup : Type 0 where
  pub operations : List UploadOperation

pub record GroupResult : Type 0 where
  pub outcomes : List OperationOutcome
  pub cancelled : Bool

-- `matches!(role, LivePhotoImage { video_operation_id, .. } if video_operation_id == id)`
abbrev pub is_image_of : Text → UploadRole → Bool
is_image_of id (live_photo_image _ video_operation_id) = text_eq video_operation_id id
is_image_of id _ = false

abbrev pub is_video : UploadRole → Bool
is_video (live_photo_video _) = true
is_video _ = false

abbrev pub is_photo_image : UploadRole → Bool
is_photo_image (live_photo_image _ _) = true
is_photo_image _ = false

-- `plan.operations.iter().find(..)`
unfoldable pub find_image : Text → List UploadOperation → Option UploadOperation
find_image id [] = none
find_image id (op ∷ rest) = if is_image_of id op.role then some op else find_image id rest

-- `by_id.contains_key`
unfoldable pub is_planned : Text → List UploadOperation → Bool
is_planned id [] = false
is_planned id (op ∷ rest) = text_eq op.operation_id id || is_planned id rest

module _ (operations : List UploadOperation) (done_before : Map Text) where
  unfoldable pub video_group :
      UploadOperation → Option UploadOperation → Result ExecutorErrorClass (List OperationGroup)
  video_group op none = err invalid_plan
  video_group op (some image) = ok (
      if not (contains_key op.operation_id done_before)
        || not (contains_key image.operation_id done_before)
      then record { operations = op ∷ image ∷ [] } ∷ []
      else [])

  -- One round of the loop: the group that the operation starts, if it starts one.
  unfoldable pub group_for :
      UploadOperation → UploadRole → Result ExecutorErrorClass (List OperationGroup)
  group_for op standalone = ok (
      if not (contains_key op.operation_id done_before)
      then record { operations = op ∷ [] } ∷ []
      else [])
  group_for op (live_photo_video _) = video_group op (find_image op.operation_id operations)
  group_for op (live_photo_image _ video_operation_id) =
      if not (is_planned video_operation_id operations) then err invalid_plan else ok []

  unfoldable pub collect_groups :
      List UploadOperation → Result ExecutorErrorClass (List OperationGroup)
  collect_groups [] = ok []
  collect_groups (op ∷ rest) = do
    group ← group_for op op.role
    later ← collect_groups rest
    ok (group ++ later)

-- The path of `operations[0]`; no group is empty.
abbrev pub first_path : OperationGroup → Text
first_path group = elim group.operations [ [] ↦ [] | op ∷ _ ↦ op.relative_path ]

-- `sort_by` is stable: a group goes in front of the first one whose path is not below its own.
unfoldable pub insert_group : OperationGroup → List OperationGroup → List OperationGroup
insert_group group [] = group ∷ []
insert_group group (other ∷ rest) =
    if text_lt (first_path other) (first_path group)
    then other ∷ insert_group group rest
    else group ∷ other ∷ rest

unfoldable pub sort_groups : List OperationGroup → List OperationGroup
sort_groups [] = []
sort_groups (group ∷ rest) = insert_group group (sort_groups rest)

unfoldable pub pending_groups :
    UploadPlan → Map Text → Result ExecutorErrorClass (List OperationGroup)
pending_groups plan done_before = do
  groups ← collect_groups plan.operations done_before plan.operations
  ok (sort_groups groups)

-- `outcomes.push`, before the rounds that follow.
abbrev pub with_outcome :
    {W : Type 0}
    → OperationOutcome
    → Option GroupResult × Session W
    → Option GroupResult × Session W
with_outcome outcome (none, s) = (none, s)
with_outcome outcome (some result, s) =
    (some (record result { outcomes = outcome ∷ result.outcomes }), s)

abbrev pub outcomes_of : Option OperationOutcome → List OperationOutcome
outcomes_of none = []
outcomes_of (some outcome) = outcome ∷ []

module _ {W : Type 0} (net : Network W) (sha256 : Text → Text) (config : UploadExecutionConfig)
    (verified : Map VerifiedAsset) (done_before : Map Text) where
  -- The end of `apply_group`'s loop body.
  abbrev next_video : UploadOperation → OperationOutcome → Option Text → Option Text
  next_video op outcome video = if is_video op.role then outcome.asset_id else video

  abbrev stops : UploadOperation → OperationOutcome → Bool
  stops op outcome = is_none outcome.asset_id && is_video op.role

  -- The rest of the loop body and the rounds to come, which `more` stands for; `none` only where an
  -- upload has run out of fuel.
  unfoldable pub after_result :
      UploadOperation
      → Option Text
      → Option OperationResult
      → Session W
      → (Option Text → Session W → Option GroupResult × Session W)
      → Option GroupResult × Session W
  after_result op video none s more = (none, s)
  after_result op video (some (OperationResult.cancelled outcome)) s more =
      (some (record { outcomes = outcomes_of outcome; cancelled = true }), s)
  after_result op video (some (OperationResult.completed outcome)) s more =
      if stops op outcome
      then (some (record { outcomes = outcome ∷ []; cancelled = false }), s)
      else with_outcome outcome (more (next_video op outcome video) s)

  -- The `let Some(source) = verified.get(..) else` and the upload.
  unfoldable pub attempt :
      UploadOperation
      → Option VerifiedAsset
      → Option Text
      → Session W
      → (Option Text → Session W → Option GroupResult × Session W)
      → Option GroupResult × Session W
  attempt op none video s more = with_outcome (failed_outcome op 0) (more video s)
  attempt op (some source) video s more =
      let (result, s') = apply net sha256 config op source video s in
      after_result op video result s' more

  -- The `if let Some(done) = completed.get(..)` and what follows it.
  unfoldable pub visit :
      UploadOperation
      → Option Text
      → Option Text
      → Session W
      → (Option Text → Session W → Option GroupResult × Session W)
      → Option GroupResult × Session W
  visit op (some asset_id) video s more = more (if is_video op.role then some asset_id else video) s
  visit op none video s more =
      if is_photo_image op.role && is_none video
      then with_outcome (failed_outcome op 0) (more video s)
      else attempt op (Map.get op.operation_id verified) video s more

  -- The loop of `apply_group`.
  unfoldable pub apply_operations :
      List UploadOperation → Option Text → Session W → Option GroupResult × Session W
  apply_operations [] video s = (some (record { outcomes = []; cancelled = false }), s)
  apply_operations (op ∷ rest) video s =
      let (stop, w) = net.is_cancelled s.world in
      let s' = record s { world = w } in
      if stop
      then (some (record { outcomes = []; cancelled = true }), s')
      else visit op (Map.get op.operation_id done_before) video s' (apply_operations rest)

  unfoldable pub apply_group : OperationGroup → Session W → Option GroupResult × Session W
  apply_group group s = apply_operations group.operations none s
