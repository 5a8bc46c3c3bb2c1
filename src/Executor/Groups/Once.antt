-- ===== src/Executor/Groups/Once.antt =====
-- apply.rs, `pending_groups`: how many groups an operation starts.
use immich_rs.Core.Roles.{standalone, live_photo_image, live_photo_video, UploadRole}
use immich_rs.Common.Map.{Map}
use immich_rs.Core.Upload.{UploadOperation}
use immich_rs.Executor.Config.{ExecutorErrorClass}
use immich_rs.Executor.Groups.{find_image, video_group, collect_groups, group_for, OperationGroup}
use immich_rs.Common.{
  some, inr, inl, Option-cases, >>=-eq-ok, true, arith, sym, ◌+◌, ok, ◌++◌, ◌≤◌, text_eq, false,
  count_if, if◌then◌else◌, List, Result, Bool, Text, ◌≡◌, ◌∷◌, [], refl,
}

-- The group's first operation has the identifier.
abbrev pub starts_with : Text → OperationGroup → Bool
starts_with id group = elim group.operations [ [] ↦ false | op ∷ _ ↦ text_eq op.operation_id id ]

-- No operation starts a second group: no more groups start with an identifier than operations have it.
abbrev pub IsOnce : List UploadOperation → List OperationGroup → Type 0
IsOnce operations groups =
    (id : Text)
    → count_if (starts_with id) groups
      ≤ count_if (λ (op : UploadOperation). text_eq op.operation_id id) operations

pub same_value :
    (result : Result ExecutorErrorClass (List OperationGroup)) (a b : List OperationGroup)
    → result ≡ ok a
    → result ≡ ok b
    → a ≡ b
same_value result a b h k = ground arith

one_at_most :
    (id : Text) (test : Bool) (group : OperationGroup) (groups : List OperationGroup)
    → (if test then group ∷ [] else []) ≡ groups
    → count_if (starts_with id) groups ≤ (if starts_with id group then 1 else 0)
one_at_most id true group groups h = rw (sym h) (omega arith)
one_at_most id false group groups h = rw (sym h) (omega arith)

count_if-append :
    (p : OperationGroup → Bool) (xs ys : List OperationGroup)
    → count_if p (xs ++ ys) ≡ count_if p xs + count_if p ys
count_if-append p [] ys = omega arith
count_if-append p (x ∷ xs) ys = omega (arith, count_if-append p xs ys)

module _ (operations : List UploadOperation) (done_before : Map Text) where
  group_for-count :
      (id : Text) (op : UploadOperation) (role : UploadRole) (groups : List OperationGroup)
      → group_for operations done_before op role ≡ ok groups
      → count_if (starts_with id) groups ≤ (if text_eq op.operation_id id then 1 else 0)
  unfolding group_for video_group
  group_for-count id op standalone groups h =
      one_at_most id _ (record { operations = op ∷ [] }) groups (same_value _ _ groups refl h)
  group_for-count id op (live_photo_video pair) groups h =
      elim (Option-cases (find_image op.operation_id operations)) [
        | inl missing ↦ absurd (ground (arith, h, missing))
        | inr (image, found) ↦
            let started : video_group operations done_before op (some image) ≡ ok groups =
              rw (found, group_for) at h in
            one_at_most id _ (record { operations = op ∷ image ∷ [] }) groups
              (same_value _ _ groups refl started)
      ]
  group_for-count id op (live_photo_image pair video) groups h =
      let empty : [] ≡ groups = ground (arith, h) in rw (sym empty) (ground arith)

  pub collect_groups-IsOnce :
      (rest : List UploadOperation) (groups : List OperationGroup)
      → collect_groups operations done_before rest ≡ ok groups
      → IsOnce rest groups
  unfolding collect_groups
  collect_groups-IsOnce [] groups h id =
      let empty : [] ≡ groups = ground (arith, h) in rw (sym empty) (omega arith)
  collect_groups-IsOnce (op ∷ rest) groups h id =
      let (group, first, second) = >>=-eq-ok (group_for operations done_before op op.role) _ h in
      let (later, third, last) = >>=-eq-ok (collect_groups operations done_before rest) _ second in
      let same : group ++ later ≡ groups = same_value _ _ groups refl last in
      rw (sym same) (
        omega (
          arith,
          count_if-append (starts_with id) group later,
          group_for-count id op op.role group first,
          collect_groups-IsOnce rest later third id,
        ))
