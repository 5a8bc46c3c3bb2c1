-- ===== src/Executor/Groups/Sorted.antt =====
-- apply.rs, `groups.sort_by`: what sorting does to the groups.
use immich_rs.Common.{
  text_lt_irrefl, text_lt_trans, refl, true, false, arith, ◌≡◌, count_if, Text, Bool, inr, text_lt,
  [], inl, Bool-cases, ◌⊎◌, ◌∷◌, All, List, Any,
}
use immich_rs.Executor.Groups.{OperationGroup, insert_group, sort_groups, first_path}

insert_group-All :
    (P : OperationGroup → Type 0) (group : OperationGroup) (groups : List OperationGroup)
    → P group
    → All P groups
    → All P (insert_group group groups)
unfolding insert_group
insert_group-All P group [] h k = (h, tt)
insert_group-All P group (other ∷ rest) h k =
    elim (Bool-cases (text_lt (first_path other) (first_path group))) [
      | inl below ↦ rw (below, insert_group) (k.0, insert_group-All P group rest h k.1)
      | inr not_below ↦ rw (not_below, insert_group) (h, k)
    ]

pub sort_groups-All :
    (P : OperationGroup → Type 0) (groups : List OperationGroup)
    → All P groups
    → All P (sort_groups groups)
unfolding sort_groups
sort_groups-All P [] h = tt
sort_groups-All P (group ∷ rest) h =
    insert_group-All P group (sort_groups rest) h.0 (sort_groups-All P rest h.1)

insert_group-Any :
    (P : OperationGroup → Type 0) (group : OperationGroup) (groups : List OperationGroup)
    → P group ⊎ Any P groups
    → Any P (insert_group group groups)
unfolding insert_group
insert_group-Any P group [] h = h
insert_group-Any P group (other ∷ rest) h =
    elim (Bool-cases (text_lt (first_path other) (first_path group))) [
      | inl below ↦
          rw (below, insert_group)
            (elim h [
              | inl here ↦ inr (insert_group-Any P group rest (inl here))
              | inr (inl there) ↦ inl there
              | inr (inr there) ↦ inr (insert_group-Any P group rest (inr there))
            ])
      | inr not_below ↦ rw (not_below, insert_group) h
    ]

pub sort_groups-Any :
    (P : OperationGroup → Type 0) (groups : List OperationGroup)
    → Any P groups
    → Any P (sort_groups groups)
unfolding sort_groups
sort_groups-Any P [] h = h
sort_groups-Any P (group ∷ rest) (inl h) = insert_group-Any P group (sort_groups rest) (inl h)
sort_groups-Any P (group ∷ rest) (inr h) =
    insert_group-Any P group (sort_groups rest) (inr (sort_groups-Any P rest h))

-- The groups that a count sees are as many as before.
insert_group-count :
    (p : OperationGroup → Bool) (group : OperationGroup) (groups : List OperationGroup)
    → count_if p (insert_group group groups) ≡ count_if p (group ∷ groups)
unfolding insert_group
insert_group-count p group [] = refl
insert_group-count p group (other ∷ rest) = ground (arith, insert_group-count p group rest)

pub sort_groups-count :
    (p : OperationGroup → Bool) (groups : List OperationGroup)
    → count_if p (sort_groups groups) ≡ count_if p groups
unfolding sort_groups
sort_groups-count p [] = refl
sort_groups-count p (group ∷ rest) =
    omega (arith, insert_group-count p group (sort_groups rest), sort_groups-count p rest)

-- Each group's path is not below the one before it.
abbrev pub Ascending : Text → List OperationGroup → Type 0
Ascending path [] = Unit {0}
Ascending path (group ∷ rest) =
    (text_lt (first_path group) path ≡ false) × Ascending (first_path group) rest

not_before : (a b : Text) → text_lt a b ≡ true → text_lt b a ≡ false
not_before a b h = elim (Bool-cases (text_lt b a)) [
  | inl back ↦ cc (text_lt_trans a b a h back, text_lt_irrefl a)
  | inr other_way ↦ other_way
]

insert_group-Ascending :
    (path : Text) (group : OperationGroup) (groups : List OperationGroup)
    → text_lt (first_path group) path ≡ false
    → Ascending path groups
    → Ascending path (insert_group group groups)
unfolding insert_group
insert_group-Ascending path group [] above h = (above, tt)
insert_group-Ascending path group (other ∷ rest) above h =
    elim (Bool-cases (text_lt (first_path other) (first_path group))) [
      | inl below ↦
          rw (below, insert_group)
            (
              h.0,
              insert_group-Ascending (first_path other) group rest
                  (not_before (first_path other) (first_path group) below) h.1,
            )
      | inr not_below ↦ rw (not_below, insert_group) (above, (not_below, h.1))
    ]

text_lt-empty : (a : Text) → text_lt a [] ≡ false
unfolding text_lt
text_lt-empty [] = refl
text_lt-empty (x ∷ xs) = refl

pub sort_groups-Ascending : (groups : List OperationGroup) → Ascending [] (sort_groups groups)
unfolding sort_groups
sort_groups-Ascending [] = tt
sort_groups-Ascending (group ∷ rest) =
    insert_group-Ascending [] group (sort_groups rest) (text_lt-empty (first_path group))
      (sort_groups-Ascending rest)
