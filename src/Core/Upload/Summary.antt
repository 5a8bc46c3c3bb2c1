-- ===== src/Core/Upload/Summary.antt =====
-- upload.rs, `expected_summary`: the album set and the mutation budget.
use immich_rs.Core.Metadata.{NormalizedMetadata}
use mathlib.Core.Path.{subst}
use immich_rs.Common.{
  ◌||◌, is_some, ◌*◌, refl, ◌<◌, count_if, is_some_and, ◌∙◌, Bool, length, All, ◌==◌, if◌then◌else◌,
  u64_max, ◌≤◌, ◌+◌, arith, text_eq_iff, text_eq, true, contains-fresh, sym, ◌≢◌, All-imp, inr, [],
  ◌⊎◌, inl, Bool-cases, ◌∷◌, ◌≡◌, ◌↔◌, Any, Distinct, List, contains, ℕ, Text,
}
use immich_rs.Core.Upload.{
  albums_of, UploadOperation, expected_summary, album_set, set_insert, set_extend,
}

-- The text is on the list.
abbrev pub Holds : Text → List Text → Type 0
Holds k xs = Any (λ x. x ≡ k) xs

-- Some operation's metadata names the album.
abbrev pub Named : Text → List UploadOperation → Type 0
Named k ops = Any (λ (op : UploadOperation). Holds k (albums_of op.normalized_metadata)) ops

set_insert-Distinct : (k : Text) (s : List Text) → Distinct s → Distinct (set_insert k s)
unfolding set_insert
set_insert-Distinct k s d = elim (Bool-cases (contains k s)) [
  | inl old ↦ rw old d
  | inr new ↦
      rw new
        (All-imp (λ x. x ≢ k) (λ x. k ≢ x) s (λ x n e. n (sym e)) ((contains-fresh k s).0 new), d)
]

set_extend-Distinct : (ks s : List Text) → Distinct s → Distinct (set_extend ks s)
unfolding set_extend
set_extend-Distinct [] s d = d
set_extend-Distinct (k ∷ ks) s d =
    set_extend-Distinct ks (set_insert k s) (set_insert-Distinct k s d)

album_set-Distinct :
    (ops : List UploadOperation) (s : List Text) → Distinct s → Distinct (album_set ops s)
unfolding album_set
album_set-Distinct [] s d = d
album_set-Distinct (op ∷ rest) s d =
    album_set-Distinct rest (set_extend (albums_of op.normalized_metadata) s)
      (set_extend-Distinct (albums_of op.normalized_metadata) s d)

Holds-contains : (k : Text) (s : List Text) → contains k s ≡ true → Holds k s
unfolding contains
Holds-contains k [] h = cc
Holds-contains k (x ∷ xs) h = elim (Bool-cases (text_eq x k)) [
  | inl e ↦ inl ((text_eq_iff x k).0 e)
  | inr n ↦ inr (Holds-contains k xs (ground arith))
]

Holds-insert : (j k : Text) (s : List Text) → Holds j (set_insert k s) ↔ ((k ≡ j) ⊎ Holds j s)
unfolding set_insert
Holds-insert j k s = elim (Bool-cases (contains k s)) [
  | inl old ↦ rw old (inr, λ h. elim h [ inl e ↦ rw (← e) (Holds-contains k s old) | inr l ↦ l ])
  | inr new ↦ rw new (λ h. h, λ h. h)
]

Holds-extend : (j : Text) (ks s : List Text) → Holds j (set_extend ks s) ↔ (Holds j ks ⊎ Holds j s)
unfolding set_extend
Holds-extend j [] s = (inr, λ h. elim h [ inl e ↦ absurd e | inr l ↦ l ])
Holds-extend j (k ∷ ks) s =
    let ih = Holds-extend j ks (set_insert k s) in
    let step = Holds-insert j k s in
    (
      λ h. elim (ih.0 h) [
        | inl l ↦ inl (inr l)
        | inr i ↦ elim (step.0 i) [ inl e ↦ inl (inl e) | inr l ↦ inr l ]
      ],
      λ h. elim h [
        | inl l ↦ elim l [ inl e ↦ ih.1 (inr (step.1 (inl e))) | inr r ↦ ih.1 (inl r) ]
        | inr l ↦ ih.1 (inr (step.1 (inr l)))
      ],
    )

Holds-album_set :
    (j : Text) (ops : List UploadOperation) (s : List Text)
    → Holds j (album_set ops s) ↔ (Named j ops ⊎ Holds j s)
unfolding album_set
Holds-album_set j [] s = (inr, λ h. elim h [ inl e ↦ absurd e | inr l ↦ l ])
Holds-album_set j (op ∷ rest) s =
    let ih = Holds-album_set j rest (set_extend (albums_of op.normalized_metadata) s) in
    let step = Holds-extend j (albums_of op.normalized_metadata) s in
    (
      λ h. elim (ih.0 h) [
        | inl l ↦ inl (inr l)
        | inr i ↦ elim (step.0 i) [ inl e ↦ inl (inl e) | inr l ↦ inr l ]
      ],
      λ h. elim h [
        | inl l ↦ elim l [ inl e ↦ ih.1 (inr (step.1 (inl e))) | inr r ↦ ih.1 (inl r) ]
        | inr l ↦ ih.1 (inr (step.1 (inr l)))
      ],
    )

-- The albums that a plan counts are pairwise distinct, and are exactly the titles that its
-- operations' metadata name.
pub album_set_iff :
    (ops : List UploadOperation)
    → Distinct (album_set ops []) × ((j : Text) → Holds j (album_set ops []) ↔ Named j ops)
album_set_iff ops = (
  album_set-Distinct ops [] tt,
  λ j.
      let both = Holds-album_set j ops [] in
      (λ h. elim (both.0 h) [ inl l ↦ l | inr e ↦ absurd e ], λ h. both.1 (inl h)),
)

without : Text → List Text → List Text
without k [] = []
without k (x ∷ xs) = if text_eq x k then without k xs else x ∷ without k xs

without-le : (k : Text) (xs : List Text) → length (without k xs) ≤ length xs
unfolding without
without-le k [] = omega arith
without-le k (x ∷ xs) = ground (arith, without-le k xs)

without-lt : (k : Text) (xs : List Text) → Holds k xs → length (without k xs) < length xs
unfolding without
without-lt k [] h = absurd h
without-lt k (x ∷ xs) (inl e) = ground (arith, (text_eq_iff x k).1 e, without-le k xs)
without-lt k (x ∷ xs) (inr l) = ground (arith, without-lt k xs l, without-le k xs)

Holds-without : (j k : Text) (xs : List Text) → k ≢ j → Holds j xs → Holds j (without k xs)
unfolding without
Holds-without j k [] other h = absurd h
Holds-without j k (x ∷ xs) other h = elim (Bool-cases (text_eq x k)) [
  | inl e ↦ rw e (elim h [
    | inl same ↦ absurd (other (sym ((text_eq_iff x k).0 e) ∙ same))
    | inr l ↦ Holds-without j k xs other l
  ])
  | inr n ↦ rw n (elim h [ inl same ↦ inl same | inr l ↦ inr (Holds-without j k xs other l) ])
]

Holds-All : (P : Text → Type 0) (j : Text) (xs : List Text) → All P xs → Holds j xs → P j
Holds-All P j [] a h = absurd h
Holds-All P j (x ∷ xs) a (inl e) = subst P e a.0
Holds-All P j (x ∷ xs) a (inr l) = Holds-All P j xs a.1 l

-- Distinct texts that are all on another list are at most as many.
Distinct-length :
    (xs ys : List Text)
    → Distinct xs
    → ((j : Text) → Holds j xs → Holds j ys)
    → length xs ≤ length ys
Distinct-length [] ys d h = omega arith
Distinct-length (x ∷ xs) ys d h =
    let fewer =
      Distinct-length xs (without x ys) d.1
        (λ j l. Holds-without j x ys (Holds-All (λ y. x ≢ y) j xs d.0 l) (h j (inr l))) in
    omega (arith, fewer, without-lt x ys (h x (inl refl)))

-- The metadata assigns a description, a time or a location.
abbrev pub assigns : UploadOperation → Bool
assigns op = is_some_and op.normalized_metadata (λ (m : NormalizedMetadata).
    is_some m.description || is_some m.taken_at_utc || is_some m.location)

-- The requests that a plan may lead to: one upload for each operation, one update for each whose metadata
-- assigns something, and a create and a membership request for each album.
abbrev pub requests : List UploadOperation → List Text → ℕ
requests ops albums = length ops + count_if assigns ops + 2 * length albums

-- Let `albums` be the distinct titles that the operations' metadata name, in any order, and let the sum
-- be within the u64 limit. Then the mutation budget of an import plan is one upload for each operation,
-- one update for each operation whose metadata has a description, a time or a location, and a create and
-- a membership request for each of the albums. A folder plan has no budget.
pub mutation_budget :
    (version : ℕ) (ops : List UploadOperation) (albums : List Text)
    → Distinct albums
    → ((j : Text) → Holds j albums ↔ Named j ops)
    → requests ops albums ≤ u64_max
    → (expected_summary version ops).max_mutations
      ≡ (if version == 2 then requests ops albums else 0)
unfolding expected_summary
mutation_budget version ops albums d named fits =
    let (distinct, exact) = album_set_iff ops in
    let most =
      Distinct-length (album_set ops []) albums distinct (λ j h. (named j).1 ((exact j).0 h)) in
    let least = Distinct-length albums (album_set ops []) d (λ j h. (exact j).1 ((named j).0 h)) in
    let same : length (album_set ops []) ≡ length albums = omega (arith, most, least) in
    ground (arith, same, fits)
