-- ===== src/Common/Map.antt =====
-- `BTreeMap<String, V>`: entries in the order of their keys.
pub mod Every
pub mod Counts
use immich_rs.Common.{
  Before-ne, Before-other_way, text_lt_trans, Before, AllPairs, true, All-zip, All-imp, ◌↔◌, ap,
  false, Bool-cases, ◌≢◌, inl, inr, ◌||◌, Distinct, ◌⊎◌,
}
use Prim.Native.Nat.{suc, ◌≤◌}
use mathlib.Core.Path.{◌≡◌, refl}
use mathlib.Core.Bool.{Bool}
use mathlib.Core.Option.{Option, none, some}
use mathlib.Core.List.{map, List, [], ◌∷◌}
use native.Mathlib.Omega.{arith}
use immich_rs.Common.Tests.{if◌then◌else◌, is_some}
use immich_rs.Common.Lists.{Any, any, All, length}
use immich_rs.Common.Bytes.{Text, text_eq, text_lt, text_eq_iff}

abbrev pub Map {ℓ} : Type ℓ → Type ℓ
Map V = List (Text × V)

module _ {ℓ} {V : Type ℓ} where
  -- `map.get(key)`
  unfoldable pub get : Text → Map V → Option V
  get k [] = none
  get k ((j, v) ∷ m) = if text_eq j k then some v else get k m

  -- `map.contains_key(key)`
  abbrev pub contains_key : Text → Map V → Bool
  contains_key k m = is_some (get k m)

  -- `map.insert(key, value)`
  unfoldable pub insert : Text → V → Map V → Map V
  insert k v [] = (k, v) ∷ []
  insert k v ((j, w) ∷ m) =
      if text_eq j k
      then (k, v) ∷ m
      else if text_lt k j
      then (k, v) ∷ (j, w) ∷ m
      else (j, w) ∷ insert k v m

  -- `map.remove(key)`
  unfoldable pub remove : Text → Map V → Map V
  remove k [] = []
  remove k ((j, v) ∷ m) = let rest = remove k m in if text_eq j k then rest else (j, v) ∷ rest

  -- `if let Some(value) = map.get_mut(key) { *value = f(value) }`
  unfoldable pub modify : Text → (V → V) → Map V → Map V
  modify k f [] = []
  modify k f ((j, v) ∷ m) = (if text_eq j k then (j, f v) else (j, v)) ∷ modify k f m

  pub get-insert :
      (j k : Text) (v : V) (m : Map V)
      → get j (insert k v m) ≡ (if text_eq k j then some v else get j m)
  unfolding get insert
  get-insert j k v [] = refl
  get-insert j k v ((i, w) ∷ m) =
      ground (arith, text_eq_iff k j, text_eq_iff i k, text_eq_iff i j, get-insert j k v m)

  pub get-remove :
      (j k : Text) (m : Map V) → get j (remove k m) ≡ (if text_eq k j then none else get j m)
  unfolding get remove
  get-remove j k [] = ground arith
  get-remove j k ((i, w) ∷ m) =
      ground (arith, text_eq_iff k j, text_eq_iff i k, text_eq_iff i j, get-remove j k m)

  pub length-insert :
      (k : Text) (v : V) (m : Map V) → get k m ≡ none → length (insert k v m) ≡ suc (length m)
  unfolding get insert
  length-insert k v [] h = refl
  length-insert k v ((i, w) ∷ m) h = ground (arith, length-insert k v m)

  pub length-remove : (k : Text) (m : Map V) → length (remove k m) ≤ length m
  unfolding remove
  length-remove k [] = omega arith
  length-remove k ((i, w) ∷ m) = ground (arith, length-remove k m)

pub length-modify {ℓ} :
    {V : Type ℓ} (k : Text) (f : V → V) (m : Map V) → length (modify k f m) ≡ length m
unfolding modify
length-modify k f [] = refl
length-modify k f ((i, w) ∷ m) = omega (arith, length-modify k f m)

all_absent : (V : Type 0) (xs : List Text) → All (λ x. contains_key {V = V} x [] ≡ false) xs
unfolding get
all_absent V [] = tt
all_absent V (_ ∷ xs) = (refl, all_absent V xs)

module _ {V : Type 0} where
  -- Inserts in the order of the list.
  unfoldable pub insert_all : List (Text × V) → Map V → Map V
  insert_all [] m = m
  insert_all (e ∷ rest) m = insert_all rest (insert e.0 e.1 m)

  abbrev pub keys_of : List (Text × V) → List Text
  keys_of entries = map (λ (e : Text × V). e.0) entries

  abbrev pub Entry : Text → V → List (Text × V) → Type 0
  Entry k v entries = Any (λ (e : Text × V). (e.0 ≡ k) × (e.1 ≡ v)) entries

  pub get-insert_all_absent :
      (k : Text) (entries : List (Text × V)) (m : Map V)
      → All (λ x. k ≢ x) (keys_of entries)
      → get k (insert_all entries m) ≡ get k m
  unfolding insert_all
  get-insert_all_absent k [] m h = refl
  get-insert_all_absent k (e ∷ rest) m h = ground (
    arith,
    get-insert_all_absent k rest (insert e.0 e.1 m) h.1,
    get-insert k e.0 e.1 m,
    text_eq_iff e.0 k,
  )

  pub get-insert_all_sound :
      (k : Text) (v : V) (entries : List (Text × V)) (m : Map V)
      → get k (insert_all entries m) ≡ some v
      → Entry k v entries ⊎ (get k m ≡ some v)
  unfolding insert_all
  get-insert_all_sound k v [] m h = inr h
  get-insert_all_sound k v (e ∷ rest) m h =
      elim (get-insert_all_sound k v rest (insert e.0 e.1 m) h) [
        | inl later ↦ inl (inr later)
        | inr here ↦ elim (Bool-cases (text_eq e.0 k)) [
          | inl same ↦
              inl (inl ((text_eq_iff e.0 k).0 same, ground (arith, get-insert k e.0 e.1 m)))
          | inr other ↦ inr (ground (arith, get-insert k e.0 e.1 m))
        ]
      ]

  pub get-insert_all_complete :
      (k : Text) (v : V) (entries : List (Text × V)) (m : Map V)
      → Distinct (keys_of entries)
      → Entry k v entries
      → get k (insert_all entries m) ≡ some v
  unfolding insert_all
  get-insert_all_complete k v [] m d h = absurd h
  get-insert_all_complete k v (e ∷ rest) m d (inl here) = ground (
    arith,
    get-insert_all_absent e.0 rest (insert e.0 e.1 m) d.0,
    get-insert k e.0 e.1 m,
    text_eq_iff e.0 k,
    here.0,
    here.1,
  )
  get-insert_all_complete k v (e ∷ rest) m d (inr later) =
      get-insert_all_complete k v rest (insert e.0 e.1 m) d.1 later

  -- A key is found exactly if it was inserted.
  pub contains_key-insert_all :
      (k : Text) (entries : List (Text × V)) (m : Map V)
      → contains_key k (insert_all entries m)
        ≡ (any (λ x. text_eq x k) (keys_of entries) || contains_key k m)
  unfolding insert_all
  contains_key-insert_all k [] m = refl
  contains_key-insert_all k (e ∷ rest) m =
      ground (arith, contains_key-insert_all k rest (insert e.0 e.1 m), get-insert k e.0 e.1 m)

  -- Each key is new when it is inserted.
  abbrev pub NewKeys : Map V → List (Text × V) → Type 0
  NewKeys m [] = Unit
  NewKeys m (e ∷ rest) = (contains_key e.0 m ≡ false) × NewKeys (insert e.0 e.1 m) rest

  NewKeys-parts :
      (m : Map V) (entries : List (Text × V))
      → NewKeys m entries
      → All (λ x. contains_key x m ≡ false) (keys_of entries) × Distinct (keys_of entries)
  NewKeys-parts m [] h = (tt, tt)
  NewKeys-parts m (e ∷ rest) h =
      let (outside, distinct) = NewKeys-parts (insert e.0 e.1 m) rest h.1 in
      (
        (
          h.0,
          All-imp (λ x. contains_key x (insert e.0 e.1 m) ≡ false) (λ x. contains_key x m ≡ false)
              (keys_of rest) (λ x p. ground (arith, get-insert x e.0 e.1 m)) outside,
        ),
        (
          All-imp (λ x. contains_key x (insert e.0 e.1 m) ≡ false) (λ x. e.0 ≢ x) (keys_of rest)
              (λ x p q. ground (arith, get-insert x e.0 e.1 m, text_eq_iff e.0 x)) outside,
          distinct,
        ),
      )

  parts-NewKeys :
      (m : Map V) (entries : List (Text × V))
      → All (λ x. contains_key x m ≡ false) (keys_of entries)
      → Distinct (keys_of entries)
      → NewKeys m entries
  parts-NewKeys m [] h d = tt
  parts-NewKeys m (e ∷ rest) h d = (
    h.0,
    parts-NewKeys (insert e.0 e.1 m) rest
        (All-imp (λ x. (contains_key x m ≡ false) × (e.0 ≢ x))
          (λ x. contains_key x (insert e.0 e.1 m) ≡ false) (keys_of rest)
          (λ x p. ground (arith, get-insert x e.0 e.1 m, text_eq_iff e.0 x, p.0, p.1))
          (All-zip (λ x. contains_key x m ≡ false) (λ x. e.0 ≢ x) (keys_of rest) h.1 d.0))
        d.1,
  )

  pub NewKeys-iff : (entries : List (Text × V)) → NewKeys [] entries ↔ Distinct (keys_of entries)
  NewKeys-iff entries = (
    λ h. (NewKeys-parts [] entries h).1,
    parts-NewKeys [] entries (all_absent V (keys_of entries)),
  )

pub keys_of_pairs :
    {A V : Type 0} (k : A → Text) (v : A → V) (xs : List A)
    → keys_of (map (λ x. (k x, v x)) xs) ≡ map k xs
keys_of_pairs k v [] = refl
keys_of_pairs k v (x ∷ xs) = ap (λ (t : List Text). k x ∷ t) (keys_of_pairs k v xs)

-- The text is on the list.
abbrev pub Holds : Text → List Text → Type 0
Holds k xs = Any (λ x. x ≡ k) xs

any-Holds : (k : Text) (xs : List Text) → (any (λ x. text_eq x k) xs ≡ true) ↔ Holds k xs
any-Holds k [] = (λ h. cc, λ h. absurd h)
any-Holds k (x ∷ xs) = (
  λ h. elim (Bool-cases (text_eq x k)) [
    | inl e ↦ inl ((text_eq_iff x k).0 e)
    | inr n ↦ inr ((any-Holds k xs).0 (ground arith))
  ],
  λ h. elim h [
    | inl e ↦ ground (arith, text_eq_iff x k)
    | inr l ↦ let rest : any (λ y. text_eq y k) xs ≡ true = (any-Holds k xs).1 l in ground arith
  ],
)

-- A map that was filled from a list has the list's keys.
pub contains_key_iff :
    {V : Type 0} (k : Text) (entries : List (Text × V))
    → (contains_key k (insert_all entries []) ≡ true) ↔ Holds k (keys_of entries)
unfolding get
contains_key_iff k entries =
    let e = contains_key-insert_all k entries [] in
    (
      λ h. (any-Holds k (keys_of entries)).0 (ground (arith, e)),
      λ h.
          let there : any (λ x. text_eq x k) (keys_of entries) ≡ true =
            (any-Holds k (keys_of entries)).1 h in
          ground (arith, e),
    )

module _ {ℓ κ} {V : Type ℓ} where
  pub All-insert :
      (P : Text × V → Type κ) (k : Text) (v : V) (m : Map V)
      → P (k, v)
      → All P m
      → All P (insert k v m)
  unfolding insert
  All-insert P k v [] p h = (p, tt)
  All-insert P k v ((j, w) ∷ m) p h = elim (Bool-cases (text_eq j k)) [
    | inl same ↦ rw same (p, h.1)
    | inr other ↦ rw other (elim (Bool-cases (text_lt k j)) [
      | inl before ↦ rw before (p, h)
      | inr after ↦ rw after (h.0, All-insert P k v m p h.1)
    ])
  ]

module _ {ℓ} {V : Type ℓ} where
  -- The entries stand in the strict order of their keys.
  abbrev pub IsOrdered : Map V → Type 0
  IsOrdered m = AllPairs (λ a b. Before (a.0) (b.0)) m

  pub insert-IsOrdered : (k : Text) (v : V) (m : Map V) → IsOrdered m → IsOrdered (insert k v m)
  unfolding insert
  insert-IsOrdered k v [] h = (tt, tt)
  insert-IsOrdered k v ((j, w) ∷ m) h = elim (Bool-cases (text_eq j k)) [
    | inl same ↦ rw same (
      All-imp (λ (b : Text × V). Before j b.0) (λ (b : Text × V). Before k b.0) m
          (λ b p. rw ((text_eq_iff j k).0 same) at p) h.0,
      h.1,
    )
    | inr other ↦ rw other (elim (Bool-cases (text_lt k j)) [
      | inl before ↦ rw before (
        (
          before,
          All-imp (λ (b : Text × V). Before j b.0) (λ (b : Text × V). Before k b.0) m
              (λ b p. text_lt_trans k j b.0 before p) h.0,
        ),
        h,
      )
      | inr after ↦ rw after (
        All-insert (λ (b : Text × V). Before j b.0) k v m (Before-other_way j k other after) h.0,
        insert-IsOrdered k v m h.1,
      )
    ])
  ]

  -- A key below all the others is not there.
  pub get-below : (k : Text) (m : Map V) → All (λ (e : Text × V). Before k e.0) m → get k m ≡ none
  unfolding get
  get-below k [] h = refl
  get-below k ((j, w) ∷ m) h =
      ground (arith, get-below k m h.1, text_eq_iff j k, λ (e : k ≡ j). Before-ne k j h.0 e)
