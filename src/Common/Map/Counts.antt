-- ===== src/Common/Map/Counts.antt =====
-- How many entries of a map pass a test, after each operation.
use immich_rs.Common.Map.Every.{Every, modify-absent, remove-absent, update_all}
use mathlib.Core.Path.{subst}
use immich_rs.Common.{
  text_eq_refl, ◌≤◌, text_eq_iff, true, All, length, Before, inr, inl, text_eq, Bool-cases, refl,
  ◌∷◌, [], arith, ◌+◌, bit, some, none, ◌≡◌, count_if, ℕ, Bool, Text,
}
use immich_rs.Common.Map.{get-below, IsOrdered, insert, remove, modify, Map, get}

-- The key of the first entry is not behind it.
get-behind :
    {V : Type 0} (i k : Text) (w : V) (m : Map V)
    → IsOrdered ((i, w) ∷ m)
    → text_eq i k ≡ true
    → get k m ≡ none
get-behind {V} i k w m o same =
    get-below k m
      (subst (λ t. All (λ (e : Text × V). Before t e.0) m) ((text_eq_iff i k).0 same) o.0)

module _ {V : Type 0} (p : V → Bool) where
  abbrev pub count : Map V → ℕ
  count m = count_if (λ (e : Text × V). p e.1) m

  pub count-insert :
      (k : Text) (v : V) (m : Map V) → get k m ≡ none → count (insert k v m) ≡ bit (p v) + count m
  unfolding get insert
  count-insert k v [] h = ground arith
  count-insert k v ((i, w) ∷ m) h = ground (arith, count-insert k v m)

  pub count-update_all :
      (f : V → V) (m : Map V) → ((v : V) → p (f v) ≡ p v) → count (update_all f m) ≡ count m
  count-update_all f [] h = refl
  count-update_all f ((i, w) ∷ m) h = ground (arith, h w, count-update_all f m h)

  pub count-remove :
      (k : Text) (v : V) (m : Map V)
      → IsOrdered m
      → get k m ≡ some v
      → bit (p v) + count (remove k m) ≡ count m
  unfolding get remove
  count-remove k v [] o h = ground arith
  count-remove k v ((i, w) ∷ m) o h = elim (Bool-cases (text_eq i k)) [
    | inl same ↦ ground (arith, remove-absent k m (get-behind i k w m o same))
    | inr other ↦ ground (arith, count-remove k v m o.1)
  ]

  pub count-modify :
      (k : Text) (v : V) (f : V → V) (m : Map V)
      → IsOrdered m
      → get k m ≡ some v
      → bit (p v) + count (modify k f m) ≡ bit (p (f v)) + count m
  unfolding get modify
  count-modify k v f [] o h = ground arith
  count-modify k v f ((i, w) ∷ m) o h = elim (Bool-cases (text_eq i k)) [
    | inl same ↦ ground (arith, modify-absent k f m (get-behind i k w m o same))
    | inr other ↦ ground (arith, count-modify k v f m o.1)
  ]

-- The order of the keys survives every operation.
All-keys :
    {V : Type 0} (P : Text → Type 0) (k : Text) (f : V → V) (m : Map V)
    → All (λ (e : Text × V). P e.0) m
    → All (λ (e : Text × V). P e.0) (remove k m) × All (λ (e : Text × V). P e.0) (modify k f m)
unfolding remove modify
All-keys P k f [] h = (tt, tt)
All-keys P k f ((i, w) ∷ m) h = elim (Bool-cases (text_eq i k)) [
  | inl same ↦ rw same ((All-keys P k f m h.1).0, (h.0, (All-keys P k f m h.1).1))
  | inr other ↦ rw other ((h.0, (All-keys P k f m h.1).0), (h.0, (All-keys P k f m h.1).1))
]

module _ {V : Type 0} where
  pub remove-IsOrdered : (k : Text) (m : Map V) → IsOrdered m → IsOrdered (remove k m)
  unfolding remove
  remove-IsOrdered k [] h = tt
  remove-IsOrdered k ((i, w) ∷ m) h = elim (Bool-cases (text_eq i k)) [
    | inl same ↦ rw same (remove-IsOrdered k m h.1)
    | inr other ↦
        rw other ((All-keys (λ t. Before i t) k (λ (v : V). v) m h.0).0, remove-IsOrdered k m h.1)
  ]

  pub modify-IsOrdered : (k : Text) (f : V → V) (m : Map V) → IsOrdered m → IsOrdered (modify k f m)
  unfolding modify
  modify-IsOrdered k f [] h = tt
  modify-IsOrdered k f ((i, w) ∷ m) h = elim (Bool-cases (text_eq i k)) [
    | inl same ↦ rw same ((All-keys (λ t. Before i t) k f m h.0).1, modify-IsOrdered k f m h.1)
    | inr other ↦ rw other ((All-keys (λ t. Before i t) k f m h.0).1, modify-IsOrdered k f m h.1)
  ]

  All-update_all :
      (P : Text → Type 0) (f : V → V) (m : Map V)
      → All (λ (e : Text × V). P e.0) m
      → All (λ (e : Text × V). P e.0) (update_all f m)
  All-update_all P f [] h = tt
  All-update_all P f ((i, w) ∷ m) h = (h.0, All-update_all P f m h.1)

  pub update_all-IsOrdered : (f : V → V) (m : Map V) → IsOrdered m → IsOrdered (update_all f m)
  update_all-IsOrdered f [] h = tt
  update_all-IsOrdered f ((i, w) ∷ m) h =
      (All-update_all (λ t. Before i t) f m h.0, update_all-IsOrdered f m h.1)

  pub length-update_all : (f : V → V) (m : Map V) → length (update_all f m) ≡ length m
  length-update_all f [] = refl
  length-update_all f ((i, w) ∷ m) = omega (arith, length-update_all f m)

-- Three tests of which one splits into the others by a change of every value.
pub count-split :
    {V : Type 0} (p q r : V → Bool) (f : V → V) (m : Map V)
    → ((v : V) → bit (p (f v)) + bit (q v) ≡ bit (r v))
    → count p (update_all f m) + count q m ≡ count r m
count-split p q r f [] h = omega arith
count-split p q r f ((i, w) ∷ m) h = ground (arith, h w, count-split p q r f m h)

-- A value that a lookup finds counts.
pub count-present :
    {V : Type 0} (p : V → Bool) (k : Text) (v : V) (m : Map V)
    → IsOrdered m
    → get k m ≡ some v
    → bit (p v) ≤ count p m
count-present p k v m o there = omega (arith, count-remove p k v m o there)

-- A predicate on what lookups find holds of every entry.
pub Every-All :
    {V : Type 0} (P : Text → V → Type 0) (m : Map V)
    → IsOrdered m
    → Every P m
    → All (λ (e : Text × V). P e.0 e.1) m
unfolding get
Every-All P [] o h = tt
Every-All P ((i, w) ∷ m) o h = (
  h i w (ground (arith, text_eq_refl i)),
  Every-All P m o.1 (λ k v found. h k v (ground (arith, found, get-behind i k w m o))),
)
