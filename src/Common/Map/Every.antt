-- ===== src/Common/Map/Every.antt =====
-- Lookups after each operation on a map, and predicates on every entry that a lookup finds.
use mathlib.Core.Path.{subst}
use immich_rs.Common.{
  Option, is_some, text_eq_iff, refl, Option-cases, ◌⊎◌, ◌∷◌, [], text_eq_refl, some, map_some,
  if◌then◌else◌, none, ◌≡◌, inr, inl, text_eq, Bool-cases, arith, map, Text,
}
use immich_rs.Common.Map.{get-insert, get-remove, insert, remove, modify, Map, get}

module _ {ℓ} {V : Type ℓ} where
  pub get-modify :
      (j k : Text) (f : V → V) (m : Map V)
      → get j (modify k f m) ≡ (if text_eq k j then map_some f (get j m) else get j m)
  unfolding get modify
  get-modify j k f [] = ground arith
  get-modify j k f ((i, w) ∷ m) =
      ground (arith, text_eq_iff k j, text_eq_iff i k, text_eq_iff i j, get-modify j k f m)

  -- The same change of every value.
  abbrev pub update_all : (V → V) → Map V → Map V
  update_all f m = map (λ (e : Text × V). (e.0, f e.1)) m

  pub get-update_all :
      (j : Text) (f : V → V) (m : Map V) → get j (update_all f m) ≡ map_some f (get j m)
  unfolding get
  get-update_all j f [] = refl
  get-update_all j f ((i, w) ∷ m) = ground (arith, get-update_all j f m)

  is_some-map_some : (f : V → V) (o : Option V) → is_some (map_some f o) ≡ is_some o
  is_some-map_some f none = refl
  is_some-map_some f (some v) = refl

  -- A change of values keeps the keys.
  pub contains_key-modify :
      (j k : Text) (f : V → V) (m : Map V) → is_some (get j (modify k f m)) ≡ is_some (get j m)
  contains_key-modify j k f m = ground (arith, get-modify j k f m, is_some-map_some f (get j m))

  pub contains_key-update_all :
      (j : Text) (f : V → V) (m : Map V) → is_some (get j (update_all f m)) ≡ is_some (get j m)
  contains_key-update_all j f m = cc (get-update_all j f m, is_some-map_some f (get j m))

  pub modify-absent : (k : Text) (f : V → V) (m : Map V) → get k m ≡ none → modify k f m ≡ m
  unfolding get modify
  modify-absent k f [] h = refl
  modify-absent k f ((i, w) ∷ m) h = ground (arith, modify-absent k f m)

  pub remove-absent : (k : Text) (m : Map V) → get k m ≡ none → remove k m ≡ m
  unfolding get remove
  remove-absent k [] h = refl
  remove-absent k ((i, w) ∷ m) h = ground (arith, remove-absent k m)

  -- What was inserted under a new key is taken back.
  pub remove-insert : (k : Text) (v : V) (m : Map V) → get k m ≡ none → remove k (insert k v m) ≡ m
  unfolding get remove insert
  remove-insert k v [] h = ground (arith, text_eq_refl k)
  remove-insert k v ((i, w) ∷ m) h =
      ground (arith, text_eq_refl k, remove-insert k v m, remove-absent k m)

module _ {V : Type 0} (P : Text → V → Type 0) where
  -- The predicate holds of every key and its value.
  abbrev pub Every : Map V → Type 0
  Every m = (k : Text) (v : V) → get k m ≡ some v → P k v

  pub Every-insert : (k : Text) (v : V) (m : Map V) → P k v → Every m → Every (insert k v m)
  Every-insert k v m p h j w e = elim (Bool-cases (text_eq k j)) [
    | inl same ↦
        subst (λ t. P t w) ((text_eq_iff k j).0 same)
          (subst (λ x. P k x) (ground (arith, get-insert j k v m)) p)
    | inr other ↦ h j w (ground (arith, get-insert j k v m))
  ]

  pub Every-remove : (k : Text) (m : Map V) → Every m → Every (remove k m)
  Every-remove k m h j w e = h j w (ground (arith, get-remove j k m))

  pub Every-modify :
      (k : Text) (f : V → V) (m : Map V)
      → ((v : V) → get k m ≡ some v → P k v → P k (f v))
      → Every m
      → Every (modify k f m)
  Every-modify k f m step h j w e = elim (Bool-cases (text_eq k j)) [
    | inl same ↦
        subst (λ t. P t w) ((text_eq_iff k j).0 same)
          (changed (Option-cases (get k m)) (ground (arith, get-modify j k f m, text_eq_iff k j)))
    | inr other ↦ h j w (ground (arith, get-modify j k f m))
  ]
    where
      changed :
          (get k m ≡ none) ⊎ ((v : V) × (get k m ≡ some v)) → map_some f (get k m) ≡ some w → P k w
      changed (inl missing) found = cc
      changed (inr (v, there)) found = subst (λ x. P k x) (cc) (step v there (h k v there))

  pub Every-update_all :
      (f : V → V) (m : Map V)
      → ((k : Text) (v : V) → P k v → P k (f v))
      → Every m
      → Every (update_all f m)
  Every-update_all f m step h j w e = elim (Option-cases (get j m)) [
    | inl missing ↦ cc (get-update_all j f m, e, missing)
    | inr (v, there) ↦
        subst (λ x. P j x) (cc (get-update_all j f m, e, there)) (step j v (h j v there))
  ]
