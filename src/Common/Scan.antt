-- ===== src/Common/Scan.antt =====
-- The two facts that a validator's loop carries along: the text before the present one is smaller,
-- and no identifier was seen twice. Read over the whole list they are strict order and distinctness.
use mathlib.Core.Path.{◌≡◌, refl}
use mathlib.Core.Bool.{Bool, true, false}
use mathlib.Core.Logic.{◌↔◌, ◌≢◌}
use mathlib.Core.Option.{Option, none, some}
use mathlib.Core.List.{List, [], ◌∷◌}
use native.Mathlib.Omega.{arith}
use immich_rs.Common.Tests.{is_some_and}
use immich_rs.Common.Lists.{windows_all, All, AllPairs, All-imp, All-zip}
use immich_rs.Common.Bytes.{Text, text_lt, text_ge, Before, text_lt_trans, contains, contains-fresh}

-- `previous.is_some_and(|value| value >= text)`
abbrev pub not_after : Option Text → Text → Bool
not_after previous text = is_some_and previous (λ value. text_ge value text)

-- Each text is greater than the one before it.
abbrev pub Ascends : Option Text → List Text → Type 0
Ascends previous [] = Unit
Ascends previous (x ∷ xs) = (not_after previous x ≡ false) × Ascends (some x) xs

-- No text is among those seen, or comes twice.
abbrev pub Fresh : List Text → List Text → Type 0
Fresh seen [] = Unit
Fresh seen (x ∷ xs) = (contains x seen ≡ false) × Fresh (x ∷ seen) xs

Ascends-All : (p : Text) (xs : List Text) → Ascends (some p) xs → All (Before p) xs
Ascends-All p [] h = tt
Ascends-All p (x ∷ xs) h =
    let px : Before p x = ground arith in
    (px, All-imp (Before x) (Before p) xs (λ y. text_lt_trans p x y px) (Ascends-All x xs h.1))

Ascends-pairs : (p : Option Text) (xs : List Text) → Ascends p xs → AllPairs Before xs
Ascends-pairs p [] h = tt
Ascends-pairs p (x ∷ xs) h = (Ascends-All x xs h.1, Ascends-pairs (some x) xs h.1)

pairs-Ascends :
    (p : Text) (xs : List Text) → All (Before p) xs → AllPairs Before xs → Ascends (some p) xs
pairs-Ascends p [] h k = tt
pairs-Ascends p (x ∷ xs) h k = (ground arith, pairs-Ascends x xs k.0 k.1)

-- Comparing neighbours is enough: every text is then smaller than all that follow.
pub Ascends-iff : (xs : List Text) → Ascends none xs ↔ AllPairs Before xs
Ascends-iff [] = (λ _. tt, λ _. tt)
Ascends-iff (x ∷ xs) = (Ascends-pairs none (x ∷ xs), λ k. (refl, pairs-Ascends x xs k.0 k.1))

pub windows_iff : (xs : List Text) → (windows_all text_lt xs ≡ true) ↔ AllPairs Before xs
windows_iff [] = (λ _. tt, λ _. refl)
windows_iff (x ∷ []) = (λ _. (tt, tt), λ _. refl)
windows_iff (x ∷ y ∷ rest) = (
  λ h.
      let tail : AllPairs Before (y ∷ rest) = (windows_iff (y ∷ rest)).0 (ground arith) in
      let xy : Before x y = ground arith in
      ((xy, All-imp (Before y) (Before x) rest (λ z. text_lt_trans x y z xy) tail.0), tail),
  λ k. ground (arith, (windows_iff (y ∷ rest)).1 k.1),
)

-- Distinct from everything seen and from one another.
abbrev pub Distinct : List Text → Type 0
Distinct xs = AllPairs (λ a b. a ≢ b) xs

abbrev Apart : List Text → Text → Type 0
Apart xs s = All (λ x. s ≢ x) xs

Fresh-parts : (seen xs : List Text) → Fresh seen xs → All (Apart xs) seen × Distinct xs
Fresh-parts seen [] h = (All-imp (λ _. Unit {0}) (Apart []) seen (λ _ _. tt) (all_units seen), tt)
  where
    all_units : (l : List Text) → All (λ _. Unit {0}) l
    all_units [] = tt
    all_units (_ ∷ l) = (tt, all_units l)
Fresh-parts seen (x ∷ xs) h =
    let ih : All (Apart xs) (x ∷ seen) × Distinct xs = Fresh-parts (x ∷ seen) xs h.1 in
    (All-zip (λ s. s ≢ x) (Apart xs) seen ((contains-fresh x seen).0 h.0) ih.0.1, (ih.0.0, ih.1))

parts-Fresh : (seen xs : List Text) → All (Apart xs) seen → Distinct xs → Fresh seen xs
parts-Fresh seen [] h k = tt
parts-Fresh seen (x ∷ xs) h k = (
  (contains-fresh x seen).1 (All-imp (Apart (x ∷ xs)) (λ s. s ≢ x) seen (λ s a. a.0) h),
  parts-Fresh (x ∷ seen) xs (k.0, All-imp (Apart (x ∷ xs)) (Apart xs) seen (λ s a. a.1) h) k.1,
)

-- Inserting into a set and refusing what is there: the texts are distinct.
pub Fresh-iff : (xs : List Text) → Fresh [] xs ↔ Distinct xs
Fresh-iff xs = (λ h. (Fresh-parts [] xs h).1, parts-Fresh [] xs tt)
