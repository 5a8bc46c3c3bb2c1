-- ===== src/Common/Bytes.antt =====
-- Rust's `str` as the list of its UTF-8 bytes: comparison, character tests, the digests.
use Prim.Native.Nat.{ℕ}
use Prim.Native.Char.{code}
use Prim.Native.String.{String}
use mathlib.Core.Path.{◌≡◌, refl, ap}
use mathlib.Core.Bool.{Bool, true, false, ◌&&◌, ◌||◌, not}
use mathlib.Core.Logic.{inl, inr, ◌↔◌, ◌≢◌}
use mathlib.Core.List.{List, [], ◌∷◌}
use native.Mathlib.Omega.{arith}
use immich_rs.Common.Tests.{Bool-cases, ltb, ◌==◌}
use immich_rs.Common.Lists.{All}

abbrev pub Text : Type 0
Text = List ℕ

-- The bytes of an ASCII literal.
abbrev pub str : String → Text
str String.[] = []
str (String.◌∷◌ c s) = code c ∷ str s

-- `a == b` and `a < b` on `str`: bytewise and lexicographic.
unfoldable pub text_eq : Text → Text → Bool
text_eq [] [] = true
text_eq [] (_ ∷ _) = false
text_eq (_ ∷ _) [] = false
text_eq (x ∷ xs) (y ∷ ys) = x == y && text_eq xs ys

unfoldable pub text_lt : Text → Text → Bool
text_lt [] [] = false
text_lt [] (_ ∷ _) = true
text_lt (_ ∷ _) [] = false
text_lt (x ∷ xs) (y ∷ ys) = ltb x y || (x == y && text_lt xs ys)

-- `a >= b` on `str`, a total order.
abbrev pub text_ge : Text → Text → Bool
text_ge a b = not (text_lt a b)

abbrev pub Before : Text → Text → Type 0
Before a b = text_lt a b ≡ true

pub text_eq_sound : (a b : Text) → text_eq a b ≡ true → a ≡ b
unfolding text_eq
text_eq_sound [] [] h = refl
text_eq_sound [] (_ ∷ _) h = cc
text_eq_sound (_ ∷ _) [] h = cc
text_eq_sound (x ∷ xs) (y ∷ ys) h = ground (arith, text_eq_sound xs ys)

pub text_eq_refl : (a : Text) → text_eq a a ≡ true
unfolding text_eq
text_eq_refl [] = refl
text_eq_refl (x ∷ xs) = ground (arith, text_eq_refl xs)

pub text_eq_iff : (a b : Text) → (text_eq a b ≡ true) ↔ (a ≡ b)
text_eq_iff a b = (text_eq_sound a b, λ e. rw e (text_eq_refl b))

pub text_lt_irrefl : (a : Text) → text_lt a a ≡ false
unfolding text_lt
text_lt_irrefl [] = refl
text_lt_irrefl (x ∷ xs) = ground (arith, text_lt_irrefl xs)

pub text_lt_trans : (a b c : Text) → Before a b → Before b c → Before a c
unfolding text_lt
text_lt_trans [] [] c h k = cc
text_lt_trans [] (_ ∷ _) [] h k = cc
text_lt_trans [] (_ ∷ _) (_ ∷ _) h k = refl
text_lt_trans (_ ∷ _) [] c h k = cc
text_lt_trans (_ ∷ _) (_ ∷ _) [] h k = cc
text_lt_trans (x ∷ xs) (y ∷ ys) (z ∷ zs) h k = ground (arith, text_lt_trans xs ys zs)

pub text_lt_total : (a b : Text) → text_lt a b ≡ false → text_lt b a ≡ false → a ≡ b
unfolding text_lt
text_lt_total [] [] h k = refl
text_lt_total [] (_ ∷ _) h k = cc
text_lt_total (_ ∷ _) [] h k = cc
text_lt_total (x ∷ xs) (y ∷ ys) h k = ground (arith, text_lt_total xs ys)

pub Before-ne : (a b : Text) → Before a b → a ≢ b
Before-ne a b h e = cc (text_lt_irrefl b, ap (λ (t : Text). text_lt t b) e, h)

-- `set.contains(key)`, where the set was filled one key at a time.
unfoldable pub contains : Text → List Text → Bool
contains k [] = false
contains k (x ∷ xs) = text_eq x k || contains k xs

pub contains-fresh : (k : Text) (xs : List Text) → (contains k xs ≡ false) ↔ All (λ x. x ≢ k) xs
unfolding contains
contains-fresh k [] = (λ _. tt, λ _. refl)
contains-fresh k (x ∷ xs) = (
  λ h. (λ e. ground (arith, text_eq_iff x k), (contains-fresh k xs).0 (ground arith)),
  λ h. ground (arith, text_eq_iff x k, (contains-fresh k xs).1 h.1),
)

-- Two texts that differ and do not stand one way stand the other.
pub Before-other_way : (a b : Text) → text_eq a b ≡ false → text_lt b a ≡ false → Before a b
Before-other_way a b n h = elim (Bool-cases (text_lt a b)) [
  | inl before ↦ before
  | inr after ↦ ground (arith, text_eq_iff a b, text_lt_total a b after h)
]
