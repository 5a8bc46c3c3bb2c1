-- ===== src/Common/Outcome.antt =====
-- `Result<T, E>`, with the error type first, and the `?` operator as a bind.
use mathlib.Core.Path.{◌≡◌, refl}
use mathlib.Core.Logic.{◌⊎◌, inl, inr}
use mathlib.Core.Option.{Option, none, some}
use mathlib.Core.Bool.{Bool, true, false}

pub data Result {ℓ κ} (E : Type ℓ) (A : Type κ) : Type (ℓ ⊔ κ) where
  ok : A → Result E A
  err : E → Result E A

-- How a call ends when it does not return: an error value, or a panic that unwinds the thread.
pub data Failure {ℓ} (E : Type ℓ) : Type ℓ where
  refused : E → Failure E
  panicked : Failure E

-- `if test { return Err(failure) }`
abbrev pub refuse_if {ℓ} : {E : Type ℓ} → Bool → E → Result E (Unit {0})
refuse_if false failure = ok tt
refuse_if true failure = err failure

-- `option.ok_or(failure)`
abbrev pub ok_or {ℓ κ} : {E : Type ℓ} {A : Type κ} → Option A → E → Result E A
ok_or none failure = err failure
ok_or (some value) failure = ok value

module _ {ℓ κ μ} {E : Type ℓ} {A : Type κ} {B : Type μ} where
  infixl 5 ◌>>=◌
  abbrev pub ◌>>=◌ : Result E A → (A → Result E B) → Result E B
  err failure >>= next = err failure
  ok value >>= next = next value

  -- Inversion of a bind that succeeded.
  pub >>=-eq-ok :
      (first : Result E A) (next : A → Result E B) {end : B}
      → (first >>= next) ≡ ok end
      → (value : A) × (first ≡ ok value) × (next value ≡ ok end)
  >>=-eq-ok (err failure) next h = cc
  >>=-eq-ok (ok value) next h = (value, refl, h)

infixl 5 ◌>>◌
abbrev pub ◌>>◌ {ℓ μ} : {E : Type ℓ} {B : Type μ} → Result E (Unit {0}) → Result E B → Result E B
test >> next = test >>= λ _. next

pub Result-cases {ℓ κ} :
    {E : Type ℓ} {A : Type κ} (r : Result E A) → ((e : E) × (r ≡ err e)) ⊎ ((a : A) × (r ≡ ok a))
Result-cases (ok a) = inr (a, refl)
Result-cases (err e) = inl (e, refl)

pub ok_or-ok {ℓ κ} :
    {E : Type ℓ} {A : Type κ} (option : Option A) (failure : E) {value : A}
    → ok_or option failure ≡ ok value
    → option ≡ some value
ok_or-ok none failure h = cc
ok_or-ok (some value) failure h = cc

pub refuse_if-ok {ℓ} :
    {E : Type ℓ} (test : Bool) (failure : E) {value : Unit {0}}
    → refuse_if test failure ≡ ok value
    → test ≡ false
refuse_if-ok false failure h = refl
refuse_if-ok true failure h = cc
