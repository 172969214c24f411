-- ===== src/Prelude/Result.antt =====
-- Fallible code: a result, the `do` notation for it, and the two ways that the program raises.
use mathlib.Core.Path.{◌≡◌, refl}
use mathlib.Core.Bool.{Bool, true, false}
use mathlib.Core.Logic.{◌⊎◌, inl, inr}
use mathlib.Core.Option.{Option, none, some}
use native.Mathlib.Omega.{arith}

pub data Result (E A : Type 0) : Type 0 where
  ok : A → Result E A
  err : E → Result E A

infixl 5 ◌>>=◌ ◌>>◌
abbrev pub ◌>>=◌ : {E A B : Type 0} → Result E A → (A → Result E B) → Result E B
err raised >>= continue = err raised
ok value >>= continue = continue value

-- `if not test: raise e`
abbrev pub guard : {E : Type 0} → Bool → E → Result E (Unit {0})
guard false raised = err raised
guard true raised = ok tt

abbrev pub ◌>>◌ : {E B : Type 0} → Result E (Unit {0}) → Result E B → Result E B
first >> rest = first >>= λ checked. rest

-- `if value is None: raise e`
abbrev pub require : {E A : Type 0} → Option A → E → Result E A
require (some a) e = ok a
require none e = err e

abbrev pub is_ok : {E A : Type 0} → Result E A → Bool
is_ok (ok _) = true
is_ok (err _) = false

-- Inversion of a `do` block that returned.
pub >>=-eq-ok :
    {E A B : Type 0} (first : Result E A) (continue : A → Result E B) {b : B}
    → (first >>= continue) ≡ ok b
    → (value : A) × (first ≡ ok value) × (continue value ≡ ok b)
>>=-eq-ok (err raised) continue h = absurd (ground arith)
>>=-eq-ok (ok value) continue h = (value, refl, h)

pub guard-eq-ok : {E : Type 0} (b : Bool) (e : E) {u : Unit {0}} → guard b e ≡ ok u → b ≡ true
guard-eq-ok true e h = refl
guard-eq-ok false e h = absurd (ground arith)

pub require-eq-ok : {E A : Type 0} (o : Option A) (e : E) {a : A} → require o e ≡ ok a → o ≡ some a
require-eq-ok (some a) e h = ground arith
require-eq-ok none e h = absurd (ground arith)

pub ok-injective : {E A : Type 0} {a b : A} → ◌≡◌ {A = Result E A} (ok a) (ok b) → a ≡ b
ok-injective h = ground arith

pub Result-cases :
    {E A : Type 0} (r : Result E A) → ((a : A) × (r ≡ ok a)) ⊎ ((e : E) × (r ≡ err e))
Result-cases (ok a) = inl (a, refl)
Result-cases (err e) = inr (e, refl)
