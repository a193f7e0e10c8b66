-- ===== src/Prelude/Results.antt =====
-- Functions that return an `error`: a value or the error, and the validators' chains of tests.
use Prim.Native.String.{String}
use mathlib.Core.Path.{◌≡◌, refl}
use mathlib.Core.Logic.{◌⊎◌, inl, inr}
use mathlib.Core.Bool.{Bool, true, false}
use mathlib.Core.List.{List, [], ◌∷◌}

pub data Result (E A : Type 0) : Type 0 where
  ok : A → Result E A
  err : E → Result E A

infixl 5 ◌>>=◌ ◌>>◌
abbrev pub ◌>>=◌ : {E A B : Type 0} → Result E A → (A → Result E B) → Result E B
ok a >>= f = f a
err e >>= f = err e

abbrev pub ◌>>◌ : {E B : Type 0} → Result E (Unit {0}) → Result E B → Result E B
ok a >> k = k
err e >> k = err e

-- A validator's `error`, by its message.
abbrev pub Check : Type 0
Check = Result String (Unit {0})

-- `if test { return e }`
abbrev pub reject : {E : Type 0} → Bool → E → Result E (Unit {0})
reject true e = err e
reject false e = ok tt

-- `if err := r; err != nil { return e }`
abbrev pub or_fail : {E D A : Type 0} → Result D A → E → Result E A
or_fail (ok a) e = ok a
or_fail (err d) e = err e

-- `for _, x := range xs { if err := f(x); err != nil { return err } }`
abbrev pub check_all : {A : Type 0} → (A → Check) → List A → Check
check_all f [] = ok tt
check_all f (x ∷ xs) = f x >> check_all f xs

abbrev pub is_err : {E A : Type 0} → Result E A → Bool
is_err (ok a) = false
is_err (err e) = true

pub Result-cases :
    {E A : Type 0} (r : Result E A) → ((a : A) × (r ≡ ok a)) ⊎ ((e : E) × (r ≡ err e))
Result-cases (ok a) = inl (a, refl)
Result-cases (err e) = inr (e, refl)
