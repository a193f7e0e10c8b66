-- ===== src/Prelude/Sort.antt =====
-- `sort.Slice` and `sort.SliceStable` by a Go `less`: a stable insertion sort.
use mathlib.Core.Path.{◌≡◌}
use mathlib.Core.Bool.{Bool, true, false}
use mathlib.Core.List.{List, [], ◌∷◌, Perm}
use mathlib.Core.List.Perm
use clausa_lens.Prelude.Tests.{if◌then◌else◌, Bool-cases}
use mathlib.Core.Logic.{inl, inr}

module _ {A : Type 0} (less : A → A → Bool) where
  -- Before the first element that is not less.
  unfoldable pub insert_by : A → List A → List A
  insert_by x [] = x ∷ []
  insert_by x (y ∷ ys) = if less y x then y ∷ insert_by x ys else x ∷ y ∷ ys

  unfoldable pub sort_by : List A → List A
  unfolding insert_by
  sort_by [] = []
  sort_by (x ∷ xs) = insert_by x (sort_by xs)

  -- No element is less than the one before it.
  abbrev pub IsSorted : List A → Type 0
  IsSorted [] = Unit
  IsSorted (x ∷ []) = Unit
  IsSorted (x ∷ y ∷ ys) = (less y x ≡ false) × IsSorted (y ∷ ys)

  insert_by-perm : (x : A) (ys : List A) → Perm (insert_by x ys) (x ∷ ys)
  unfolding insert_by
  insert_by-perm x [] = Perm.refl (x ∷ [])
  insert_by-perm x (y ∷ ys) = elim (Bool-cases (less y x)) [
    | inl e ↦ rw e (Perm.trans (Perm.cons y (insert_by-perm x ys)) (Perm.swap x y ys))
    | inr e ↦ rw e (Perm.refl (x ∷ y ∷ ys))
  ]

  pub sort_by-perm : (xs : List A) → Perm (sort_by xs) xs
  unfolding sort_by
  sort_by-perm [] = Perm.refl []
  sort_by-perm (x ∷ xs) = Perm.trans (insert_by-perm x (sort_by xs)) (Perm.cons x (sort_by-perm xs))

  -- Sorted by a test that does not hold both ways.
  IsSorted-cons :
      ((a b : A) → less a b ≡ true → less b a ≡ false)
      → (x y : A) (ys : List A) → less y x ≡ true
      → IsSorted (y ∷ ys)
      → IsSorted (y ∷ insert_by x ys)
  unfolding insert_by
  IsSorted-cons asym x y [] e s = (asym y x e, tt)
  IsSorted-cons asym x y (z ∷ zs) e (first, rest) = elim (Bool-cases (less z x)) [
    | inl f ↦ rw f (first, IsSorted-cons asym x z zs f rest)
    | inr f ↦ rw f (asym y x e, (f, rest))
  ]

  insert_by-IsSorted :
      ((a b : A) → less a b ≡ true → less b a ≡ false)
      → (x : A) (ys : List A) → IsSorted ys
      → IsSorted (insert_by x ys)
  unfolding insert_by
  insert_by-IsSorted asym x [] s = tt
  insert_by-IsSorted asym x (y ∷ ys) s = elim (Bool-cases (less y x)) [
    | inl e ↦ rw e (IsSorted-cons asym x y ys e s)
    | inr e ↦ rw e (e, s)
  ]

  pub sort_by-IsSorted :
      ((a b : A) → less a b ≡ true → less b a ≡ false) → (xs : List A) → IsSorted (sort_by xs)
  unfolding sort_by
  sort_by-IsSorted asym [] = tt
  sort_by-IsSorted asym (x ∷ xs) = insert_by-IsSorted asym x (sort_by xs) (sort_by-IsSorted asym xs)
