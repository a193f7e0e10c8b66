-- ===== src/Core/Ordered.antt =====
-- Sorting and taking keep the elements of a list.
use mathlib.Core.List.{Memᴰ}
use clausa_lens.Prelude.{
  ◌<◌, refl, string_eq, ap, ℕ, zero, suc, ◌≤◌, Bool, List, [], ◌∷◌, length, take, All, ◌≡◌, arith,
  sort_by, insert_by, Bool-cases, inl, inr,
}
use clausa_lens.Contracts.IncidentEnums.{incident_status_eq}

Mem-later :
    {A : Type 0} (a x y : A) (ys zs : List A)
    → (Memᴰ a (x ∷ ys) → Memᴰ a zs)
    → Memᴰ a (x ∷ y ∷ ys)
    → Memᴰ a (y ∷ zs)
Mem-later a x y ys zs f (Memᴰ.head e) = Memᴰ.tail (f (Memᴰ.head e))
Mem-later a x y ys zs f (Memᴰ.tail (Memᴰ.head e)) = Memᴰ.head e
Mem-later a x y ys zs f (Memᴰ.tail (Memᴰ.tail m)) = Memᴰ.tail (f (Memᴰ.tail m))

insert_by-Mem :
    {A : Type 0} (less : A → A → Bool) (a x : A) (ys : List A)
    → Memᴰ a (x ∷ ys)
    → Memᴰ a (insert_by less x ys)
unfolding insert_by
insert_by-Mem less a x [] m = m
insert_by-Mem less a x (y ∷ ys) m = elim (Bool-cases (less y x)) [
  | inr e ↦ rw e m
  | inl e ↦ rw e (Mem-later a x y ys (insert_by less x ys) (insert_by-Mem less a x ys) m)
]

pub sort_by-Mem :
    {A : Type 0} (less : A → A → Bool) (a : A) (xs : List A) → Memᴰ a xs → Memᴰ a (sort_by less xs)
unfolding sort_by
sort_by-Mem less a [] m = elim m [ ]
sort_by-Mem less a (x ∷ xs) (Memᴰ.head e) = insert_by-Mem less a x (sort_by less xs) (Memᴰ.head e)
sort_by-Mem less a (x ∷ xs) (Memᴰ.tail m) =
    insert_by-Mem less a x (sort_by less xs) (Memᴰ.tail (sort_by-Mem less a xs m))

insert_by-All :
    {A : Type 0} (P : A → Type 0) (less : A → A → Bool) (x : A) (ys : List A)
    → P x
    → All P ys
    → All P (insert_by less x ys)
unfolding insert_by
insert_by-All P less x [] p all = (p, tt)
insert_by-All P less x (y ∷ ys) p (now, later) = elim (Bool-cases (less y x)) [
  | inl e ↦ rw e (now, insert_by-All P less x ys p later)
  | inr e ↦ rw e (p, (now, later))
]

pub sort_by-All :
    {A : Type 0} (P : A → Type 0) (less : A → A → Bool) (xs : List A)
    → All P xs
    → All P (sort_by less xs)
unfolding sort_by
sort_by-All P less [] all = tt
sort_by-All P less (x ∷ xs) (now, later) =
    insert_by-All P less x (sort_by less xs) now (sort_by-All P less xs later)

pub take-All : {A : Type 0} (P : A → Type 0) (n : ℕ) (xs : List A) → All P xs → All P (take n xs)
take-All P zero xs all = tt
take-All P (suc n) [] all = tt
take-All P (suc n) (x ∷ xs) (now, later) = (now, take-All P n xs later)

pub length-take : {A : Type 0} (n : ℕ) (xs : List A) → length (take n xs) ≤ n
length-take zero xs = omega arith
length-take (suc n) [] = omega arith
length-take (suc n) (x ∷ xs) = omega (arith, length-take n xs)

pub length-take-more : {A : Type 0} (n : ℕ) (xs : List A) → n < length xs → length (take n xs) ≡ n
length-take-more zero xs h = refl
length-take-more (suc n) [] h = omega arith
length-take-more (suc n) (x ∷ xs) h = ap suc (length-take-more n xs (omega arith))
