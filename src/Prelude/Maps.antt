-- ===== src/Prelude/Maps.antt =====
-- Go's `map[string]V`, as an association list in which no key stands twice.
use Prim.Native.String.{String}
use mathlib.Core.Path.{◌≡◌, refl}
use mathlib.Core.Bool.{Bool}
use mathlib.Core.Option.{Option, none, some}
use mathlib.Core.List.{List, [], ◌∷◌}
use native.Mathlib.Omega.{arith}
use text.Mathlib.TextEquality.{eq_iff}
use clausa_lens.Prelude.Tests.{if◌then◌else◌, is_some}
use clausa_lens.Prelude.Equality.{◌==◌, string_eq}

abbrev pub Dict : Type 0 → Type 0
Dict V = List (String × V)

module _ {V : Type 0} where
  unfoldable pub lookup : String → Dict V → Option V
  lookup wanted [] = none
  lookup wanted ((key, value) ∷ dict) = if key == wanted then some value else lookup wanted dict

  -- `m[key] = value`, in the place of the entry that it writes over.
  unfoldable pub insert : String → V → Dict V → Dict V
  insert key value [] = (key, value) ∷ []
  insert key value ((first, old) ∷ dict) =
      if first == key then (key, value) ∷ dict else (first, old) ∷ insert key value dict

  -- `delete(m, k)`
  unfoldable pub delete : String → Dict V → Dict V
  delete k [] = []
  delete k ((j, w) ∷ m) = let rest = delete k m in if j == k then rest else (j, w) ∷ rest

  -- `_, exists := m[k]`
  abbrev pub has : String → Dict V → Bool
  has k m = is_some (lookup k m)

  -- `for _, v := range m`, in some order.
  abbrev pub values : Dict V → List V
  values [] = []
  values ((k, v) ∷ m) = v ∷ values m

  pub lookup-insert :
      (key wanted : String) (value : V) (dict : Dict V)
      → lookup wanted (insert key value dict)
        ≡ (if key == wanted then some value else lookup wanted dict)
  unfolding insert lookup
  lookup-insert key wanted value [] = refl
  lookup-insert key wanted value ((first, old) ∷ dict) =
      let later = lookup-insert key wanted value dict in
      ground (arith, eq_iff first key, eq_iff first wanted, eq_iff key wanted, later)

  pub lookup-delete :
      (key wanted : String) (dict : Dict V)
      → lookup wanted (delete key dict) ≡ (if key == wanted then none else lookup wanted dict)
  unfolding delete lookup
  lookup-delete key wanted [] = ground arith
  lookup-delete key wanted ((first, old) ∷ dict) =
      let later = lookup-delete key wanted dict in
      ground (arith, eq_iff first key, eq_iff first wanted, eq_iff key wanted, later)
