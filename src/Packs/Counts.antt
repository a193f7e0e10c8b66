-- ===== src/Packs/Counts.antt =====
-- internal/packregistry/devpack.go: what `alignEvents` reports, by count.
use clausa_lens.Prelude.{
  ℕ, suc, ◌+◌, String, Bool, true, false, List, [], ◌∷◌, ◌++◌, length, length-append, select, ◌≡◌,
  refl, ap, ◌∙◌, arith, ◌==◌, string_eq, Dict, insert, lookup, lookup-insert, has, sort_by,
  insert_by, Bool-cases, inl, inr,
}
use clausa_lens.Contracts.Event.{ExecutionEvent}
use clausa_lens.Graph.Build.{text_less}
use clausa_lens.Packs.Align.{
  align_events, align_keys, index_by_key, index_from, semantic_key, ids_or_none, drop, pair_ids,
  pair_less,
}

module _ {A : Type 0} (less : A → A → Bool) where
  length-insert_by : (x : A) (xs : List A) → length (insert_by less x xs) ≡ suc (length xs)
  unfolding insert_by
  length-insert_by x [] = refl
  length-insert_by x (y ∷ ys) = ground (arith, length-insert_by x ys)

  length-sort_by : (xs : List A) → length (sort_by less xs) ≡ length xs
  unfolding sort_by
  length-sort_by [] = refl
  length-sort_by (x ∷ xs) = length-insert_by x (sort_by less xs) ∙ ap suc (length-sort_by xs)

-- The ids of an index.
total : Dict (List String) → ℕ
total [] = 0
total ((key, ids) ∷ index) = length ids + total index

pair_ids-drop :
    (xs ys : List String)
    → (length (pair_ids xs ys) + length (drop (length ys) xs) ≡ length xs)
      × (length (pair_ids xs ys) + length (drop (length xs) ys) ≡ length ys)
pair_ids-drop [] [] = omega arith
pair_ids-drop [] (y ∷ ys) = omega arith
pair_ids-drop (x ∷ xs) [] = omega arith
pair_ids-drop (x ∷ xs) (y ∷ ys) = omega (arith, (pair_ids-drop xs ys).0, (pair_ids-drop xs ys).1)

total-insert :
    (key : String) (ids : List String) (index : Dict (List String))
    → total (insert key ids index) + length (ids_or_none (lookup key index))
      ≡ total index + length ids
unfolding total insert lookup
total-insert key ids [] = omega arith
total-insert key ids ((first, old) ∷ index) = ground (arith, total-insert key ids index)

total-index_from :
    (index : Dict (List String)) (es : List ExecutionEvent)
    → total (index_from index es) ≡ total index + length es
unfolding index_from
total-index_from index [] = omega arith
total-index_from index (e ∷ es) =
    let key = semantic_key e in
    let ids = ids_or_none (lookup key index) in
    omega (
      arith,
      total-index_from (insert key (ids ++ e.event_id ∷ []) index) es,
      total-insert key (ids ++ e.event_id ∷ []) index,
      length-append ids (e.event_id ∷ []),
    )

-- The ids of the second index under the keys of the first.
shared_keys : Dict (List String) → Dict (List String) → ℕ
shared_keys [] comp = 0
shared_keys ((key, ids) ∷ base) comp =
    length (ids_or_none (lookup key comp)) + shared_keys base comp

align_keys-counts :
    (base comp : Dict (List String))
    → (length (align_keys base comp).matched + length (align_keys base comp).removed ≡ total base)
      × (length (align_keys base comp).matched + length (align_keys base comp).added
          ≡ shared_keys base comp)
unfolding align_keys total shared_keys
align_keys-counts [] comp = (refl, refl)
align_keys-counts ((key, ids) ∷ base) comp =
    let rest = align_keys base comp in
    let others = ids_or_none (lookup key comp) in
    omega (
      arith,
      pair_ids-drop ids others,
      align_keys-counts base comp,
      length-append (pair_ids ids others) rest.matched,
      length-append (drop (length others) ids) rest.removed,
      length-append (drop (length ids) others) rest.added,
    )

-- No key stands twice.
Fresh : Dict (List String) → Type 0
Fresh [] = Unit
Fresh ((key, ids) ∷ index) = (has key index ≡ false) × Fresh index

insert-Fresh :
    (key : String) (ids : List String) (index : Dict (List String))
    → Fresh index
    → Fresh (insert key ids index)
unfolding Fresh insert lookup
insert-Fresh key ids [] f = (refl, tt)
insert-Fresh key ids ((first, old) ∷ index) f = elim (Bool-cases (first == key)) [
  | inl here ↦ rw here (ground (arith, string_eq.beq_iff first key), f.1)
  | inr later ↦ rw later (
    ground (
      arith,
      lookup-insert key first ids index,
      string_eq.beq_iff first key,
      string_eq.beq_iff key first,
    ),
    insert-Fresh key ids index f.1,
  )
]

index_from-Fresh :
    (index : Dict (List String)) (es : List ExecutionEvent)
    → Fresh index
    → Fresh (index_from index es)
unfolding index_from
index_from-Fresh index [] f = f
index_from-Fresh index (e ∷ es) f =
    let key = semantic_key e in
    index_from-Fresh (insert key (ids_or_none (lookup key index) ++ e.event_id ∷ []) index) es
      (insert-Fresh key (ids_or_none (lookup key index) ++ e.event_id ∷ []) index f)

abbrev one_if : Bool → ℕ
one_if true = 1
one_if false = 0

-- One more id in the second index counts where its key is in the first.
shared_keys-insert :
    (base comp : Dict (List String)) (key : String) (ids : List String)
    → Fresh base
    → length ids ≡ suc (length (ids_or_none (lookup key comp)))
    → shared_keys base (insert key ids comp) ≡ shared_keys base comp + one_if (has key base)
unfolding shared_keys Fresh lookup
shared_keys-insert [] comp key ids f more = omega arith
shared_keys-insert ((first, old) ∷ base) comp key ids f more = ground (
  arith,
  lookup-insert key first ids comp,
  shared_keys-insert base comp key ids f.1 more,
  string_eq.beq_iff first key,
  string_eq.beq_iff key first,
)

shared_keys-index_from :
    (base index : Dict (List String)) (es : List ExecutionEvent)
    → Fresh base
    → shared_keys base (index_from index es)
      ≡ shared_keys base index + length (select (λ e. has (semantic_key e) base) es)
unfolding index_from
shared_keys-index_from base index [] f = omega arith
shared_keys-index_from base index (e ∷ es) f =
    let key = semantic_key e in
    let ids = ids_or_none (lookup key index) in
    let new = ids ++ e.event_id ∷ [] in
    ground (
      arith,
      shared_keys-index_from base (insert key new index) es f,
      shared_keys-insert base index key new f (length-append ids (e.event_id ∷ []) ∙ omega arith),
    )

shared_keys-nil : (base : Dict (List String)) → shared_keys base [] ≡ 0
unfolding shared_keys lookup
shared_keys-nil [] = refl
shared_keys-nil ((key, ids) ∷ base) = omega (arith, shared_keys-nil base)

-- By count, the dev pack reports each baseline event as matched or removed; but of the comparison's
-- events it reports, as matched or added, those alone whose semantic key the baseline has.
pub align_events-counts :
    (baseline comparison : List ExecutionEvent)
    → (length (align_events baseline comparison).matched
          + length (align_events baseline comparison).removed
        ≡ length baseline)
      × (length (align_events baseline comparison).matched
            + length (align_events baseline comparison).added
          ≡ length (select (λ e. has (semantic_key e) (index_by_key baseline)) comparison))
unfolding align_events index_by_key total Fresh
align_events-counts baseline comparison =
    let base = index_by_key baseline in
    let comp = index_by_key comparison in
    let a = align_keys base comp in
    omega (
      arith,
      length-sort_by pair_less a.matched,
      length-sort_by text_less a.removed,
      length-sort_by text_less a.added,
      align_keys-counts base comp,
      total-index_from [] baseline,
      shared_keys-index_from base [] comparison (index_from-Fresh [] baseline tt),
      shared_keys-nil base,
    )
