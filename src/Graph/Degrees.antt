-- ===== src/Graph/Degrees.antt =====
-- internal/graph/graph.go: the indegrees of `BuildNodes`, as nodes are selected.
use clausa_lens.Prelude.{
  String, true, false, ◌&&◌, not, List, [], ◌∷◌, All, Bool-cases, inl, inr, ◌==◌, string_eq, ◌≡◌,
  refl, arith, ℤ, pos, ◌<ℤ◌, ◌-ℤ◌, Dict, lookup, insert, delete, has, eq_refl, eq_sound,
}
use clausa_lens.Contracts.Event.{ExecutionEvent}
use clausa_lens.Contracts.Graph.{Adjacency, neighbours}
use clausa_lens.Graph.Order.{index_of}
use clausa_lens.Graph.Build.{decrement, count_edges, zero_degrees}

-- No entry of an id is at 0 or above, so that it is not selected any more.
abbrev pub Spent : String → Dict ℤ → Type 0
Spent k [] = Unit
Spent k ((id, d) ∷ rest) = ((id == k && not (d <ℤ pos 0)) ≡ false) × Spent k rest

insert-Spent :
    (k next : String) (v : ℤ) (degrees : Dict ℤ)
    → (next == k && not (v <ℤ pos 0)) ≡ false
    → Spent k degrees
    → Spent k (insert next v degrees)
unfolding insert
insert-Spent k next v [] h s = (h, tt)
insert-Spent k next v ((id, d) ∷ rest) h (one, s) = elim (Bool-cases (id == next)) [
  | inl same ↦ rw same (ground (arith, eq_sound id next same), s)
  | inr other ↦ rw other (one, insert-Spent k next v rest h s)
]

below_zero : (d : ℤ) → (d <ℤ pos 0) ≡ true → ((d -ℤ pos 1) <ℤ pos 0) ≡ true
below_zero d h = ground arith

index_of-Spent :
    (k : String) (degrees : Dict ℤ)
    → Spent k degrees
    → ((index_of degrees k -ℤ pos 1) <ℤ pos 0) ≡ true
unfolding index_of lookup
index_of-Spent k [] s = refl
index_of-Spent k ((id, d) ∷ rest) (one, s) = elim (Bool-cases (id == k)) [
  | inl same ↦ rw same (below_zero d (ground arith))
  | inr other ↦ rw other (index_of-Spent k rest s)
]

pub decrement-Spent :
    (k : String) (degrees : Dict ℤ) (ns : List String)
    → Spent k degrees
    → Spent k (decrement degrees ns)
unfolding decrement
decrement-Spent k degrees [] s = s
decrement-Spent k degrees (n ∷ ns) s =
    decrement-Spent k (insert n (index_of degrees n -ℤ pos 1) degrees) ns (
      insert-Spent k n (index_of degrees n -ℤ pos 1) degrees
        (elim (Bool-cases (n == k)) [
          | inr other ↦ rw other refl
          | inl same ↦ rw (eq_sound n k same) (rw (index_of-Spent k degrees s) (ground arith))
        ])
        s)

pub delete-Spent :
    (k id : String) (degrees : Dict ℤ) → Spent k degrees → Spent k (delete id degrees)
unfolding delete
delete-Spent k id [] s = tt
delete-Spent k id ((j, d) ∷ rest) (one, s) = elim (Bool-cases (j == id)) [
  | inl same ↦ rw same (delete-Spent k id rest s)
  | inr other ↦ rw other (one, delete-Spent k id rest s)
]

pub deleted-Spent : (k : String) (degrees : Dict ℤ) → Spent k (delete k degrees)
unfolding delete
deleted-Spent k [] = tt
deleted-Spent k ((j, d) ∷ rest) = elim (Bool-cases (j == k)) [
  | inl same ↦ rw same (deleted-Spent k rest)
  | inr other ↦ rw other (rw other refl, deleted-Spent k rest)
]

module _ (by_id : Dict ExecutionEvent) where
  abbrev pub Known : Dict ℤ → Type 0
  Known degrees = All (λ (id, d). has id by_id ≡ true) degrees

  insert-Known :
      (id : String) (v : ℤ) (degrees : Dict ℤ)
      → has id by_id ≡ true
      → Known degrees
      → Known (insert id v degrees)
  unfolding insert
  insert-Known id v [] h k = (h, tt)
  insert-Known id v ((j, d) ∷ rest) h (one, k) = elim (Bool-cases (j == id)) [
    | inl same ↦ rw same (h, k)
    | inr other ↦ rw other (one, insert-Known id v rest h k)
  ]

  pub delete-Known : (id : String) (degrees : Dict ℤ) → Known degrees → Known (delete id degrees)
  unfolding delete
  delete-Known id [] k = tt
  delete-Known id ((j, d) ∷ rest) (one, k) = elim (Bool-cases (j == id)) [
    | inl same ↦ rw same (delete-Known id rest k)
    | inr other ↦ rw other (one, delete-Known id rest k)
  ]

  pub decrement-Known :
      (degrees : Dict ℤ) (ns : List String)
      → All (λ id. has id by_id ≡ true) ns
      → Known degrees
      → Known (decrement degrees ns)
  unfolding decrement
  decrement-Known degrees [] all k = k
  decrement-Known degrees (n ∷ ns) (one, all) k =
      decrement-Known (insert n (index_of degrees n -ℤ pos 1) degrees) ns all
        (insert-Known n (index_of degrees n -ℤ pos 1) degrees one k)

  -- The edges lead to known ids.
  abbrev pub Inside : Adjacency → Type 0
  Inside adj = All (λ (a, b). has b by_id ≡ true) adj

  pub neighbours-Inside :
      (id : String) (adj : Adjacency)
      → Inside adj
      → All (λ n. has n by_id ≡ true) (neighbours id adj)
  unfolding neighbours
  neighbours-Inside id [] i = tt
  neighbours-Inside id ((a, b) ∷ es) (one, i) = elim (Bool-cases (a == id)) [
    | inl same ↦ rw same (one, neighbours-Inside id es i)
    | inr other ↦ rw other (neighbours-Inside id es i)
  ]

  pub count_edges-Known :
      (degrees : Dict ℤ) (adj : Adjacency)
      → Inside adj
      → Known degrees
      → Known (count_edges degrees adj)
  unfolding count_edges
  count_edges-Known degrees [] i k = k
  count_edges-Known degrees ((a, b) ∷ es) (one, i) k =
      count_edges-Known (insert b _ degrees) es i (insert-Known b _ degrees one k)

  zero_degrees-Known :
      (entries : Dict ExecutionEvent)
      → All (λ (id, e). has id by_id ≡ true) entries
      → Known (zero_degrees entries)
  unfolding zero_degrees
  zero_degrees-Known [] all = tt
  zero_degrees-Known ((id, e) ∷ rest) (one, all) = (one, zero_degrees-Known rest all)

has-later :
    (id : String) (entry : String × ExecutionEvent) (d : Dict ExecutionEvent)
    → has id d ≡ true
    → has id (entry ∷ d) ≡ true
unfolding lookup
has-later id (k, e) d h = ground arith

has-All-later :
    (entry : String × ExecutionEvent) (d xs : Dict ExecutionEvent)
    → All (λ (id, e). has id d ≡ true) xs
    → All (λ (id, e). has id (entry ∷ d) ≡ true) xs
has-All-later entry d [] all = tt
has-All-later entry d ((id, e) ∷ xs) (one, all) =
    (has-later id entry d one, has-All-later entry d xs all)

has-first :
    (id : String) (e : ExecutionEvent) (d : Dict ExecutionEvent) → has id ((id, e) ∷ d) ≡ true
unfolding lookup
has-first id e d = rw (eq_refl id) refl

has-All : (d : Dict ExecutionEvent) → All (λ (id, e). has id d ≡ true) d
has-All [] = tt
has-All ((id, e) ∷ d) = (has-first id e d, has-All-later (id, e) d d (has-All d))

pub start-Known : (by_id : Dict ExecutionEvent) → Known by_id (zero_degrees by_id)
start-Known by_id = zero_degrees-Known by_id by_id (has-All by_id)
