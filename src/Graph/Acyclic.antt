-- ===== src/Graph/Acyclic.antt =====
-- The recursive `visit` of internal/contracts/contracts.go and internal/graph/graph.go where it finds
-- no cycle: what it has marked as done is on no cycle.
use clausa_lens.Prelude.{
  ℕ, zero, suc, String, Bool, true, false, List, [], ◌∷◌, length, ◌≡◌, refl, arith, ◌⊎◌, inl, inr,
  ◌↔◌, ◌==◌, string_eq, eq_refl, eq_sound, subst, Bool-cases, insert, lookup,
}
use clausa_lens.Contracts.Graph.{
  Adjacency, Marks, Colour, mark_of, neighbours, visit, visit_any, seen_text, search_cycle,
}
use clausa_lens.Graph.Walks.{Ends, ends, neighbours_complete, mark_of-insert}

-- The walks from the nodes that are done end.
abbrev pub Settled : Adjacency → Marks → Type 0
Settled adj m = (x : String) → mark_of x m ≡ Colour.black → Ends adj x

-- What a search that finds no cycle leaves: more nodes are done, their walks end, and the same nodes
-- are on the stack.
pub record Searched (adj : Adjacency) (m m' : Marks) : Type 0 where
  pub settled : Settled adj m'
  pub kept : (x : String) → mark_of x m ≡ Colour.black → mark_of x m' ≡ Colour.black
  pub stack : (x : String) → (mark_of x m' ≡ Colour.grey) ↔ (mark_of x m ≡ Colour.grey)

Searched-trans :
    {adj : Adjacency} {a b c : Marks} → Searched adj a b → Searched adj b c → Searched adj a c
Searched-trans p q = record {
  settled = q.settled;
  kept = λ x h. q.kept x (p.kept x h);
  stack = λ x. ground (arith, p.stack x, q.stack x);
}

pub Colour-cases : (c : Colour) → (c ≡ Colour.black) ⊎ ((c ≡ Colour.grey) ⊎ (c ≡ Colour.white))
Colour-cases Colour.black = inl refl
Colour-cases Colour.grey = inr (inl refl)
Colour-cases Colour.white = inr (inr refl)

visit_any-Searched :
    (adj : Adjacency) (step : String → Marks → Bool × Marks)
    → ((id : String) (m m' : Marks)
        → Settled adj m
        → step id m ≡ (false, m')
        → Searched adj m m' × (mark_of id m' ≡ Colour.black))
    → (ids : List String) (m m' : Marks) → Settled adj m
    → visit_any step ids m ≡ (false, m')
    → Searched adj m m' × ((x : String) → seen_text x ids ≡ true → mark_of x m' ≡ Colour.black)
unfolding visit_any
visit_any-Searched adj step each [] m m' s h = (
  record {
    settled = λ x k. s x (ground arith);
    kept = λ x k. ground arith;
    stack = λ x. ground arith;
  },
  λ x k. cc,
)
visit_any-Searched adj step each (id ∷ ids) m m' s h = elim (Bool-cases (step id m).0) [
  | inl found ↦ absurd (ground arith)
  | inr clear ↦
      let mid = (step id m).1 in
      let (one, done) = each id m mid s (ground arith) in
      let (rest, all_done) =
        visit_any-Searched adj step each ids mid m' one.settled (ground arith) in
      (
        Searched-trans one rest,
        λ x member. elim (Bool-cases (x == id)) [
          | inl is ↦ rest.kept x (ground (arith, string_eq.beq_iff x id))
          | inr other ↦ all_done x (ground arith)
        ],
      )
]

pub Settled-enter :
    (adj : Adjacency) (id : String) (m : Marks)
    → Settled adj m
    → Settled adj (insert id Colour.grey m)
Settled-enter adj id m s x h = s x (ground (arith, mark_of-insert id x Colour.grey m))

-- `visit` of a node that was not marked, after the loop over its neighbours.
Searched-leave :
    (adj : Adjacency) (id : String) (m m' : Marks)
    → mark_of id m ≡ Colour.white
    → Searched adj (insert id Colour.grey m) m'
    → ((x : String) → seen_text x (neighbours id adj) ≡ true → mark_of x m' ≡ Colour.black)
    → Searched adj m (insert id Colour.black m')
      × (mark_of id (insert id Colour.black m') ≡ Colour.black)
Searched-leave adj id m m' white inner done = (
  record {
    settled = λ x h. elim (Bool-cases (id == x)) [
      | inl is ↦
          subst (Ends adj) (eq_sound id x is)
            (ends (λ b e. inner.settled b (done b (neighbours_complete id b adj e))))
      | inr other ↦ inner.settled x (ground (arith, mark_of-insert id x Colour.black m'))
    ];
    kept = λ x h. ground (
      arith,
      mark_of-insert id x Colour.black m',
      mark_of-insert id x Colour.grey m,
      inner.kept x,
    );
    stack = λ x. ground (
      arith,
      mark_of-insert id x Colour.black m',
      mark_of-insert id x Colour.grey m,
      inner.stack x,
      string_eq.beq_iff id x,
    );
  },
  rw mark_of-insert (rw (eq_refl id) refl),
)

pub visit-Searched :
    (fuel : ℕ) (adj : Adjacency) (id : String) (m m' : Marks)
    → Settled adj m
    → visit fuel adj id m ≡ (false, m')
    → Searched adj m m' × (mark_of id m' ≡ Colour.black)
unfolding visit
visit-Searched zero adj id m m' s h = cc
visit-Searched (suc fuel) adj id m m' s h = elim (Colour-cases (mark_of id m)) [
  | inl black ↦ (
    record {
      settled = λ x k. s x (ground arith);
      kept = λ x k. ground arith;
      stack = λ x. ground arith;
    },
    ground arith,
  )
  | inr (inl grey) ↦ absurd (ground arith)
  | inr (inr white) ↦
      let entered = insert id Colour.grey m in
      let loop = visit_any (visit fuel adj) (neighbours id adj) entered in
      let sub =
        visit_any-Searched adj (visit fuel adj) (visit-Searched fuel adj) (neighbours id adj)
          entered loop.1 (Settled-enter adj id m s) (ground arith) in
      let is : m' ≡ insert id Colour.black loop.1 = ground arith in
      rw is (Searched-leave adj id m loop.1 white sub.0 sub.1)
]

pub Settled-nil : (adj : Adjacency) → Settled adj []
unfolding mark_of lookup
Settled-nil adj x h = absurd (ground arith)

-- Where the search finds no cycle, the walks from each of the nodes end.
pub search_cycle-Ends :
    (nodes : List String) (adj : Adjacency)
    → search_cycle nodes adj ≡ false
    → (a : String) → seen_text a nodes ≡ true
    → Ends adj a
unfolding search_cycle
search_cycle-Ends nodes adj h a member =
    let fuel = suc (suc (length adj)) in
    let found = visit_any (visit fuel adj) nodes [] in
    let (searched, done) =
      visit_any-Searched adj (visit fuel adj) (visit-Searched fuel adj) nodes [] found.1
        (Settled-nil adj) (ground arith) in
    searched.settled a (done a member)
