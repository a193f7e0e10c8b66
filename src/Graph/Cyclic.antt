-- ===== src/Graph/Cyclic.antt =====
-- The recursive `visit` of internal/contracts/contracts.go and internal/graph/graph.go where it finds
-- a cycle: there is one, and the fuel of the search did not run out.
use clausa_lens.Prelude.{
  ℕ, zero, suc, ◌+◌, ◌≤◌, String, Bool, true, false, List, [], ◌∷◌, length, ◌≡◌, ◌≢◌, refl, arith,
  ◌⊎◌, inl, inr, ◌↔◌, ◌==◌, string_eq, Bool-cases, insert, lookup,
}
use clausa_lens.Contracts.Graph.{
  Adjacency, Marks, Colour, mark_of, neighbours, visit, visit_any, seen_text, search_cycle,
}
use clausa_lens.Graph.Walks.{Edge, Walk, one, more, neighbours-Edge, mark_of-insert}
use clausa_lens.Graph.Acyclic.{
  Settled, Settled-nil, Searched, visit-Searched, Settled-enter, Colour-cases,
}

abbrev open_target : Colour → ℕ
open_target Colour.grey = 0
open_target _ = 1

-- The edges whose target is not on the stack.
room : Adjacency → Marks → ℕ
room [] m = 0
room ((a, b) ∷ es) m = open_target (mark_of b m) + room es m

room-le-length : (es : Adjacency) (m : Marks) → room es m ≤ length es
unfolding room
room-le-length [] m = omega arith
room-le-length ((a, b) ∷ es) m = ground (arith, room-le-length es m)

-- The room depends on the stack only.
room-stack :
    (es : Adjacency) (m m' : Marks)
    → ((x : String) → (mark_of x m' ≡ Colour.grey) ↔ (mark_of x m ≡ Colour.grey))
    → room es m' ≡ room es m
unfolding room
room-stack [] m m' h = refl
room-stack ((a, b) ∷ es) m m' h = ground (arith, h b, room-stack es m m')

room-enter-le :
    (es : Adjacency) (id : String) (m : Marks) → room es (insert id Colour.grey m) ≤ room es m
unfolding room
room-enter-le [] id m = omega arith
room-enter-le ((a, b) ∷ es) id m =
    ground (arith, mark_of-insert id b Colour.grey m, room-enter-le es id m)

-- A target that is put on the stack takes room.
room-enter :
    (es : Adjacency) (a id : String) (m : Marks)
    → Edge a id es
    → mark_of id m ≡ Colour.white
    → suc (room es (insert id Colour.grey m)) ≤ room es m
unfolding room
room-enter [] a id m e w = absurd e
room-enter ((from, to) ∷ es) a id m e w = ground (
  arith,
  mark_of-insert id to Colour.grey m,
  room-enter-le es id m,
  room-enter es a id m,
  string_eq.beq_iff id to,
)

abbrev pub Cycle : Adjacency → Type 0
Cycle adj = (a : String) × Walk adj a a

-- Each node on the stack leads to the one that is visited.
abbrev Leads : Adjacency → Marks → String → Type 0
Leads adj m id = (x : String) → mark_of x m ≡ Colour.grey → Walk adj x id

-- The search from a node, with what it needs: the walks of `Settled`, those from the stack, and fuel
-- for the nodes that may still come on the stack.
abbrev Needs : ℕ → Adjacency → Marks → Type 0
Needs fuel adj m = Settled adj m × (suc (room adj m) ≤ fuel)

visit_any-Cycle :
    (adj : Adjacency) (step : String → Marks → Bool × Marks) (fuel : ℕ) (id : String)
    → ((b : String) (m m' : Marks)
        → Needs fuel adj m
        → Edge id b adj
        → ((x : String) → mark_of x m ≡ Colour.grey → (x ≡ id) ⊎ Walk adj x id)
        → step b m ≡ (true, m')
        → Cycle adj)
    → ((b : String) (m m' : Marks) → Settled adj m → step b m ≡ (false, m') → Searched adj m m')
    → (ids : List String) (m m' : Marks) → ((b : String) → seen_text b ids ≡ true → Edge id b adj)
    → Needs fuel adj m
    → ((x : String) → mark_of x m ≡ Colour.grey → (x ≡ id) ⊎ Walk adj x id)
    → visit_any step ids m ≡ (true, m')
    → Cycle adj
unfolding visit_any
visit_any-Cycle adj step fuel id finds clears [] m m' edges n stack h = cc
visit_any-Cycle adj step fuel id finds clears (b ∷ bs) m m' edges n stack h =
    elim (Bool-cases (step b m).0) [
      | inl found ↦
          finds b m (step b m).1 n (edges b (ground (arith, string_eq.beq_iff b b))) stack
            (ground arith)
      | inr clear ↦
          let mid = (step b m).1 in
          let kept = clears b m mid n.0 (ground arith) in
          visit_any-Cycle adj step fuel id finds clears bs mid m' (λ x k. edges x (ground arith))
            (kept.settled, ground (arith, room-stack adj m mid kept.stack))
            (λ x k. stack x (ground (arith, kept.stack x))) (ground arith)
    ]

-- With room for a node that is not marked, or with that of a first one, the search of it that answers
-- `true` has met a node of the stack.
enter-Cycle :
    (fuel : ℕ) (adj : Adjacency) (id : String) (m m' : Marks)
    → ((b : String) (k k' : Marks)
        → Needs fuel adj k
        → Edge id b adj
        → ((x : String) → mark_of x k ≡ Colour.grey → (x ≡ id) ⊎ Walk adj x id)
        → visit fuel adj b k ≡ (true, k')
        → Cycle adj)
    → Settled adj m
    → (mark_of id m ≡ Colour.white → suc (room adj (insert id Colour.grey m)) ≤ fuel)
    → Leads adj m id
    → visit (suc fuel) adj id m ≡ (true, m')
    → Cycle adj
unfolding visit
enter-Cycle fuel adj id m m' finds settled enough leads h = elim (Colour-cases (mark_of id m)) [
  | inl black ↦ absurd (ground arith)
  | inr (inl grey) ↦ (id, leads id grey)
  | inr (inr white) ↦
      let entered = insert id Colour.grey m in
      let loop = visit_any (visit fuel adj) (neighbours id adj) entered in
      visit_any-Cycle adj (visit fuel adj) fuel id finds
        (λ b k k' s e. (visit-Searched fuel adj b k k' s e).0) (neighbours id adj) entered loop.1
        (λ b k. neighbours-Edge id b adj k) (Settled-enter adj id m settled, enough white)
        (λ x k. elim (Bool-cases (id == x)) [
          | inl is ↦ inl (ground (arith, string_eq.beq_iff id x))
          | inr other ↦ inr (leads x (ground (arith, mark_of-insert id x Colour.grey m)))
        ])
        (ground arith)
]

visit-Cycle :
    (fuel : ℕ) (adj : Adjacency) (id : String) (b : String) (m m' : Marks)
    → Needs fuel adj m
    → Edge id b adj
    → ((x : String) → mark_of x m ≡ Colour.grey → (x ≡ id) ⊎ Walk adj x id)
    → visit fuel adj b m ≡ (true, m')
    → Cycle adj
visit-Cycle zero adj id b m m' n e stack h = absurd (omega arith)
visit-Cycle (suc fuel) adj id b m m' n e stack h =
    enter-Cycle fuel adj b m m' (visit-Cycle fuel adj b) n.0
      (λ white. ground (arith, room-enter adj id b m))
      (λ x k. elim (stack x k) [ inl is ↦ one (rw is e) | inr w ↦ more w e ]) h

roots-Cycle :
    (adj : Adjacency) (nodes : List String) (m m' : Marks)
    → Settled adj m
    → ((x : String) → mark_of x m ≢ Colour.grey)
    → visit_any (visit (suc (suc (length adj))) adj) nodes m ≡ (true, m')
    → Cycle adj
unfolding visit_any
roots-Cycle adj [] m m' settled clean h = cc
roots-Cycle adj (a ∷ nodes) m m' settled clean h =
    let fuel = suc (length adj) in
    elim (Bool-cases (visit (suc fuel) adj a m).0) [
      | inl found ↦
          enter-Cycle fuel adj a m (visit (suc fuel) adj a m).1 (visit-Cycle fuel adj a) settled
            (λ w. ground (arith, room-le-length adj (insert a Colour.grey m)))
            (λ x k. absurd (clean x k)) (ground arith)
      | inr clear ↦
          let mid = (visit (suc fuel) adj a m).1 in
          let (kept, done) = visit-Searched (suc fuel) adj a m mid settled (ground arith) in
          roots-Cycle adj nodes mid m' kept.settled (λ x k. clean x ((kept.stack x).0 k))
            (ground arith)
    ]

no_grey : (x : String) → mark_of x [] ≢ Colour.grey
unfolding mark_of lookup
no_grey x k = cc

-- Where the search answers `true` there is a cycle: it never answers so for lack of fuel.
pub search_cycle-Cycle :
    (nodes : List String) (adj : Adjacency) → search_cycle nodes adj ≡ true → Cycle adj
unfolding search_cycle
search_cycle-Cycle nodes adj h =
    let found = visit_any (visit (suc (suc (length adj))) adj) nodes [] in
    roots-Cycle adj nodes [] found.1 (Settled-nil adj) no_grey (ground arith)
