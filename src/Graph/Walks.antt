-- ===== src/Graph/Walks.antt =====
-- Walks over the edges of which internal/contracts/contracts.go and internal/graph/graph.go search a
-- cycle, and what `neighbours` and the marks are to them.
use clausa_lens.Prelude.{
  String, true, [], ◌∷◌, ◌≡◌, refl, arith, ◌⊎◌, inl, inr, ◌==◌, string_eq, insert, lookup-insert,
  if◌then◌else◌,
}
use clausa_lens.Contracts.Graph.{Adjacency, Marks, Colour, neighbours, mark_of, seen_text}

abbrev pub Edge : String → String → Adjacency → Type 0
Edge a b [] = ⊥
Edge a b ((from, to) ∷ es) = (from ≡ a) × (to ≡ b) ⊎ Edge a b es

-- The walks of one edge or more.
pub data Walk (adj : Adjacency) (a : String) : String → Type 0 where
  one : {b : String} → Edge a b adj → Walk adj a b
  more : {b c : String} → Walk adj a b → Edge b c adj → Walk adj a c

-- Every walk from the node ends.
pub data Ends (adj : Adjacency) : String → Type 0 where
  ends : {a : String} → ((b : String) → Edge a b adj → Ends adj b) → Ends adj a

pub neighbours-Edge :
    (a b : String) (adj : Adjacency) → seen_text b (neighbours a adj) ≡ true → Edge a b adj
unfolding neighbours
neighbours-Edge a b [] h = cc
neighbours-Edge a b ((from, to) ∷ es) h =
    ground (arith, string_eq.beq_iff from a, string_eq.beq_iff b to, neighbours-Edge a b es)

pub neighbours_complete :
    (a b : String) (adj : Adjacency) → Edge a b adj → seen_text b (neighbours a adj) ≡ true
unfolding neighbours
neighbours_complete a b [] h = absurd h
neighbours_complete a b ((from, to) ∷ es) h =
    ground (arith, string_eq.beq_iff from a, string_eq.beq_iff b to, neighbours_complete a b es)

pub mark_of-insert :
    (id x : String) (c : Colour) (m : Marks)
    → mark_of x (insert id c m) ≡ (if id == x then c else mark_of x m)
unfolding mark_of
mark_of-insert id x c m = ground (arith, lookup-insert id x c m)

pub first :
    {adj : Adjacency} {a c : String}
    → Walk adj a c
    → (b : String) × Edge a b adj × ((b ≡ c) ⊎ Walk adj b c)
first (one {b} e) = (b, e, inl refl)
first (more {b} {c} w e) =
    let (d, start, rest) = first w in
    elim rest [ inl is ↦ (d, start, inr (one (rw is e))) | inr w' ↦ (d, start, inr (more w' e)) ]

-- A node whose walks all end is on no cycle.
pub Ends-acyclic : (adj : Adjacency) {a : String} → Ends adj a → ¬ Walk adj a a
Ends-acyclic adj {a} (ends f) w =
    let (b, e, rest) = first w in
    elim rest [
      | inl is ↦ Ends-acyclic adj (f b e) (rw is w)
      | inr back ↦ Ends-acyclic adj (f b e) (more back e)
    ]
