-- ===== src/Contracts/Graph/Visit.antt =====
-- internal/contracts/contracts.go and internal/graph/graph.go: the recursive `visit` over a map of
-- marks, 1 while a node is on the stack and 2 once it is done.
-- The search takes fuel, one unit for each level of recursion, and counts a run out of it as a cycle.
use clausa_lens.Prelude.{
  ℕ, zero, suc, String, Bool, true, false, List, [], ◌∷◌, Dict, insert, lookup, Option, none, some,
  ◌==◌, string_eq, if◌then◌else◌,
}

pub data Colour : Type 0 where
  white grey black : Colour

abbrev pub Marks : Type 0
Marks = Dict Colour

abbrev colour : Option Colour → Colour
colour none = white
colour (some c) = c

-- `state[id]`
unfoldable pub mark_of : String → Marks → Colour
mark_of id m = colour (lookup id m)

-- The edges in the order in which they were appended.
abbrev pub Adjacency : Type 0
Adjacency = List (String × String)

-- `adj[id]`
unfoldable pub neighbours : String → Adjacency → List String
neighbours id [] = []
neighbours id ((a, b) ∷ es) = let rest = neighbours id es in if a == id then b ∷ rest else rest

-- The loops over ids, which stop at the first cycle.
unfoldable pub visit_any : (String → Marks → Bool × Marks) → List String → Marks → Bool × Marks
visit_any step [] m = (false, m)
visit_any step (id ∷ ids) m =
    let (found, m') = step id m in elim found [ true ↦ (true, m') | false ↦ visit_any step ids m' ]

-- `state[id] = 2` and the answer, after the loop over the neighbours.
abbrev leave : String → Bool × Marks → Bool × Marks
leave id (true, m) = (true, m)
leave id (false, m) = (false, insert id black m)

abbrev enter : Colour → String → Marks → Bool × Marks → Bool × Marks
enter grey id m rest = (true, m)
enter black id m rest = (false, m)
enter white id m rest = leave id rest

unfoldable pub visit : ℕ → Adjacency → String → Marks → Bool × Marks
unfolding mark_of neighbours visit_any
visit zero adj id m = (true, m)
visit (suc fuel) adj id m =
    let rest = visit_any (visit fuel adj) (neighbours id adj) (insert id grey m) in
    enter (mark_of id m) id m rest
