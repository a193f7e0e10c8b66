-- ===== src/Graph/Selected.antt =====
-- internal/graph/graph.go: what a round of `BuildNodes` selects from.
use mathlib.Core.List.{Memᴰ}
use clausa_lens.Prelude.{
  ℕ, suc, String, Bool, true, false, ◌&&◌, not, some, List, [], ◌∷◌, All, select, Option-cases,
  Bool-cases, inl, inr, ◌==◌, string_eq, int_eq, ◌≡◌, refl, subst, arith, ℤ, pos, ◌<ℤ◌, ok, Dict,
  lookup, insert, has, lookup-insert, eq_refl, eq_sound,
}
use clausa_lens.Contracts.Event.{ExecutionEvent}
use clausa_lens.Contracts.Graph.{
  GraphEdge, seen_text, node_ids, check_edges, hard_adjacency, is_hard,
}
use clausa_lens.Core.Ordered.{sort_by-All}
use clausa_lens.Graph.Order.{index_events}
use clausa_lens.Graph.Build.{candidates, eligible_events, tie_less, nodes_in_order}
use clausa_lens.Graph.Degrees.{Spent, Known, Inside}

-- The events under their ids.
abbrev pub Keyed : List ExecutionEvent → Dict ExecutionEvent → Type 0
Keyed events by_id =
    (id : String) (e : ExecutionEvent)
    → lookup id by_id ≡ some e
    → (e.event_id ≡ id) × Memᴰ e events

select-All :
    {A : Type 0} (P : A → Type 0) (p : A → Bool) (xs : List A) → All P xs → All P (select p xs)
select-All P p [] all = tt
select-All P p (x ∷ xs) (one, all) = elim (Bool-cases (p x)) [
  | inl kept ↦ rw kept (one, select-All P p xs all)
  | inr dropped ↦ rw dropped (select-All P p xs all)
]

pub candidates-All :
    (P : ExecutionEvent → Type 0) (es : List ExecutionEvent) → All P es → All P (candidates es)
unfolding candidates
candidates-All P es all = sort_by-All P tie_less _ (select-All P _ es all)

fresh_id :
    (key id : String) (d : ℤ) (e : ExecutionEvent)
    → d ≡ pos 0
    → (id == key && not (d <ℤ pos 0)) ≡ false
    → e.event_id ≡ id
    → (key == e.event_id) ≡ false
fresh_id key id d e zero spent same = elim (Bool-cases (key == e.event_id)) [
  | inr other ↦ other
  | inl is ↦
      let one = eq_sound key e.event_id is in
      absurd (ground (arith, rw (one, same) at spent, eq_refl id))
]

insert-Keyed :
    (events : List ExecutionEvent) (start : Dict ExecutionEvent) (x : ExecutionEvent)
    → Memᴰ x events
    → Keyed events start
    → Keyed events (insert x.event_id x start)
insert-Keyed events start x m keyed id e h = elim (Bool-cases (x.event_id == id)) [
  | inl same ↦
      let is : x ≡ e = ground (arith, lookup-insert x.event_id id x start) in
      rw (← is) (eq_sound x.event_id id same, m)
  | inr other ↦ keyed id e (ground (arith, lookup-insert x.event_id id x start))
]

module _ (events : List ExecutionEvent) (by_id : Dict ExecutionEvent)
    (keyed : Keyed events by_id) where
  pub eligible_events-Mem :
      (degrees : Dict ℤ)
      → Known by_id degrees
      → All (λ e. Memᴰ e events) (eligible_events by_id degrees)
  unfolding eligible_events
  eligible_events-Mem [] k = tt
  eligible_events-Mem ((id, d) ∷ rest) (one, k) = elim (Bool-cases (d == pos 0)) [
    | inr other ↦ rw other (eligible_events-Mem rest k)
    | inl zero ↦ elim (Option-cases (lookup id by_id)) [
      | inl gone ↦ absurd (ground arith)
      | inr (e, at) ↦ rw (zero, at) ((keyed id e at).1, eligible_events-Mem rest k)
    ]
  ]

  pub eligible_events-Spent :
      (key : String) (degrees : Dict ℤ)
      → Known by_id degrees
      → Spent key degrees
      → All (λ (e : ExecutionEvent). (key == e.event_id) ≡ false) (eligible_events by_id degrees)
  unfolding eligible_events
  eligible_events-Spent key [] k s = tt
  eligible_events-Spent key ((id, d) ∷ rest) (one, k) (spent, s) = elim (Bool-cases (d == pos 0)) [
    | inr other ↦ rw other (eligible_events-Spent key rest k s)
    | inl zero ↦ elim (Option-cases (lookup id by_id)) [
      | inl gone ↦ absurd (ground arith)
      | inr (e, at) ↦
          rw (zero, at)
            (
              fresh_id key id d e (eq_sound d (pos 0) zero) spent (keyed id e at).0,
              eligible_events-Spent key rest k s,
            )
    ]
  ]

-- The ids of the events have events.
index_events-has :
    (id : String) (start : Dict ExecutionEvent) (es : List ExecutionEvent)
    (by_id : Dict ExecutionEvent)
    → index_events start es ≡ ok by_id
    → has id start ≡ true
    → has id by_id ≡ true
unfolding index_events
index_events-has id start [] by_id h there = ground arith
index_events-has id start (e ∷ es) by_id h there =
    index_events-has id (insert e.event_id e start) es by_id (ground arith)
      (ground (arith, lookup-insert e.event_id id e start))

pub index_events-seen :
    (id : String) (start : Dict ExecutionEvent) (es : List ExecutionEvent)
    (by_id : Dict ExecutionEvent) (i : ℕ)
    → index_events start es ≡ ok by_id
    → seen_text id (node_ids (nodes_in_order i es)) ≡ true
    → has id by_id ≡ true
unfolding index_events nodes_in_order
index_events-seen id start [] by_id i h seen = absurd (cc seen)
index_events-seen id start (e ∷ es) by_id i h seen = elim (Bool-cases (id == e.event_id)) [
  | inl same ↦
      index_events-has id (insert e.event_id e start) es by_id (ground arith)
        (rw (eq_sound id e.event_id same) (rw lookup-insert (rw (eq_refl e.event_id) refl)))
  | inr other ↦
      index_events-seen id (insert e.event_id e start) es by_id (suc i) (ground arith)
        (ground arith)
]

pub index_events-Keyed :
    (events : List ExecutionEvent) (start : Dict ExecutionEvent) (es : List ExecutionEvent)
    (by_id : Dict ExecutionEvent)
    → ((e : ExecutionEvent) → Memᴰ e es → Memᴰ e events)
    → Keyed events start
    → index_events start es ≡ ok by_id
    → Keyed events by_id
unfolding index_events
index_events-Keyed events start [] by_id inside keyed h = subst (Keyed events) (ground arith) keyed
index_events-Keyed events start (e ∷ es) by_id inside keyed h =
    index_events-Keyed events (insert e.event_id e start) es by_id (λ x m. inside x (Memᴰ.tail m))
      (insert-Keyed events start e (inside e (Memᴰ.head refl)) keyed) (ground arith)

pub check_edges-Inside :
    (by_id : Dict ExecutionEvent) (nodes ids : List String) (es : List GraphEdge)
    → ((id : String) → seen_text id nodes ≡ true → has id by_id ≡ true)
    → check_edges nodes ids es ≡ ok tt
    → Inside by_id (hard_adjacency es)
unfolding check_edges hard_adjacency
check_edges-Inside by_id nodes ids [] f h = tt
check_edges-Inside by_id nodes ids (e ∷ es) f h =
    let rest = check_edges-Inside by_id nodes (e.edge_id ∷ ids) es f (ground arith) in
    elim (Bool-cases (is_hard e)) [
      | inr soft ↦ rw soft rest
      | inl hard ↦ rw hard (f e.to_event_id (ground arith), rest)
    ]
