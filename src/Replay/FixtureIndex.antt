-- ===== src/Replay/FixtureIndex.antt =====
-- cmd/replay-worker/runner.go: the maps of fixtures by id, and the fixtures of a valid capsule.
use clausa_lens.Prelude.{
  String, true, false, ◌||◌, some, List, [], ◌∷◌, All, any, has, ◌==◌, ◌!=◌, string_eq, list_eq,
  ◌≡◌, ◌⊎◌, refl, subst, arith, inl, inr, ok, Dict, insert, lookup, lookup-insert, Bool-cases,
}
use clausa_lens.Contracts.Graph.{seen_text}
use clausa_lens.Contracts.Capsule.{StateFixture, DependencyFixture}
use clausa_lens.Contracts.CapsuleCheck.{check_state_fixtures, check_dependency_fixtures}
use clausa_lens.Replay.Runner.{index_fixtures, state_id, dependency_id}

module _ {F : Type 0} (id_of : F → String) where
  -- What holds of each fixture holds of what the index finds.
  pub index_fixtures-All :
      (P : F → Type 0) (index : Dict F) (fs : List F)
      → ((id : String) (f : F) → lookup id index ≡ some f → P f)
      → All P fs
      → (id : String) (f : F) → lookup id (index_fixtures id_of index fs) ≡ some f
      → P f
  unfolding index_fixtures
  index_fixtures-All P index [] old all id f h = old id f h
  index_fixtures-All P index (x ∷ fs) old (now, all) id f h =
      index_fixtures-All P (insert (id_of x) x index) fs
        (λ k g at. elim (Bool-cases (id_of x == k)) [
          | inl here ↦
              let is : x ≡ g = ground (arith, lookup-insert (id_of x) k x index) in subst P is now
          | inr other ↦ old k g (ground (arith, lookup-insert (id_of x) k x index))
        ])
        all id f h

  -- An id that the index had, or that a fixture has, is found.
  pub index_fixtures-has :
      (id : String) (index : Dict F) (fs : List F)
      → (has id index ≡ true) ⊎ (any (λ f. id == id_of f) fs ≡ true)
      → has id (index_fixtures id_of index fs) ≡ true
  unfolding index_fixtures
  index_fixtures-has id index [] (inl h) = h
  index_fixtures-has id index [] (inr h) = cc
  index_fixtures-has id index (x ∷ fs) h =
      index_fixtures-has id (insert (id_of x) x index) fs (elim (Bool-cases (id_of x == id)) [
        | inl here ↦ inl (rw (lookup-insert, here) refl)
        | inr other ↦ elim h [
          | inl old ↦ inl (rw (lookup-insert, other) old)
          | inr new ↦
              inr (ground (arith, string_eq.beq_iff id (id_of x), string_eq.beq_iff (id_of x) id))
        ]
      ])

abbrev pub Loadable : StateFixture → Type 0
Loadable f = (f.kind != "POSTGRES_ROWSET" || f.reset_strategy != "TRUNCATE_AND_LOAD") ≡ false

abbrev pub Simulated : DependencyFixture → Type 0
Simulated f = (f.dependency != "payment_simulator") ≡ false

-- The validator's loop over the state fixtures: each can be loaded, and the ids it returns are theirs.
pub check_state_fixtures-Loadable :
    (ids found : List String) (fs : List StateFixture)
    → check_state_fixtures ids fs ≡ ok found
    → All Loadable fs
      × ((id : String)
          → seen_text id found ≡ true
          → (seen_text id ids ≡ true) ⊎ (any (λ (f : StateFixture). id == state_id f) fs ≡ true))
unfolding check_state_fixtures
check_state_fixtures-Loadable ids found [] h = (tt, λ id k. inl (ground arith))
check_state_fixtures-Loadable ids found (f ∷ fs) h =
    let (all, known) = check_state_fixtures-Loadable (f.fixture_id ∷ ids) found fs (ground arith) in
    ((ground arith, all), λ id k. ground (arith, known id k))

pub check_dependency_fixtures-Simulated :
    (ids found : List String) (fs : List DependencyFixture)
    → check_dependency_fixtures ids fs ≡ ok found
    → All Simulated fs
      × ((id : String)
          → seen_text id found ≡ true
          → (seen_text id ids ≡ true)
            ⊎ (any (λ (f : DependencyFixture). id == dependency_id f) fs ≡ true))
unfolding check_dependency_fixtures
check_dependency_fixtures-Simulated ids found [] h = (tt, λ id k. inl (ground arith))
check_dependency_fixtures-Simulated ids found (f ∷ fs) h =
    let (all, known) =
      check_dependency_fixtures-Simulated (f.fixture_id ∷ ids) found fs (ground arith) in
    ((ground arith, all), λ id k. ground (arith, known id k))
