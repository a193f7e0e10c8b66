-- ===== src/Demo/Once.antt =====
-- cmd/demo-checkout and cmd/demo-ledger: the effects of one checkout in a ledger that deduplicates.
use clausa_lens.Prelude.{
  ℕ, suc, ◌+◌, String, Bool, true, false, ◌||◌, none, some, List, [], ◌∷◌, length, length-append,
  ◌≡◌, refl, arith, ℤ, pos, lookup, lookup-insert, has, eq_refl, string_eq, if◌then◌else◌,
  Option-cases, inl, inr, subst,
}
use clausa_lens.Demo.Ledger.{Ledger, commit_locked, effect_key}
use clausa_lens.Demo.Outcomes.{
  run-Waits, start-Waits, Waits-responded, Takes, waiting-Takes, collecting-Takes,
}
use clausa_lens.Demo.Checkout.{
  Stage, lost, take_outcome, returned, Checkout, Action, unlaunched, done, selecting, responded,
  start, on_timer, step, run,
}

abbrev has_committed : Stage → Bool
has_committed done = true
has_committed lost = true
has_committed _ = false

-- What every state of `Process` satisfies with deduplication, from `n` effects on.
record Single (n : ℕ) (s : Checkout) : Type 0 where
  pub closed_ledger : s.ledger.dedup_enabled ≡ true
  pub noted :
      has s.checkout_id s.ledger.first_effect_by_checkout
      ≡ (has_committed s.first || has_committed s.second)
  pub effects :
      length s.ledger.effects
      ≡ n + (if has_committed s.first || has_committed s.second then 1 else 0)
  pub before : s.phase ≡ selecting → s.second ≡ unlaunched

commit_closed :
    (checkout_id effect : String) (l : Ledger)
    → l.dedup_enabled ≡ true
    → ((commit_locked checkout_id effect l).0.dedup_enabled ≡ true)
      × (has checkout_id (commit_locked checkout_id effect l).0.first_effect_by_checkout ≡ true)
      × (length (commit_locked checkout_id effect l).0.effects ≡ (
          if has checkout_id l.first_effect_by_checkout
          then length l.effects
          else suc (length l.effects)))
unfolding commit_locked
commit_closed checkout_id effect l h = ground (
  arith,
  length-append l.effects (effect ∷ []),
  lookup-insert checkout_id checkout_id effect l.first_effect_by_checkout,
  eq_refl checkout_id,
)

Takes-Single : (n : ℕ) (s t : Checkout) → Single n s → Takes s t → Single n t
Takes-Single n s t c k = rw k.is (record {
  closed_ledger = c.closed_ledger;
  noted = c.noted;
  effects = c.effects;
  before = λ j. absurd (cc j);
})

step-Single : (n : ℕ) (a : Action) (s t : Checkout) → Single n s → step a s ≡ some t → Single n t
unfolding step on_timer take_outcome returned
step-Single n Action.receive s t c h = Takes-Single n s t c (waiting-Takes s t h)
step-Single n Action.collect s t c h = Takes-Single n s t c (collecting-Takes s t h)
step-Single n a s t c h =
    let first =
      commit_closed s.checkout_id (effect_key s.checkout_id (pos 1)) s.ledger c.closed_ledger in
    let second =
      commit_closed s.checkout_id (effect_key s.checkout_id (pos 2)) s.ledger c.closed_ledger in
    record {
      closed_ledger = ground (arith, first, second);
      noted = ground (arith, c.noted, c.before, first, second);
      effects = ground (arith, c.noted, c.before, c.effects, first, second);
      before = ground (arith, c.before);
    }

run-Single :
    (n : ℕ) (schedule : List Action) (s t : Checkout)
    → Single n s
    → run schedule s ≡ some t
    → Single n t
unfolding run
run-Single n [] s t c h = subst (Single n) (ground arith) c
run-Single n (a ∷ schedule) s t c h = elim (Option-cases (step a s)) [
  | inl stuck ↦ absurd (ground arith)
  | inr (u, made) ↦ run-Single n schedule u t (step-Single n a s u c made) (ground arith)
]

-- Against a ledger that deduplicates and has no effect of the checkout, whatever the schedule, a
-- checkout that has responded has added exactly one effect to the ledger, retried or not.
pub one_effect_of_checkout :
    (limit : ℤ) (id : String) (ledger : Ledger) (schedule : List Action) (t : Checkout)
    → ledger.dedup_enabled ≡ true
    → lookup id ledger.first_effect_by_checkout ≡ none
    → run schedule (start limit id ledger) ≡ some t
    → t.phase ≡ responded
    → length t.ledger.effects ≡ length ledger.effects + 1
unfolding start
one_effect_of_checkout limit id ledger schedule t dedup new h ended =
    let c =
      run-Single (length ledger.effects) schedule (start limit id ledger) t
        (record {
          closed_ledger = dedup;
          noted = rw new refl;
          effects = omega arith;
          before = λ k. refl;
        })
        h in
    let w = run-Waits schedule _ t (start-Waits limit id ledger) h in
    ground (arith, c.effects, (Waits-responded t w ended).0)
