-- ===== src/Differential/Divergence.antt =====
-- internal/differential/differential.go: `FirstDivergenceFrom`, `Limitations` and the summary text.
use clausa_lens.Prelude.{
  ℕ, suc, String, Bool, Option, none, some, List, [], ◌∷◌, length, ◌!=◌, string_eq, nat_eq, ℤ, pos,
  negsuc, ◌-ℤ◌, Dict, insert, lookup, sort_by, ltb, ◌+++◌, decimal_text, if◌then◌else◌,
}
use clausa_lens.Contracts.Event.{ExecutionEvent}
use clausa_lens.Contracts.Capsule.{EffectSummary}
use clausa_lens.Contracts.Diff.{EventChange, FirstDivergence, EffectDelta}
use clausa_lens.Graph.Build.{text_less}
use clausa_lens.Checkout.Align.{EventSets}

-- The loop of `indexByEventID`: a later event of one id replaces an earlier one.
unfoldable pub index_from : ℕ → Dict ℕ → List ExecutionEvent → Dict ℕ
index_from i index [] = index
index_from i index (e ∷ es) = index_from (suc i) (insert e.event_id i index) es

unfoldable pub index_by_event_id : List ExecutionEvent → Dict ℕ
index_by_event_id events = index_from 0 [] events

pub record Candidate : Type 0 where
  pub change : EventChange
  pub base_index : ℕ
  pub comp_index : ℕ

-- The change with its positions, in front of the rest, if both events are known.
abbrev candidate_of : EventChange → Option ℕ → Option ℕ → List Candidate → List Candidate
candidate_of ch (some b) (some c) rest =
    record { change = ch; base_index = b; comp_index = c } ∷ rest
candidate_of ch _ _ rest = rest

unfoldable pub candidates_of : Dict ℕ → Dict ℕ → List EventChange → List Candidate
candidates_of base comp [] = []
candidates_of base comp (ch ∷ chs) =
    candidate_of ch (lookup ch.baseline_event_id base) (lookup ch.comparison_event_id comp)
      (candidates_of base comp chs)

unfoldable pub candidate_less : Candidate → Candidate → Bool
candidate_less a b =
    if a.base_index != b.base_index
    then ltb a.base_index b.base_index
    else if a.comp_index != b.comp_index
    then ltb a.comp_index b.comp_index
    else text_less a.change.field_name b.change.field_name

abbrev pub divergence_of : List Candidate → Option FirstDivergence
divergence_of [] = none
divergence_of (c ∷ cs) = some (record {
  baseline_event_id = c.change.baseline_event_id;
  comparison_event_id = c.change.comparison_event_id;
  rule = c.change.field_name;
  baseline_value = c.change.baseline_value;
  comparison_value = c.change.comparison_value;
  baseline_timeline_index = pos c.base_index;
  comparison_timeline_index = pos c.comp_index;
})

unfoldable pub first_divergence_from :
    List ExecutionEvent → List ExecutionEvent → List EventChange → Option FirstDivergence
first_divergence_from baseline comparison changes = divergence_of (
    sort_by candidate_less
      (candidates_of (index_by_event_id baseline) (index_by_event_id comparison) changes))

-- `%+d`
unfoldable pub signed_text : ℤ → String
signed_text (pos n) = "+" +++ decimal_text n
signed_text (negsuc n) = "-" +++ decimal_text (suc n)

unfoldable pub effect_delta_of : EffectSummary → EffectSummary → EffectDelta
effect_delta_of baseline comparison = record {
  payment_attempt_count = comparison.payment_attempt_count -ℤ baseline.payment_attempt_count;
  ledger_commit_count = comparison.ledger_commit_count -ℤ baseline.ledger_commit_count;
}

-- The counts that both evidence summaries print, after a prefix of their own.
unfoldable pub counts_text : String → EffectSummary → EffectSummary → EventSets → String
unfolding effect_delta_of signed_text
counts_text prefix baseline comparison sets =
    prefix
    +++ decimal_text (length sets.matched)
    +++ " matched, "
    +++ decimal_text (length sets.added)
    +++ " added, "
    +++ decimal_text (length sets.removed)
    +++ " removed, "
    +++ decimal_text (length sets.changed)
    +++ " changed. Effect delta "
    +++ signed_text (effect_delta_of baseline comparison).payment_attempt_count
    +++ " payment attempts, "
    +++ signed_text (effect_delta_of baseline comparison).ledger_commit_count
    +++ " ledger commits."
