-- ===== src/Examples/Compile.antt =====
-- The dev pack compiles a capsule, and the packs' alignments at concrete events.
use clausa_lens.Prelude.{
  String, List, [], ◌∷◌, length, select, has, ◌+◌, Result, ok, ◌≡◌, refl, lookup, insert, is_blank,
  is_sha256, decimal_text, sort_by, insert_by, string_eq,
}
use clausa_lens.Contracts.EventEnums.{EventType}
use clausa_lens.Contracts.Event.{ExecutionEvent}
use clausa_lens.Contracts.Capsule.{ReplayCapsule}
use clausa_lens.Contracts.Time.{valid_utc_time, parse_time}
use clausa_lens.Contracts.Values.{valid_json_object}
use clausa_lens.Contracts.Text.{nonempty_strings}
use clausa_lens.Contracts.CapsuleCheck.{
  validate_capsule, check_header, check_source, check_fixtures, check_state_fixtures,
  check_dependency_fixtures, check_plan, check_load_order, check_oracle, check_safety,
  is_only_intervention,
}
use clausa_lens.Capsule.Compile.{
  CompileInput, compile, seal, assemble, safe_policy, verify_digest, compute_digest, blanked,
}
use clausa_lens.Capsule.Replayable.{Passes, compile-Passes}
use clausa_lens.Packs.Dev.{dev_pack, dev_fixtures, dev_plan}
use clausa_lens.Packs.Align.{align_events, align_keys, index_by_key, index_from, semantic_key}
use clausa_lens.Packs.Counts.{align_events-counts}
use clausa_lens.Checkout.Fixtures.{int_text}
use clausa_lens.Examples.Data.{noon, digest, event, incident, baseline}
use clausa_lens.Examples.Capsules.{capsule}

abbrev one_digest : ReplayCapsule → Result String String
one_digest c = ok digest

abbrev input : CompileInput
input = record {
  pack_ref = capsule.system_pack;
  incident = incident;
  events = event "ev-1" EventType.timeout ∷ [];
  source = capsule.source;
  trigger = capsule.trigger;
  capsule_id = "cap-1";
  graph_id = "graph-1";
  created_at = noon;
}

abbrev compiled : ReplayCapsule
compiled =
    let c = assemble dev_pack input dev_fixtures (dev_plan dev_fixtures) in
    record c { integrity = record { algorithm = "SHA-256"; digest = digest } }

compiles : compile one_digest dev_pack input ≡ ok compiled
unfolding compile seal assemble safe_policy verify_digest compute_digest blanked dev_pack
    dev_fixtures dev_plan validate_capsule check_header check_source check_fixtures
    check_state_fixtures check_dependency_fixtures check_plan check_load_order check_oracle
    check_safety is_only_intervention valid_json_object nonempty_strings valid_utc_time parse_time
    is_sha256 is_blank
compiles = refl

compile-Passes_example : Passes (verify_digest one_digest) dev_pack compiled baseline
compile-Passes_example =
    compile-Passes one_digest dev_pack input compiled baseline compiles refl refl

-- Two baseline events of one key, and a comparison with one of it and one of another.
abbrev before : List ExecutionEvent
before = event "ev-1" EventType.effect ∷ event "ev-2" EventType.effect ∷ []

abbrev after : List ExecutionEvent
after = event "ev-3" EventType.effect ∷ event "ev-4" EventType.retry ∷ []

-- The new event `ev-4` is not reported.
aligns : (align_events before after).added ≡ []
unfolding align_events align_keys index_by_key index_from semantic_key sort_by insert_by lookup
    insert int_text decimal_text
aligns = refl

align_events-counts_example :
    (length (align_events before after).matched + length (align_events before after).removed ≡ 2)
    × (length (align_events before after).matched + length (align_events before after).added
        ≡ length (select (λ e. has (semantic_key e) (index_by_key before)) after))
align_events-counts_example = align_events-counts before after
