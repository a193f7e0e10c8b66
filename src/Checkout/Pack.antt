-- ===== src/Checkout/Pack.antt =====
-- internal/systempack/checkout/pack.go, normalize.go and the methods that make the package a System
-- Pack. The two JSON decoders and the SHA-256 of the empty ledger's content are parameters.
use clausa_lens.Prelude.{
  String, Option, none, some, List, [], ◌∷◌, ◌!=◌, string_eq, Result, ok, err, reject, ◌>>◌, ◌>>=◌,
  or_fail,
}
use clausa_lens.Contracts.Text.{contract_version}
use clausa_lens.Contracts.Event.{ExecutionEvent, validate_event}
use clausa_lens.Contracts.Incident.{SystemPackRef}
use clausa_lens.Contracts.Capsule.{payment_latency_spec}
use clausa_lens.Contracts.Pack.{SystemPack, RawEvidence}
use clausa_lens.Contracts.Diff.{ReplayExecution}
use clausa_lens.Checkout.Oracle.{evaluate}
use clausa_lens.Checkout.Fixtures.{extract_fixtures, build_replay_plan}
use clausa_lens.Checkout.Rules.{apply_intervention, pack_issues}
use clausa_lens.Checkout.Compare.{compare}

unfoldable pub checkout_descriptor : SystemPackRef
checkout_descriptor = record {
  id = "checkout_duplicate_effect";
  version = "1.0.0";
  interface_version = contract_version;
}

decoded : {A : Type 0} → String → Option A → Result String A
decoded message none = err message
decoded message (some a) = ok a

module _ (decode_array : String → Option (List String))
    (decode_event : String → Option ExecutionEvent) where
  -- The loop over the raw events.
  unfoldable pub normalize_events : List String → Result String (List ExecutionEvent)
  unfolding decoded
  normalize_events [] = ok []
  normalize_events (raw ∷ raws) = do
    event ← decoded "checkout: event does not match the ExecutionEvent contract" (decode_event raw)
    or_fail (validate_event event) "checkout: event is invalid"
    events ← normalize_events raws
    ok (event ∷ events)

  unfoldable pub normalize : RawEvidence → Result String (List ExecutionEvent)
  unfolding decoded normalize_events
  normalize raw = do
    reject (raw.content_type != "application/json") "checkout: unsupported content_type"
    raws ← decoded "checkout: payload is not a JSON array of events" (decode_array raw.payload)
    normalize_events raws

  unfoldable pub checkout_pack : String → SystemPack
  checkout_pack ledger_digest = record {
    descriptor = checkout_descriptor;
    normalize = normalize;
    detect_incident = evaluate;
    extract_fixtures = λ incident events. extract_fixtures ledger_digest events;
    build_replay_plan = λ incident fixtures. ok (build_replay_plan fixtures);
    validate_capsule = pack_issues;
    allowed_interventions = payment_latency_spec ∷ [];
    apply_intervention = apply_intervention;
    compare = compare;
    evaluate_outcome = λ (x : ReplayExecution). evaluate x.events;
  }
