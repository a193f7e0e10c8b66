-- ===== src/Checkout/Rules.antt =====
-- internal/systempack/checkout/intervention.go and validate.go: the pack's intervention and its checks
-- of a capsule.
use clausa_lens.Prelude.{
  ℕ, suc, String, Bool, true, false, ◌||◌, not, List, [], ◌∷◌, ◌++◌, any, is_nil, ◌==◌, ◌!=◌,
  string_eq, int_eq, pos, ◌<ℤ◌, Result, ok, reject, ◌>>◌, ◌+++◌, decimal_text, if◌then◌else◌,
}
use clausa_lens.Contracts.IncidentEnums.{ErrorCode}
use clausa_lens.Contracts.Incident.{ValidationIssue}
use clausa_lens.Contracts.Capsule.{
  DependencyFixture, ReplayPlan, ReplayCapsule, payment_latency_spec,
}
use clausa_lens.Contracts.Run.{Intervention}

-- The plan that is returned is a copy of the plan that was given.
unfoldable pub apply_intervention : ReplayPlan → Intervention → Result String ReplayPlan
apply_intervention plan i = do
  reject (i.kind != payment_latency_spec.kind) "checkout: unsupported intervention type"
  reject (i.unit != payment_latency_spec.unit) "checkout: unsupported intervention unit"
  reject (i.to <ℤ payment_latency_spec.minimum || payment_latency_spec.maximum <ℤ i.to)
      "checkout: intervention value out of range"
  reject (i.from == i.to) "checkout: intervention from and to must differ"
  ok plan

abbrev issue : ErrorCode → String → String → ValidationIssue
issue c p m = record { code = c; path = p; message = m }

abbrev issue_if : Bool → ValidationIssue → List ValidationIssue
issue_if true i = i ∷ []
issue_if false i = []

unfoldable pub path_index : ℕ → String → String
path_index i suffix = "/dependency_fixtures/" +++ decimal_text i +++ suffix

unfoldable pub dependency_issues : ℕ → List DependencyFixture → List ValidationIssue
dependency_issues i [] = []
dependency_issues i (f ∷ fs) =
    let rest = dependency_issues (suc i) fs in
    if f.dependency != "payment_simulator"
    then rest
    else issue_if (f.latency_ms != pos 350) (
        issue ErrorCode.schema_invalid (path_index i "/latency_ms")
          "baseline payment dependency fixture must encode the golden 350ms latency")
      ++ (issue_if (f.invocation_limit != pos 2) (
            issue ErrorCode.schema_invalid (path_index i "/invocation_limit")
              "baseline payment dependency fixture must allow exactly 2 invocations (max attempts)")
          ++ rest)

unfoldable pub pack_issues : ReplayCapsule → List ValidationIssue
pack_issues c =
    issue_if (not (any (λ f. f.fixture_id == "state-ledger-empty") c.state_fixtures)) (
      issue ErrorCode.fixture_missing "/state_fixtures"
        "checkout_duplicate_effect requires the state-ledger-empty fixture")
    ++ (issue_if (is_nil c.dependency_fixtures) (
          issue ErrorCode.fixture_missing "/dependency_fixtures"
            "checkout_duplicate_effect requires a payment_simulator dependency fixture")
        ++ dependency_issues 0 c.dependency_fixtures)
