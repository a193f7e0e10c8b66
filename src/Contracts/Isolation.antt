-- ===== src/Contracts/Isolation.antt =====
-- internal/contracts/contracts.go: `IsolationEvidence`, its interactions and their validators.
-- `host_of` is the host that the code reads off a destination: the host name of `url.Parse`, or the
-- text itself where it parses to none. `net/url` is a parameter of the model.
use clausa_lens.Prelude.{
  String, Bool, true, false, ◌||◌, not, Option, none, some, List, [], is_some, is_nil, is_err,
  has_prefix, any, ◌==◌, ◌!=◌, string_eq, Check, reject, ◌>>◌, check_all,
}
use clausa_lens.Contracts.RunEnums.{
  Verdict, InteractionResult, verdict_eq, interaction_result_eq, valid_verdict,
  valid_interaction_result,
}
use clausa_lens.Contracts.Text.{contract_version, nonempty_strings}

abbrev pub credential_replay_only : String
credential_replay_only = "replay-only"

pub record DependencyInteraction : Type 0 where
  pub dependency : String
  pub destination : String
  pub operation : String
  pub result : InteractionResult

-- The three arrays are nil at `none`.
pub record IsolationEvidence : Type 0 where
  pub policy_version : String
  pub verdict : Verdict
  pub runtime_namespace : String
  pub network_policy : Verdict
  pub credential_profile : String
  pub datastore_destinations : Option (List String)
  pub simulator_interactions : Option (List DependencyInteraction)
  pub denied_interactions : Option (List DependencyInteraction)
  pub teardown_result : Verdict

-- Ranging over a nil slice visits nothing.
abbrev pub elements : {A : Type 0} → Option (List A) → List A
elements none = []
elements (some xs) = xs

unfoldable pub validate_interaction : DependencyInteraction → Check
validate_interaction i =
    reject
      (i.dependency == ""
        || i.destination == ""
        || i.operation == ""
        || not (valid_interaction_result i.result))
      "invalid dependency interaction"

unfoldable pub is_replay_datastore : String → Bool
is_replay_datastore destination = has_prefix destination "postgres://replay/"

-- `a != b` on booleans
abbrev pub xor : Bool → Bool → Bool
xor true b = not b
xor false b = b

unfoldable pub check_denied : DependencyInteraction → Check
unfolding validate_interaction
check_denied i =
    reject (is_err (validate_interaction i) || i.result != InteractionResult.denied)
      "invalid denied interaction"

-- `failed`, as the validator recomputes it from the evidence.
unfoldable pub isolation_failed : IsolationEvidence → Bool
isolation_failed i =
    i.network_policy == Verdict.fail
    || i.teardown_result == Verdict.fail
    || not (is_nil (elements i.denied_interactions))
    || any (λ d. not (is_replay_datastore d)) (elements i.datastore_destinations)

unfoldable pub isolation_fields : IsolationEvidence → Check
isolation_fields i =
    reject
      (i.policy_version != contract_version
        || not (valid_verdict i.verdict)
        || i.runtime_namespace == ""
        || not (valid_verdict i.network_policy)
        || i.credential_profile != credential_replay_only
        || not (is_some i.datastore_destinations)
        || not (is_some i.simulator_interactions)
        || not (is_some i.denied_interactions)
        || not (valid_verdict i.teardown_result)
        || not (nonempty_strings (elements i.datastore_destinations)))
      "invalid isolation evidence"

unfoldable pub verdict_matches : IsolationEvidence → Check
unfolding isolation_failed
verdict_matches i =
    reject (xor (i.verdict == Verdict.fail) (isolation_failed i))
      "isolation verdict is inconsistent with evidence"

module _ (host_of : String → String) where
  unfoldable pub replay_only_host : String → Bool
  replay_only_host destination =
      let host = host_of destination in
      host == "payment-simulator"
      || host == "replay-postgres"
      || has_prefix host "payment-simulator:"
      || has_prefix host "replay-postgres:"

  unfoldable pub check_simulator : DependencyInteraction → Check
  unfolding validate_interaction
  check_simulator i =
      reject
        (is_err (validate_interaction i)
          || i.result == InteractionResult.denied
          || not (replay_only_host i.destination))
        "invalid simulator interaction"

  unfoldable pub validate_isolation_evidence : IsolationEvidence → Check
  validate_isolation_evidence i = do
    isolation_fields i
    check_all check_simulator (elements i.simulator_interactions)
    check_all check_denied (elements i.denied_interactions)
    verdict_matches i
