-- ===== src/Replay/Isolation.antt =====
-- internal/replay/replay.go: the isolation evidence of a run and the test of it.
use clausa_lens.Prelude.{
  String, Bool, not, some, [], ◌∷◌, is_nil, ◌==◌, ◌!=◌, string_eq, Check, reject, ◌>>◌, check_all,
  ◌+++◌, if◌then◌else◌,
}
use clausa_lens.Contracts.RunEnums.{Verdict, InteractionResult, verdict_eq}
use clausa_lens.Contracts.Text.{contract_version}
use clausa_lens.Contracts.Isolation.{
  IsolationEvidence, DependencyInteraction, credential_replay_only, elements, is_replay_datastore,
  replay_only_host,
}

unfoldable pub isolation_for : String → Bool → IsolationEvidence
isolation_for namespace teardown_ok = record {
  policy_version = contract_version;
  verdict = if teardown_ok then Verdict.pass else Verdict.fail;
  runtime_namespace = namespace;
  network_policy = Verdict.pass;
  credential_profile = credential_replay_only;
  datastore_destinations = some [];
  simulator_interactions = some [];
  denied_interactions = some [];
  teardown_result = if teardown_ok then Verdict.pass else Verdict.fail;
}

module _ (host_of : String → String) where
  unfoldable pub validate_isolation : IsolationEvidence → Check
  validate_isolation i = do
    reject (i.policy_version != contract_version) "isolation: unsupported policy_version"
    reject (i.credential_profile != credential_replay_only)
        "isolation: credential profile is not replay-only"
    reject (i.network_policy == Verdict.fail) "isolation: network policy FAIL"
    reject (i.teardown_result == Verdict.fail) "isolation: teardown FAIL"
    reject (not (is_nil (elements i.denied_interactions))) "isolation: denied interaction(s)"
    check_all
        (λ d. reject (not (is_replay_datastore d)) "isolation: non-replay datastore destination")
        (elements i.datastore_destinations)
    check_all
        (λ (s : DependencyInteraction).
          reject (not (replay_only_host host_of s.destination))
            "isolation: non-replay simulator destination")
        (elements i.simulator_interactions)

-- The evidence of `Evaluate`, with the run's id in its names.
unfoldable pub safe_isolation : String → IsolationEvidence
safe_isolation run_id =
    let id = if run_id == "" then "run" else run_id in
    record {
      policy_version = contract_version;
      verdict = Verdict.pass;
      runtime_namespace = "replay-run-" +++ id;
      network_policy = Verdict.pass;
      credential_profile = credential_replay_only;
      datastore_destinations = some (("postgres://replay/ledger_run_" +++ id) ∷ []);
      simulator_interactions = some (
          record {
            dependency = "payment_simulator";
            destination = "http://payment-simulator:8080";
            operation = "authorize";
            result = InteractionResult.simulated;
          }
          ∷ []);
      denied_interactions = some [];
      teardown_result = Verdict.pass;
    }
