-- ===== src/Capsule/Compile.antt =====
-- internal/capsule/capsule.go: the digest of a capsule and `Compile`. The SHA-256 of a capsule's JSON is
-- the parameter `digest_of`; it fails where `json.Marshal` does.
use clausa_lens.Prelude.{
  String, Bool, true, false, not, some, List, [], ◌∷◌, is_nil, map, ◌==◌, ◌!=◌, string_eq, pos,
  Result, ok, err, reject, ◌>>◌, ◌>>=◌, or_fail,
}
use clausa_lens.Contracts.Text.{contract_version}
use clausa_lens.Contracts.IncidentEnums.{IncidentStatus, SanitizationStatus, incident_status_eq}
use clausa_lens.Contracts.Event.{ExecutionEvent}
use clausa_lens.Contracts.Incident.{Incident, SystemPackRef}
use clausa_lens.Contracts.Isolation.{credential_replay_only}
use clausa_lens.Contracts.Capsule.{CapsuleSource, Trigger, SafetyPolicy, ReplayCapsule, ReplayPlan}
use clausa_lens.Contracts.CapsuleCheck.{validate_capsule}
use clausa_lens.Contracts.Pack.{SystemPack, FixtureSet}

-- The wrapped error values of the package; `compile_failed` is any other error, by its message.
pub data CompileError : Type 0 where
  not_ready invalid_capsule pack_validation integrity_mismatch : CompileError
  compile_failed : String → CompileError

-- `CanonicalMarshal` blanks the digest before it prints the capsule.
unfoldable pub blanked : ReplayCapsule → ReplayCapsule
blanked c = record c { integrity = record c.integrity { digest = "" } }

abbrev same_digest : Result String String → String → Bool
same_digest (ok digest) stored = digest == stored
same_digest (err e) stored = false

unfoldable pub safe_policy : SafetyPolicy
safe_policy = record {
  policy_version = contract_version;
  sanitization_status = SanitizationStatus.pass;
  blocked_destinations = "production-databases" ∷ "public-internet" ∷ "real-payment-provider" ∷ [];
  allowed_destinations = some ("payment-simulator" ∷ "replay-postgres" ∷ []);
  credential_profile = credential_replay_only;
}

-- What a caller of `Compile` hands over beside the pack.
pub record CompileInput : Type 0 where
  pub pack_ref : SystemPackRef
  pub incident : Incident
  pub events : List ExecutionEvent
  pub source : CapsuleSource
  pub trigger : Trigger
  pub capsule_id : String
  pub graph_id : String
  pub created_at : String

-- The capsule before its digest is computed.
unfoldable pub assemble : SystemPack → CompileInput → FixtureSet → ReplayPlan → ReplayCapsule
unfolding safe_policy
assemble pack input fixtures plan = record {
  schema_version = contract_version;
  capsule_id = input.capsule_id;
  created_at = input.created_at;
  source = input.source;
  system_pack = input.pack_ref;
  trigger = input.trigger;
  event_ids = map (λ (e : ExecutionEvent). e.event_id) input.events;
  graph_id = input.graph_id;
  state_fixtures = fixtures.state_fixtures;
  dependency_fixtures = fixtures.dependency_fixtures;
  timing_policy = record { clock_tolerance_ms = pos 5; timeout_ms = pos 200 };
  replay_plan = plan;
  failure_oracle = record {
    id = input.incident.failure_oracle.id;
    version = input.incident.failure_oracle.version;
    expected_match = true;
    expected_effect_summary = record { payment_attempt_count = pos 2; ledger_commit_count = pos 2 };
  };
  allowed_interventions = pack.allowed_interventions;
  safety = safe_policy;
  integrity = record { algorithm = "SHA-256"; digest = "" };
}

module _ (digest_of : ReplayCapsule → Result String String) where
  unfoldable pub compute_digest : ReplayCapsule → Result String String
  unfolding blanked
  compute_digest c = digest_of (blanked c)

  unfoldable pub verify_digest : ReplayCapsule → Bool
  unfolding compute_digest
  verify_digest c = same_digest (compute_digest c) c.integrity.digest

  -- The end of `Compile`, from the digest on.
  unfoldable pub seal : SystemPack → ReplayCapsule → Result CompileError ReplayCapsule
  seal pack c = do
    digest ← or_fail (compute_digest c) (compile_failed "compute digest")
    let capsule = record c { integrity = record c.integrity { digest = digest } }
    or_fail (validate_capsule capsule) invalid_capsule
    reject (not (is_nil (pack.validate_capsule capsule))) pack_validation
    reject (not (verify_digest capsule)) integrity_mismatch
    ok capsule

  unfoldable pub compile : SystemPack → CompileInput → Result CompileError ReplayCapsule
  unfolding seal assemble
  compile pack input = do
    reject (input.incident.status != IncidentStatus.ready) not_ready
    fixtures ←
        or_fail (pack.extract_fixtures input.incident input.events)
          (compile_failed "extract fixtures")
    plan ←
        or_fail (pack.build_replay_plan input.incident fixtures)
          (compile_failed "build replay plan")
    seal pack (assemble pack input fixtures plan)
