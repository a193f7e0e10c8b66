-- ===== src/Contracts/CapsuleFacts.antt =====
-- internal/contracts/contracts.go: what `ReplayCapsule.Validate` guarantees, and what it does not.
use clausa_lens.Prelude.{
  String, true, not, ◌&&◌, List, [], ◌∷◌, length, All, ◌≡◌, ◌⊎◌, arith, ok, reject, check_all, ◌==◌,
  ◌!=◌, string_eq, nat_eq, eq_sound, eq_refl, Result-cases, inl, inr,
}
use clausa_lens.Contracts.IncidentEnums.{SanitizationStatus, sanitization_status_eq}
use clausa_lens.Contracts.Graph.{seen_text}
use clausa_lens.Contracts.Isolation.{credential_replay_only, elements}
use clausa_lens.Contracts.Capsule.{ReplayCapsule}
use clausa_lens.Contracts.CapsuleCheck.{
  validate_capsule, check_fixtures, check_load_order, check_oracle, check_safety,
}

allowed_only :
    (ds : List String)
    → check_all
        (λ d.
          reject
            (d != "payment-simulator" && d != "replay-postgres")
            "allowed destination is not replay-only")
        ds
      ≡ ok tt
    → All (λ d. (d ≡ "payment-simulator") ⊎ (d ≡ "replay-postgres")) ds
allowed_only [] h = tt
allowed_only (d ∷ ds) h = (
  ground (arith, string_eq.beq_iff d "payment-simulator", string_eq.beq_iff d "replay-postgres"),
  allowed_only ds (ground arith),
)

loaded_known :
    (ids order : List String) (message : String)
    → check_all (λ id. reject (not (seen_text id ids)) message) order ≡ ok tt
    → All (λ id. seen_text id ids ≡ true) order
loaded_known ids [] message h = tt
loaded_known ids (id ∷ order) message h =
    (ground arith, loaded_known ids order message (ground arith))

-- What a valid capsule allows.
pub record ReplayOnly (c : ReplayCapsule) : Type 0 where
  pub sanitized : (c.safety.sanitization_status == SanitizationStatus.pass) ≡ true
  pub credentials : c.safety.credential_profile ≡ credential_replay_only
  pub destinations :
      All
        (λ d. (d ≡ "payment-simulator") ⊎ (d ≡ "replay-postgres"))
        (elements c.safety.allowed_destinations)
  pub fixtures : List String
  pub fixture_ids : check_fixtures c ≡ ok fixtures
  pub known : All (λ id. seen_text id fixtures ≡ true) (elements c.replay_plan.fixture_load_order)
  pub as_many : length (elements c.replay_plan.fixture_load_order) ≡ length fixtures
  pub failing : c.failure_oracle.expected_match ≡ true

-- A capsule that the contract's validator accepts is sanitized and replay-only: its credentials are,
-- and its allowed destinations are the payment simulator and the replay datastore. Its load order
-- names ids that the check of its fixtures gives, as many as those are, and its oracle expects a match.
pub validate_capsule-ReplayOnly : (c : ReplayCapsule) → validate_capsule c ≡ ok tt → ReplayOnly c
unfolding validate_capsule check_load_order check_oracle check_safety
validate_capsule-ReplayOnly c h = elim (Result-cases (check_fixtures c)) [
  | inr (e, fails) ↦ absurd (ground arith)
  | inl (ids, found) ↦ record {
    sanitized = ground arith;
    credentials = eq_sound c.safety.credential_profile credential_replay_only (ground arith);
    destinations = allowed_only (elements c.safety.allowed_destinations) (ground arith);
    fixtures = ids;
    fixture_ids = found;
    known =
        loaded_known ids (elements c.replay_plan.fixture_load_order)
          "fixture_load_order contains unknown fixture" (ground arith);
    as_many = eq_sound _ _ (ground arith);
    failing = ground arith;
  }
]

-- The test of the load order accepts, of any two fixtures, the order that names the first one twice and
-- the second not at all, as it accepts the order that names each once.
load_order_repeats :
    (a b : String)
    → (check_load_order (a ∷ b ∷ []) (a ∷ a ∷ []) ≡ ok tt)
      × (check_load_order (a ∷ b ∷ []) (a ∷ b ∷ []) ≡ ok tt)
unfolding check_load_order
load_order_repeats a b = ground (arith, eq_refl a, eq_refl b)
