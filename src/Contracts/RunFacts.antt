-- ===== src/Contracts/RunFacts.antt =====
-- internal/contracts/contracts.go: what `ReplayRun.Validate` guarantees of the runs that it accepts.
use clausa_lens.Prelude.{String, ◌≡◌, arith, ok, string_eq}
use clausa_lens.Contracts.RunEnums.{run_status_eq, outcome_eq, verdict_eq, run_type_eq}
use clausa_lens.Contracts.Run.{ReplayRun}
use clausa_lens.Contracts.RunCheck.{
  validate_run, check_run_fields, check_run_type, check_evidence, check_times, check_result,
  check_error, check_some,
}
use clausa_lens.Contracts.Run.{validate_intervention}

module _ (host_of : String → String) where
  -- The parts of the validator.
  pub record Accepted (r : ReplayRun) : Type 0 where
    pub fields : check_run_fields r ≡ ok tt
    pub kind : check_run_type r.run_type r.baseline_run_id r.intervention ≡ ok tt
    pub changes : check_some validate_intervention r.intervention ≡ ok tt
    pub evidence : check_evidence host_of r ≡ ok tt
    pub times : check_times r ≡ ok tt
    pub result : check_result host_of r ≡ ok tt
    pub error : check_error r ≡ ok tt

  pub validate_run-Accepted : (r : ReplayRun) → validate_run host_of r ≡ ok tt → Accepted r
  unfolding validate_run
  validate_run-Accepted r h = ground arith

  pub Accepted-validate_run : (r : ReplayRun) → Accepted r → validate_run host_of r ≡ ok tt
  unfolding validate_run
  Accepted-validate_run r a = ground arith
