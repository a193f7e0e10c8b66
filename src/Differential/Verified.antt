-- ===== src/Differential/Verified.antt =====
-- internal/differential/differential.go: what a diff that `Build` returns has been checked against.
use clausa_lens.Prelude.{String, some, ◌≡◌, arith, ok, string_eq, eq_sound, Result-cases, inl, inr}
use clausa_lens.Contracts.RunEnums.{
  RunType, RunStatus, Outcome, run_type_eq, run_status_eq, outcome_eq,
}
use clausa_lens.Contracts.Run.{ReplayRun}
use clausa_lens.Contracts.Diff.{ReplayDiff, ReplayExecution}
use clausa_lens.Contracts.DiffCheck.{validate_diff}
use clausa_lens.Differential.Build.{
  Sources, verify_prerequisites, assemble, build, compare_runs, diff_of, load_execution, summary_of,
}
use clausa_lens.Checkout.Align.{EventSets}
use clausa_lens.Differential.Divergence.{effect_delta_of}

-- Two runs that may be compared.
pub record Comparable (b c : ReplayRun) : Type 0 where
  pub baseline_type : b.run_type ≡ RunType.baseline
  pub baseline_status : b.status ≡ RunStatus.completed
  pub reproduced : b.outcome ≡ Outcome.reproduced
  pub comparison_type : c.run_type ≡ RunType.what_if
  pub comparison_status : c.status ≡ RunStatus.completed
  pub same_baseline : c.baseline_run_id ≡ b.run_id
  pub same_capsule : c.capsule_hash ≡ b.capsule_hash

Comparable-verify :
    (b c : ReplayRun)
    → verify_prerequisites b c ≡ ok tt
    → b.run_type ≡ RunType.baseline
    → Comparable b c
unfolding verify_prerequisites
Comparable-verify b c h kind = record {
  baseline_type = kind;
  baseline_status = ground arith;
  reproduced = ground arith;
  comparison_type = ground arith;
  comparison_status = ground arith;
  same_baseline = eq_sound c.baseline_run_id b.run_id (ground arith);
  same_capsule = eq_sound c.capsule_hash b.capsule_hash (ground arith);
}

-- A diff that was built, and the runs that it compares.
pub record Built (s : Sources) (diff_id baseline_id comparison_id : String) (d : ReplayDiff)
    : Type 0 where
  pub baseline : ReplayRun
  pub comparison : ReplayRun
  pub baseline_at : s.get_run baseline_id ≡ ok baseline
  pub comparison_at : s.get_run comparison_id ≡ ok comparison
  pub comparable : Comparable baseline comparison
  pub valid : validate_diff d ≡ ok tt
  pub id : d.diff_id ≡ diff_id
  pub baseline_run : d.baseline_run_id ≡ baseline.run_id
  pub comparison_run : d.comparison_run_id ≡ comparison.run_id
  pub intervention : comparison.intervention ≡ some d.intervention
  pub delta :
      d.effect_delta
      ≡ effect_delta_of (summary_of baseline.effect_summary) (summary_of comparison.effect_summary)

-- What `assemble` writes of the two runs.
record Written (b c : ReplayRun) (diff_id : String) (d : ReplayDiff) : Type 0 where
  pub id : d.diff_id ≡ diff_id
  pub baseline_run : d.baseline_run_id ≡ b.run_id
  pub comparison_run : d.comparison_run_id ≡ c.run_id
  pub intervention : c.intervention ≡ some d.intervention
  pub delta :
      d.effect_delta ≡ effect_delta_of (summary_of b.effect_summary) (summary_of c.effect_summary)

assemble-Written :
    (s : Sources) (diff_id : String) (b c : ReplayExecution) (sets : EventSets) (d : ReplayDiff)
    → assemble s diff_id b c sets ≡ ok d
    → Written b.run c.run diff_id d
unfolding assemble
assemble-Written s diff_id b c sets d h = record {
  id = ground arith;
  baseline_run = ground arith;
  comparison_run = ground arith;
  intervention = ground arith;
  delta = ground arith;
}

load_execution-run :
    (s : Sources) (run : ReplayRun) (e : ReplayExecution)
    → load_execution s run ≡ ok e
    → e.run ≡ run
unfolding load_execution
load_execution-run s run e h = ground arith

-- A diff is valid, and is what was assembled.
diff_of-Written :
    (s : Sources) (diff_id : String) (b c : ReplayExecution) (d : ReplayDiff)
    → diff_of s diff_id b c ≡ ok d
    → (validate_diff d ≡ ok tt) × Written b.run c.run diff_id d
unfolding diff_of
diff_of-Written s diff_id b c d h = elim (Result-cases (s.align b c)) [
  | inr (e, fails) ↦ absurd (ground arith)
  | inl (sets, aligned) ↦ elim (Result-cases (assemble s diff_id b c sets)) [
    | inr (e, fails) ↦ absurd (ground arith)
    | inl (made, written) ↦
        let same : made ≡ d = ground arith in
        (ground arith, assemble-Written s diff_id b c sets d (rw same at written))
  ]
]

compare_runs-parts :
    (s : Sources) (diff_id : String) (baseline comparison : ReplayRun) (d : ReplayDiff)
    → compare_runs s diff_id baseline comparison ≡ ok d
    → Comparable baseline comparison
      × (validate_diff d ≡ ok tt)
      × Written baseline comparison diff_id d
unfolding compare_runs
compare_runs-parts s diff_id baseline comparison d h =
    let comparable =
      Comparable-verify baseline comparison (ground arith)
        (eq_sound baseline.run_type RunType.baseline (ground arith)) in
    elim (Result-cases (load_execution s baseline)) [
      | inr (e, fails) ↦ absurd (ground arith)
      | inl (b, loaded) ↦ elim (Result-cases (load_execution s comparison)) [
        | inr (e, fails) ↦ absurd (ground arith)
        | inl (c, loaded') ↦
            let made : diff_of s diff_id b c ≡ ok d = ground arith in
            let (valid, written) =
              rw (load_execution-run s baseline b loaded, load_execution-run s comparison c loaded')
                at (diff_of-Written s diff_id b c d made) in
            (comparable, valid, written)
      ]
    ]

-- Whatever the store and the pack answer, a diff that `Build` returns passes the contract's validator,
-- and compares a COMPLETED and REPRODUCED baseline with a COMPLETED what-if run of that baseline and of
-- the same capsule digest, under that run's intervention and with the change of the two runs' effects.
pub build-Built :
    (s : Sources) (diff_id baseline_id comparison_id : String) (d : ReplayDiff)
    → build s diff_id baseline_id comparison_id ≡ ok d
    → Built s diff_id baseline_id comparison_id d
unfolding build
build-Built s diff_id baseline_id comparison_id d h = elim (Result-cases (s.get_run baseline_id)) [
  | inr (e, fails) ↦ absurd (ground arith)
  | inl (b, at_b) ↦ elim (Result-cases (s.get_run comparison_id)) [
    | inr (e, fails) ↦ absurd (ground arith)
    | inl (c, at_c) ↦
        let (comparable, valid, written) = compare_runs-parts s diff_id b c d (ground arith) in
        record {
          baseline = b;
          comparison = c;
          baseline_at = at_b;
          comparison_at = at_c;
          comparable = comparable;
          valid = valid;
          id = written.id;
          baseline_run = written.baseline_run;
          comparison_run = written.comparison_run;
          intervention = written.intervention;
          delta = written.delta;
        }
  ]
]
