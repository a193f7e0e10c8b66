-- ===== src/Examples/Process.antt =====
-- The worker at a concrete run: it claims it, executes its capsule and completes it.
use clausa_lens.Prelude.{true, false, some, [], ◌∷◌, pos, ok}
use clausa_lens.Contracts.EventEnums.{EventType}
use clausa_lens.Contracts.Run.{ReplayRun}
use clausa_lens.Contracts.RunEnums.{RunStatus, Outcome}
use clausa_lens.Core.Store.{Store, new_store}
use clausa_lens.Replay.Calls.{World, Worker}
use clausa_lens.Packs.Dev.{dev_pack, dev_oracle}
use clausa_lens.Examples.Data.{baseline, running, two_effects, isolated, noon, event}
use clausa_lens.Examples.Capsules.{capsule}

-- No other process, and a clock that stands still.
abbrev quiet : World
quiet = record { cancelled = λ c. false; others = λ c s. s; at = λ c. 100; now = λ c. noon }

abbrev worker : Worker
worker = record {
  pack = some dev_pack;
  runner = some (λ cfg. ok (record {
    events = event "ev-1" EventType.timeout ∷ [];
    isolation = isolated;
    teardown = false;
  }));
  verify_digest = λ c. true;
  lease = 30;
}

abbrev waiting : Store
waiting = record new_store { runs = ("run-1", baseline) ∷ []; capsules = ("cap-1", capsule) ∷ [] }

abbrev finished : ReplayRun
finished = record running {
  status = RunStatus.completed;
  outcome = Outcome.reproduced;
  completed_at = noon;
  effect_summary = some two_effects;
  failure_oracle_result = some (
      dev_oracle true (pos 2) (pos 2)
        "dev pack: baseline reproduced the timeout-driven duplicate ledger effect");
  isolation_evidence = some isolated;
}

abbrev after : Store
after = record waiting {
  runs = ("run-1", finished) ∷ [];
  events = ("ev-1", event "ev-1" EventType.timeout) ∷ [];
  lease_until = ("run-1", 130) ∷ [];
}
