-- ===== src/Core/Store.antt =====
-- internal/core/store.go and the error kinds of internal/core/postgres.go: the state of the store.
-- A call takes `ctx`, true where the context was cancelled. `Lock` and `RLock` make each call atomic,
-- so a call is one function on the state; a call that fails has written nothing.
use clausa_lens.Prelude.{ℕ, String, Bool, [], length, Dict, Result, ok, reject, ◌>>◌}
use clausa_lens.Contracts.Event.{ExecutionEvent}
use clausa_lens.Contracts.Incident.{Incident}
use clausa_lens.Contracts.Graph.{ExecutionGraph}
use clausa_lens.Contracts.Capsule.{ReplayCapsule}
use clausa_lens.Contracts.Run.{ReplayRun}
use clausa_lens.Contracts.Diff.{ReplayDiff}

-- The kinds of `RepositoryError`; `invalid_event` is a validator's own error, passed on.
pub data StoreError : Type 0 where
  not_found conflict invalid_lifecycle internal : StoreError
  invalid_event : String → StoreError

-- `lease_until` is an instant in nanoseconds.
pub record Store : Type 0 where
  pub events : Dict ExecutionEvent
  pub incidents : Dict Incident
  pub graphs : Dict ExecutionGraph
  pub capsules : Dict ReplayCapsule
  pub runs : Dict ReplayRun
  pub diffs : Dict ReplayDiff
  pub lease_until : Dict ℕ

abbrev pub new_store : Store
new_store = record {
  events = [];
  incidents = [];
  graphs = [];
  capsules = [];
  runs = [];
  diffs = [];
  lease_until = [];
}

pub record ResetCounts : Type 0 where
  pub incidents : ℕ
  pub runs : ℕ

-- `Reset` leaves `leaseUntil` as it is.
unfoldable pub reset : Bool → Store → Result StoreError (Store × ResetCounts)
reset ctx s =
    reject ctx internal
    >> ok (
      record new_store { lease_until = s.lease_until },
      record { incidents = length s.incidents; runs = length s.runs },
    )
