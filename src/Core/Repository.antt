-- ===== src/Core/Repository.antt =====
-- internal/core/store.go and lease.go: what the repository promises, over maps from ids to records that
-- forget how and in which order the store keeps them, and the requests that it serves.
use clausa_lens.Prelude.{
  ℕ, ◌+◌, String, Bool, true, false, not, ◌||◌, ◌&&◌, option_eq, int_eq, Option, none, some, List,
  [], ◌∷◌, ◌==◌, string_eq, lookup, is_err, is_some, Result, ok, err, or_fail, reject, ◌>>◌, ◌>>=◌,
  if◌then◌else◌,
}
use clausa_lens.Contracts.Isolation.{IsolationEvidence}
use clausa_lens.Contracts.RunEnums.{
  RunType, RunStatus, Outcome, Verdict, run_type_eq, run_status_eq, outcome_eq, verdict_eq,
}
use clausa_lens.Contracts.Event.{ExecutionEvent, validate_event}
use clausa_lens.Contracts.Capsule.{ReplayCapsule}
use clausa_lens.Contracts.CapsuleCheck.{validate_capsule}
use clausa_lens.Contracts.Run.{ReplayRun, intervention_eq}
use clausa_lens.Contracts.RunCheck.{validate_run}
use clausa_lens.Contracts.Diff.{ReplayDiff}
use clausa_lens.Contracts.DiffCheck.{validate_diff}
use clausa_lens.Core.Store.{Store, StoreError, internal, conflict, not_found, invalid_lifecycle}
use clausa_lens.Core.Events.{ingest_event, as_invalid_event}
use clausa_lens.Core.Runs.{
  put_capsule, get_capsule, put_run, get_run, transition_run, put_diff, get_diff, found_or,
}
use clausa_lens.Core.Lease.{claim_run, renew_lease}

pub data Request : Type 0 where
  ingest : ExecutionEvent → Request
  put_a_capsule : ReplayCapsule → Request
  read_capsule : String → Request
  put_a_run : ReplayRun → Request
  read_run : String → Request
  transition : RunStatus → ReplayRun → Request
  -- The clock's reading, the id and the length of the lease.
  claim renew : ℕ → String → ℕ → Request
  put_a_diff : ReplayDiff → Request
  read_diff : String → Request

pub data Reply : Type 0 where
  done : Reply
  refused : StoreError → Reply
  a_capsule : ReplayCapsule → Reply
  a_run : ReplayRun → Reply
  a_diff : ReplayDiff → Reply

-- The abstract repository.
pub record Repository : Type 0 where
  pub events : String → Option ExecutionEvent
  pub capsules : String → Option ReplayCapsule
  pub runs : String → Option ReplayRun
  pub diffs : String → Option ReplayDiff
  pub leases : String → Option ℕ

abbrev pub update : {V : Type 0} → String → V → (String → Option V) → String → Option V
update key v f = λ id. if key == id then some v else f id

-- A request that was refused has changed nothing.
abbrev pub answered : {S : Type 0} → S → Result StoreError (S × Reply) → S × Reply
answered s (ok (t, reply)) = (t, reply)
answered s (err e) = (s, refused e)

abbrev pub stored : {S : Type 0} → Result StoreError S → Result StoreError (S × Reply)
stored (ok t) = ok (t, done)
stored (err e) = err e

abbrev pub replied :
    {S A : Type 0} → (A → Reply) → S → Result StoreError A → Result StoreError (S × Reply)
replied reply s (ok a) = ok (s, reply a)
replied reply s (err e) = err e

abbrev passed : Option IsolationEvidence → Bool
passed none = false
passed (some e) = e.verdict == Verdict.pass

abbrev is_none : {A : Type 0} → Option A → Bool
is_none none = true
is_none (some a) = false

-- A value is written once under its key, after the tests of it.
abbrev pub write_once :
    {S : Type 0} → Result StoreError (Unit {0}) → Bool → S → Result StoreError (S × Reply)
write_once tests exists t = tests >> reject exists conflict >> ok (t, done)

abbrev claimable : Option ReplayRun → Result StoreError ReplayRun
claimable none = err not_found
claimable (some r) = if r.status == RunStatus.created then ok r else err invalid_lifecycle

-- The life of a run, by where each status is reached from: a run is validated, run and completed, and
-- may fail or be blocked from its validation on.
unfoldable pub follows : RunStatus → RunStatus → Bool
follows from RunStatus.created = false
follows from RunStatus.validating = from == RunStatus.created
follows from RunStatus.running = from == RunStatus.validating
follows from RunStatus.completed = from == RunStatus.running
follows from RunStatus.failed = from == RunStatus.validating || from == RunStatus.running
follows from RunStatus.blocked = from == RunStatus.validating || from == RunStatus.running
follows from (RunStatus.other s) = false

-- A stored run is of the status that a transition starts from, and what it replays, how and in which
-- trial is what the run that takes its place says.
unfoldable pub continues : RunStatus → ReplayRun → ReplayRun → Bool
continues from old r =
    old.status == from
    && (old.execution_id == r.execution_id
        && old.capsule_id == r.capsule_id
        && old.capsule_hash == r.capsule_hash)
    && (old.run_type == r.run_type
        && old.baseline_run_id == r.baseline_run_id
        && old.intervention == r.intervention)
    && old.trial_number == r.trial_number

abbrev movable : RunStatus → ReplayRun → Option ReplayRun → Result StoreError (Unit {0})
movable from r none = err not_found
movable from r (some old) = if continues from old r then ok tt else err invalid_lifecycle

-- A run that reproduced the failure of a capsule, in isolation and without an intervention.
abbrev pub reproduced : ReplayRun → ReplayRun → Bool
reproduced r b =
    (b.run_id == r.baseline_run_id
      && b.capsule_id == r.capsule_id
      && b.capsule_hash == r.capsule_hash)
    && (b.run_type == RunType.baseline
        && b.status == RunStatus.completed
        && b.outcome == Outcome.reproduced)
    && (passed b.isolation_evidence && is_none b.intervention)

abbrev pub grounded : ReplayRun → Option ReplayRun → Bool
grounded r none = false
grounded r (some b) = reproduced r b

-- A what-if run stands on a reproduced baseline, and every other run on none.
unfoldable pub permitted : ReplayRun → Option ReplayRun → Result StoreError (Unit {0})
permitted r b =
    if r.run_type == RunType.what_if
    then (if grounded r b then ok tt else err invalid_lifecycle)
    else ok tt

module _ (host_of : String → String) where
  -- A store of the repository serves a request.
  unfoldable pub serve : Bool → Request → Store → Store × Reply
  serve ctx (ingest e) s = answered s (stored (ingest_event ctx e s))
  serve ctx (put_a_capsule c) s = answered s (stored (put_capsule ctx c s))
  serve ctx (read_capsule id) s = answered s (replied a_capsule s (get_capsule ctx id s))
  serve ctx (put_a_run r) s = answered s (stored (put_run host_of ctx r s))
  serve ctx (read_run id) s = answered s (replied a_run s (get_run ctx id s))
  serve ctx (transition from r) s = answered s (stored (transition_run host_of ctx from r s))
  serve ctx (claim now id lease) s =
      answered s (claim_run ctx now id lease s >>= λ (t, r). ok (t, a_run r))
  serve ctx (renew now id lease) s = answered s (stored (renew_lease ctx now id lease s))
  serve ctx (put_a_diff d) s = answered s (stored (put_diff ctx d s))
  serve ctx (read_diff id) s = answered s (replied a_diff s (get_diff ctx id s))

  -- The promise, for a context that is not cancelled.
  unfoldable pub promise : Request → Repository → Result StoreError (Repository × Reply)
  promise (ingest e) m =
      write_once (as_invalid_event (validate_event e)) (is_some (m.events e.event_id))
        (record m { events = update e.event_id e m.events })
  promise (put_a_capsule c) m =
      write_once (or_fail (validate_capsule c) internal) (is_some (m.capsules c.capsule_id))
        (record m { capsules = update c.capsule_id c m.capsules })
  promise (read_capsule id) m = replied a_capsule m (found_or not_found (m.capsules id))
  promise (put_a_run r) m =
      or_fail (validate_run host_of r) internal
      >> reject (is_some (m.runs r.run_id)) conflict
      >> permitted r (m.runs r.baseline_run_id)
      >> ok (record m { runs = update r.run_id r m.runs }, done)
  promise (read_run id) m = replied a_run m (found_or not_found (m.runs id))
  promise (transition from r) m =
      reject (not (follows from r.status) || is_err (validate_run host_of r)) invalid_lifecycle
      >> movable from r (m.runs r.run_id)
      >> ok (record m { runs = update r.run_id r m.runs }, done)
  promise (claim now id lease) m = claimable (m.runs id) >>= λ r.
      let claimed = record r { status = RunStatus.validating } in
      ok (
        record m { runs = update id claimed m.runs; leases = update id (now + lease) m.leases },
        a_run claimed,
      )
  promise (renew now id lease) m =
      reject (not (is_some (m.runs id))) not_found
      >> ok (record m { leases = update id (now + lease) m.leases }, done)
  promise (put_a_diff d) m =
      write_once (or_fail (validate_diff d) internal) (is_some (m.diffs d.diff_id))
        (record m { diffs = update d.diff_id d m.diffs })
  promise (read_diff id) m = replied a_diff m (found_or not_found (m.diffs id))

  unfoldable pub specify : Bool → Request → Repository → Repository × Reply
  unfolding promise
  specify ctx q m = answered m (reject ctx internal >> promise q m)

  -- Requests in order, each with whether its context was cancelled, and their replies.
  unfoldable pub serve_all : List (Bool × Request) → Store → Store × List Reply
  unfolding serve
  serve_all [] s = (s, [])
  serve_all ((ctx, q) ∷ qs) s =
      let (t, reply) = serve ctx q s in let (u, replies) = serve_all qs t in (u, reply ∷ replies)

  unfoldable pub specify_all : List (Bool × Request) → Repository → Repository × List Reply
  unfolding specify
  specify_all [] m = (m, [])
  specify_all ((ctx, q) ∷ qs) m =
      let (n, reply) = specify ctx q m in
      let (o, replies) = specify_all qs n in (o, reply ∷ replies)

-- What a store says under each id.
unfoldable pub view : Store → Repository
view s = record {
  events = λ id. lookup id s.events;
  capsules = λ id. lookup id s.capsules;
  runs = λ id. lookup id s.runs;
  diffs = λ id. lookup id s.diffs;
  leases = λ id. lookup id s.lease_until;
}
