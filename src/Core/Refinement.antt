-- ===== src/Core/Refinement.antt =====
-- internal/core/store.go and lease.go: the store keeps what the repository promises.
use mathlib.Core.Path.{fun_ext}
use clausa_lens.Prelude.{
  ℕ, ◌+◌, String, Bool, true, false, not, ◌||◌, List, [], ◌∷◌, ◌≡◌, refl, sym, ap, ◌∙◌, ◌==◌,
  string_eq, lookup, insert, lookup-insert, Dict, is_err, Bool-cases, Result-cases, Option-cases,
  inl, inr,
}
use clausa_lens.Contracts.Event.{ExecutionEvent, validate_event}
use clausa_lens.Contracts.RunEnums.{RunStatus, run_status_eq}
use clausa_lens.Contracts.Capsule.{ReplayCapsule}
use clausa_lens.Contracts.CapsuleCheck.{validate_capsule}
use clausa_lens.Contracts.Run.{ReplayRun, can_transition}
use clausa_lens.Contracts.RunCheck.{validate_run}
use clausa_lens.Contracts.Diff.{ReplayDiff}
use clausa_lens.Contracts.DiffCheck.{validate_diff}
use clausa_lens.Core.Store.{Store}
use clausa_lens.Core.Events.{ingest_event}
use clausa_lens.Core.Runs.{
  put_capsule, get_capsule, put_run, get_run, transition_run, put_diff, get_diff, authorize,
  same_identity,
}
use clausa_lens.Core.Lease.{claim_run, renew_lease}
use clausa_lens.Core.Promises.{can_transition-follows, same_identity-continues, authorize-permitted}
use clausa_lens.Core.Repository.{
  Request, ingest, put_a_capsule, read_capsule, put_a_run, read_run, transition, claim, renew,
  put_a_diff, read_diff, Reply, done, a_run, Repository, update, serve, specify, promise, serve_all,
  specify_all, view,
}

-- The abstract view of an answer.
abbrev seen : {A : Type 0} → Store × A → Repository × A
seen (s, a) = (view s, a)

lookup-update :
    {V : Type 0} (key : String) (v : V) (d : Dict V)
    → (λ (id : String). lookup id (insert key v d)) ≡ update key v (λ id. lookup id d)
lookup-update key v d = fun_ext (λ id. lookup-insert key id v d)

module _ (host_of : String → String) where
  ingest-promise :
      (ctx : Bool) (e : ExecutionEvent) (s : Store)
      → seen (serve host_of ctx (ingest e) s) ≡ specify host_of ctx (ingest e) (view s)
  unfolding serve specify promise ingest_event view
  ingest-promise true e s = refl
  ingest-promise false e s = elim (Result-cases (validate_event e)) [
    | inr (m, bad) ↦ rw bad refl
    | inl (u, good) ↦ elim (Option-cases (lookup e.event_id s.events)) [
      | inr (old, there) ↦ rw (good, there) refl
      | inl free ↦
          rw (good, free)
            (ap (λ f. (record (view s) { events = f }, done)) (lookup-update e.event_id e s.events))
    ]
  ]

  capsule-promise :
      (ctx : Bool) (c : ReplayCapsule) (s : Store)
      → seen (serve host_of ctx (put_a_capsule c) s)
        ≡ specify host_of ctx (put_a_capsule c) (view s)
  unfolding serve specify promise put_capsule view
  capsule-promise true c s = refl
  capsule-promise false c s = elim (Result-cases (validate_capsule c)) [
    | inr (m, bad) ↦ rw bad refl
    | inl (u, good) ↦ elim (Option-cases (lookup c.capsule_id s.capsules)) [
      | inr (old, there) ↦ rw (good, there) refl
      | inl free ↦
          rw (good, free)
            (ap (λ f. (record (view s) { capsules = f }, done))
              (lookup-update c.capsule_id c s.capsules))
    ]
  ]

  diff-promise :
      (ctx : Bool) (d : ReplayDiff) (s : Store)
      → seen (serve host_of ctx (put_a_diff d) s) ≡ specify host_of ctx (put_a_diff d) (view s)
  unfolding serve specify promise put_diff view
  diff-promise true d s = refl
  diff-promise false d s = elim (Result-cases (validate_diff d)) [
    | inr (m, bad) ↦ rw bad refl
    | inl (u, good) ↦ elim (Option-cases (lookup d.diff_id s.diffs)) [
      | inr (old, there) ↦ rw (good, there) refl
      | inl free ↦
          rw (good, free)
            (ap (λ f. (record (view s) { diffs = f }, done)) (lookup-update d.diff_id d s.diffs))
    ]
  ]

  run-promise :
      (ctx : Bool) (r : ReplayRun) (s : Store)
      → seen (serve host_of ctx (put_a_run r) s) ≡ specify host_of ctx (put_a_run r) (view s)
  unfolding serve specify promise put_run view
  run-promise true r s = refl
  run-promise false r s = elim (Result-cases (validate_run host_of r)) [
    | inr (m, bad) ↦ rw bad refl
    | inl (u, good) ↦ elim (Option-cases (lookup r.run_id s.runs)) [
      | inr (old, there) ↦ rw (good, there) refl
      | inl free ↦ elim (Result-cases (authorize r (lookup r.baseline_run_id s.runs))) [
        | inr (m, bad) ↦ rw (good, free, bad, sym (authorize-permitted r _) ∙ bad) refl
        | inl (v, allowed) ↦
            rw (good, free, allowed, sym (authorize-permitted r _) ∙ allowed)
              (ap (λ f. (record (view s) { runs = f }, done)) (lookup-update r.run_id r s.runs))
      ]
    ]
  ]

  transition-promise :
      (ctx : Bool) (from : RunStatus) (r : ReplayRun) (s : Store)
      → seen (serve host_of ctx (transition from r) s)
        ≡ specify host_of ctx (transition from r) (view s)
  unfolding serve specify promise transition_run view
  transition-promise true from r s = refl
  transition-promise false from r s =
      elim (Bool-cases (not (can_transition from r.status) || is_err (validate_run host_of r))) [
        | inl bad ↦ rw (sym (can_transition-follows from r.status)) (rw bad refl)
        | inr good ↦
            rw (sym (can_transition-follows from r.status))
              (elim (Option-cases (lookup r.run_id s.runs)) [
                | inl gone ↦ rw (good, gone) refl
                | inr (old, there) ↦ elim (Bool-cases (same_identity from old r)) [
                  | inr other ↦
                      rw (good, there, other, sym (same_identity-continues from old r) ∙ other) refl
                  | inl same ↦
                      rw (good, there, same, sym (same_identity-continues from old r) ∙ same)
                        (ap (λ f. (record (view s) { runs = f }, done))
                          (lookup-update r.run_id r s.runs))
                ]
              ])
      ]

  claim-promise :
      (ctx : Bool) (now : ℕ) (id : String) (lease : ℕ) (s : Store)
      → seen (serve host_of ctx (claim now id lease) s)
        ≡ specify host_of ctx (claim now id lease) (view s)
  unfolding serve specify promise claim_run view
  claim-promise true now id lease s = refl
  claim-promise false now id lease s = elim (Option-cases (lookup id s.runs)) [
    | inl gone ↦ rw gone refl
    | inr (r, there) ↦ elim (Bool-cases (r.status == RunStatus.created)) [
      | inr begun ↦ rw (there, begun) refl
      | inl fresh ↦
          let claimed = record r { status = RunStatus.validating } in
          rw (there, fresh)
            (ap
                (λ f. (
                  record (view s) {
                    runs = f;
                    leases = λ k. lookup k (insert id (now + lease) s.lease_until);
                  },
                  a_run claimed,
                ))
                (lookup-update id claimed s.runs)
              ∙ ap
                  (λ f. (
                    record (view s) { runs = update id claimed (λ k. lookup k s.runs); leases = f },
                    a_run claimed,
                  ))
                  (lookup-update id (now + lease) s.lease_until))
    ]
  ]

  renew-promise :
      (ctx : Bool) (now : ℕ) (id : String) (lease : ℕ) (s : Store)
      → seen (serve host_of ctx (renew now id lease) s)
        ≡ specify host_of ctx (renew now id lease) (view s)
  unfolding serve specify promise renew_lease view
  renew-promise true now id lease s = refl
  renew-promise false now id lease s = elim (Option-cases (lookup id s.runs)) [
    | inl gone ↦ rw gone refl
    | inr (r, there) ↦ rw there (
        ap (λ f. (record (view s) { leases = f }, done))
          (lookup-update id (now + lease) s.lease_until))
  ]

  read_capsule-promise :
      (ctx : Bool) (id : String) (s : Store)
      → seen (serve host_of ctx (read_capsule id) s)
        ≡ specify host_of ctx (read_capsule id) (view s)
  unfolding serve specify promise get_capsule view
  read_capsule-promise true id s = refl
  read_capsule-promise false id s = elim (Option-cases (lookup id s.capsules)) [
    | inl gone ↦ rw gone refl
    | inr (there, at) ↦ rw at refl
  ]

  read_run-promise :
      (ctx : Bool) (id : String) (s : Store)
      → seen (serve host_of ctx (read_run id) s) ≡ specify host_of ctx (read_run id) (view s)
  unfolding serve specify promise get_run view
  read_run-promise true id s = refl
  read_run-promise false id s = elim (Option-cases (lookup id s.runs)) [
    | inl gone ↦ rw gone refl
    | inr (there, at) ↦ rw at refl
  ]

  read_diff-promise :
      (ctx : Bool) (id : String) (s : Store)
      → seen (serve host_of ctx (read_diff id) s) ≡ specify host_of ctx (read_diff id) (view s)
  unfolding serve specify promise get_diff view
  read_diff-promise true id s = refl
  read_diff-promise false id s = elim (Option-cases (lookup id s.diffs)) [
    | inl gone ↦ rw gone refl
    | inr (there, at) ↦ rw at refl
  ]

  -- One request, whatever it is.
  serve-specify :
      (ctx : Bool) (q : Request) (s : Store)
      → seen (serve host_of ctx q s) ≡ specify host_of ctx q (view s)
  serve-specify ctx (ingest e) s = ingest-promise ctx e s
  serve-specify ctx (put_a_capsule c) s = capsule-promise ctx c s
  serve-specify ctx (put_a_run r) s = run-promise ctx r s
  serve-specify ctx (put_a_diff d) s = diff-promise ctx d s
  serve-specify ctx (transition from r) s = transition-promise ctx from r s
  serve-specify ctx (claim now id lease) s = claim-promise ctx now id lease s
  serve-specify ctx (renew now id lease) s = renew-promise ctx now id lease s
  serve-specify ctx (read_capsule id) s = read_capsule-promise ctx id s
  serve-specify ctx (read_run id) s = read_run-promise ctx id s
  serve-specify ctx (read_diff id) s = read_diff-promise ctx id s

  -- The store serves requests in any order, cancelled or not, as the repository promises, where each is
  -- to ingest an event, to put or read a capsule, a run or a diff, to move or claim a run or to renew
  -- its lease: read by its view, it ends as the abstract repository does, and every reply is the same,
  -- errors included.
  pub serve_all-specify_all :
      (qs : List (Bool × Request)) (s : Store)
      → (view (serve_all host_of qs s).0 ≡ (specify_all host_of qs (view s)).0)
        × ((serve_all host_of qs s).1 ≡ (specify_all host_of qs (view s)).1)
  unfolding serve_all specify_all
  serve_all-specify_all [] s = (refl, refl)
  serve_all-specify_all ((ctx, q) ∷ qs) s =
      let one = serve-specify ctx q s in
      let (end, replies) = serve_all-specify_all qs (serve host_of ctx q s).0 in
      (
        end ∙ ap (λ (m : Repository × Reply). (specify_all host_of qs m.0).0) one,
        ap (λ rs. (serve host_of ctx q s).1 ∷ rs) replies
            ∙ ap (λ (m : Repository × Reply). m.1 ∷ (specify_all host_of qs m.0).1) one,
      )
