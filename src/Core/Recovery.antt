-- ===== src/Core/Recovery.antt =====
-- internal/core/lease.go: whom `ReclaimExpiredRuns` finds after a claim.
use mathlib.Core.List.{Memᴰ}
use clausa_lens.Prelude.{
  ℕ, ◌+◌, String, Bool, true, false, ◌&&◌, some, List, [], ◌∷◌, All, ◌≡◌, ◌≢◌, ◌≤◌, ◌<◌, refl, ap,
  arith, ok, ◌==◌, string_eq, Dict, lookup, insert, lookup-insert, eq_refl, eq_sound, Bool-cases,
  inl, inr, subst,
}
use clausa_lens.Contracts.RunEnums.{RunStatus, run_status_eq}
use clausa_lens.Contracts.Run.{ReplayRun}
use clausa_lens.Core.Store.{Store}
use clausa_lens.Core.Lease.{
  claim_run, lease_expired, is_stranded, stranded_runs, reclaim_expired_runs,
}
use clausa_lens.Core.Ready.{claim_run-Claims}

-- A reclaimed run stands in the store, stranded, under a key whose lease is over.
pub record Expired (now : ℕ) (leases : Dict ℕ) (runs : Dict ReplayRun) (r : ReplayRun)
    : Type 0 where
  pub key : String
  pub at : Memᴰ (key, r) runs
  pub stranded : is_stranded r.status ≡ true
  pub expired : lease_expired (lookup key leases) now ≡ true

Expired-tail :
    (now : ℕ) (leases : Dict ℕ) (entry : String × ReplayRun) (runs : Dict ReplayRun)
    (rs : List ReplayRun)
    → All (Expired now leases runs) rs
    → All (Expired now leases (entry ∷ runs)) rs
Expired-tail now leases entry runs [] all = tt
Expired-tail now leases entry runs (r ∷ rs) (e, all) = (
  record { key = e.key; at = Memᴰ.tail e.at; stranded = e.stranded; expired = e.expired },
  Expired-tail now leases entry runs rs all,
)

stranded_runs-Expired :
    (now : ℕ) (leases : Dict ℕ) (runs : Dict ReplayRun)
    → All (Expired now leases runs) (stranded_runs now leases runs)
unfolding stranded_runs
stranded_runs-Expired now leases [] = tt
stranded_runs-Expired now leases ((id, r) ∷ runs) =
    let others = Expired-tail now leases (id, r) runs _ (stranded_runs-Expired now leases runs) in
    elim (Bool-cases (is_stranded r.status && lease_expired (lookup id leases) now)) [
      | inr stays ↦ rw stays others
      | inl taken ↦ rw taken (
        record { key = id; at = Memᴰ.head refl; stranded = ground arith; expired = ground arith },
        others,
      )
    ]

-- A stranded entry whose lease is over is found.
stranded_runs-mem :
    (now : ℕ) (leases : Dict ℕ) (runs : Dict ReplayRun) (id : String) (r : ReplayRun)
    → lookup id runs ≡ some r
    → is_stranded r.status ≡ true
    → lease_expired (lookup id leases) now ≡ true
    → Memᴰ r (stranded_runs now leases runs)
unfolding stranded_runs lookup
stranded_runs-mem now leases [] id r at stranded expired = absurd (cc at)
stranded_runs-mem now leases ((k, q) ∷ runs) id r at stranded expired =
    elim (Bool-cases (k == id)) [
      | inl same ↦
          let is : q ≡ r = ground arith in
          let key = eq_sound k id same in rw (is, key, stranded, expired) (Memᴰ.head refl)
      | inr other ↦
          let later = stranded_runs-mem now leases runs id r (rw other at at) stranded expired in
          elim (Bool-cases (is_stranded q.status && lease_expired (lookup k leases) now)) [
            | inl taken ↦ rw taken (Memᴰ.tail later)
            | inr stays ↦ rw stays later
          ]
    ]

claim_run-lease :
    (ctx : Bool) (now : ℕ) (id : String) (lease : ℕ) (r : ReplayRun) (s t : Store)
    → claim_run ctx now id lease s ≡ ok (t, r)
    → t.lease_until ≡ insert id (now + lease) s.lease_until
unfolding claim_run
claim_run-lease ctx now id lease r s t h = ground arith

reclaims :
    (ctx : Bool) (now : ℕ) (s : Store) (found : List ReplayRun)
    → reclaim_expired_runs ctx now s ≡ ok found
    → stranded_runs now s.lease_until s.runs ≡ found
unfolding reclaim_expired_runs
reclaims ctx now s found h = ground arith

held_lease : (now until : ℕ) → now ≤ until → lease_expired (some until) now ≡ false
unfolding lease_expired
held_lease now until h = ground arith

ended_lease : (now until : ℕ) → until < now → lease_expired (some until) now ≡ true
unfolding lease_expired
ended_lease now until h = ground arith

validating_stranded :
    (status : RunStatus) → status ≡ RunStatus.validating → is_stranded status ≡ true
unfolding is_stranded
validating_stranded status h = ground arith

-- A stored run that is not that of an id.
pub record Elsewhere (id : String) (s : Store) (r : ReplayRun) : Type 0 where
  pub key : String
  pub at : Memᴰ (key, r) s.runs
  pub other : key ≢ id

elsewhere :
    (id : String) (now : ℕ) (s : Store) (rs : List ReplayRun)
    → lease_expired (lookup id s.lease_until) now ≡ false
    → All (Expired now s.lease_until s.runs) rs
    → All (Elsewhere id s) rs
elsewhere id now s [] held all = tt
elsewhere id now s (r ∷ rs) held (e, all) = (
  record { key = e.key; at = e.at; other = λ same. absurd (cc (rw same at e.expired, held)) },
  elsewhere id now s rs held all,
)

lease_after :
    (ctx : Bool) (now : ℕ) (id : String) (lease : ℕ) (r : ReplayRun) (s t : Store)
    → claim_run ctx now id lease s ≡ ok (t, r)
    → lookup id t.lease_until ≡ some (now + lease)
lease_after ctx now id lease r s t h =
    rw (claim_run-lease ctx now id lease r s t h) (rw lookup-insert (rw (eq_refl id) refl))

-- After a claim, where nothing else was called since, `ReclaimExpiredRuns` does not return the claimed
-- run until its lease is over: every run that it returns stands in the store under another id.
pub claimed_run_kept :
    (ctx : Bool) (now : ℕ) (id : String) (lease : ℕ) (r : ReplayRun) (s t : Store)
    → claim_run ctx now id lease s ≡ ok (t, r)
    → (later : ℕ) (found : List ReplayRun) → later ≤ now + lease
    → reclaim_expired_runs false later t ≡ ok found
    → All (Elsewhere id t) found
claimed_run_kept ctx now id lease r s t h later found held taken =
    let until = lease_after ctx now id lease r s t h in
    elsewhere id later t found (rw until (held_lease later (now + lease) held)) (
      subst (All (Expired later t.lease_until t.runs)) (reclaims false later t found taken)
        (stranded_runs-Expired later t.lease_until t.runs))

-- Once the lease of a claim is over, and nothing else was called, `ReclaimExpiredRuns` returns the
-- claimed run.
pub claimed_run_reclaimed :
    (ctx : Bool) (now : ℕ) (id : String) (lease : ℕ) (r : ReplayRun) (s t : Store)
    → claim_run ctx now id lease s ≡ ok (t, r)
    → (later : ℕ) (found : List ReplayRun) → now + lease < later
    → reclaim_expired_runs false later t ≡ ok found
    → Memᴰ r found
claimed_run_reclaimed ctx now id lease r s t h later found over taken =
    let c = claim_run-Claims ctx now id lease r s t h in
    let status : r.status ≡ RunStatus.validating = ap (λ (q : ReplayRun). q.status) c.claimed in
    let at : lookup id t.runs ≡ some r = rw c.runs (rw lookup-insert (rw (eq_refl id) refl)) in
    subst (Memᴰ r) (reclaims false later t found taken) (
      stranded_runs-mem later t.lease_until t.runs id r at (validating_stranded r.status status)
        (rw (lease_after ctx now id lease r s t h) (ended_lease later (now + lease) over)))
