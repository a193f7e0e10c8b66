-- ===== src/Api/Compiled.antt =====
-- cmd/core-api/main.go: the capsule of an incident is compiled once.
use clausa_lens.Prelude.{
  String, false, some, ◌≡◌, ◌≢◌, ◌⊎◌, refl, ap, ◌∙◌, subst, arith, inl, inr, Result, ok, err,
  Result-cases, insert, lookup-insert, eq_refl, string_eq,
}
use clausa_lens.Contracts.Capsule.{ReplayCapsule}
use clausa_lens.Contracts.Pack.{SystemPack}
use clausa_lens.Core.Store.{Store, StoreError}
use clausa_lens.Core.Incidents.{IncidentDetail, get_incident_detail}
use clausa_lens.Core.Runs.{put_capsule, get_capsule}
use clausa_lens.Capsule.Compile.{CompileError, compile}
use clausa_lens.Capsule.Compiled.{compile-Compiled}
use clausa_lens.Api.Respond.{Response, mapped_error, capsule_error}
use clausa_lens.Api.Incidents.{
  capsule_id_of, capsule_input, store_compiled, compile_incident, post_capsule,
}

mapped_error-fails :
    (e : StoreError) (c : ReplayCapsule) → mapped_error e ≢ Response.created_capsule c
unfolding mapped_error
mapped_error-fails e c h = ground arith

capsule_error-fails :
    (e : CompileError) (c : ReplayCapsule) → capsule_error e ≢ Response.created_capsule c
unfolding capsule_error
capsule_error-fails e c h = ground arith

-- What a capsule that was stored leaves as it was.
put_capsule-Stored :
    (c : ReplayCapsule) (s t : Store)
    → put_capsule false c s ≡ ok t
    → (t ≡ record s { capsules = insert c.capsule_id c s.capsules })
      × (get_capsule false c.capsule_id t ≡ ok c)
unfolding put_capsule get_capsule
put_capsule-Stored c s t h = (
  ground arith,
  ground (arith, lookup-insert c.capsule_id c.capsule_id c s.capsules, eq_refl c.capsule_id),
)

store_compiled-Created :
    (r : Result CompileError ReplayCapsule) (s t : Store) (c : ReplayCapsule)
    → store_compiled false r s ≡ (t, Response.created_capsule c)
    → (r ≡ ok c) × (put_capsule false c s ≡ ok t)
unfolding store_compiled
store_compiled-Created (err e) s t c h = absurd (capsule_error-fails e c (ground arith))
store_compiled-Created (ok made) s t c h = elim (Result-cases (put_capsule false made s)) [
  | inr (e, fails) ↦ absurd (mapped_error-fails e c (ground arith))
  | inl (u, puts) ↦
      let same : u ≡ t = ground arith in
      let one : made ≡ c = ground arith in (ap ok one, rw (← same, ← one) puts)
]

module _ (digest_of : ReplayCapsule → Result String String) (pack : SystemPack) (id : String) where
  -- Either the capsule was there, or it has been compiled and stored.
  compile_incident-Created :
      (now : String) (d : IncidentDetail) (s t : Store) (c : ReplayCapsule)
      → compile_incident digest_of false now pack id d s ≡ (t, Response.created_capsule c)
      → (get_capsule false (capsule_id_of id) t ≡ ok c)
        × ((t ≡ s) ⊎ (t ≡ record s { capsules = insert c.capsule_id c s.capsules }))
  unfolding compile_incident
  compile_incident-Created now d s t c h =
      elim (Result-cases (get_capsule false (capsule_id_of id) s)) [
        | inl (existing, found) ↦
            let same : s ≡ t = ground arith in
            let one : existing ≡ c = ground arith in rw (← same, ← one) (found, inl refl)
        | inr (missing, e) ↦
            let input = capsule_input now (capsule_id_of id) d in
            let (compiles, puts) =
              store_compiled-Created (compile digest_of pack input) s t c (ground arith) in
            let named = (compile-Compiled digest_of pack input c compiles).named in
            let (becomes, found) = put_capsule-Stored c s t puts in
            (subst (λ x. get_capsule false x t ≡ ok c) named found, inr becomes)
      ]

  get_incident_detail-capsules :
      (s : Store) (c : ReplayCapsule)
      → get_incident_detail false id (record s { capsules = insert c.capsule_id c s.capsules })
        ≡ get_incident_detail false id s
  unfolding get_incident_detail
  get_incident_detail-capsules s c = refl

  compile_incident-again :
      (later : String) (d : IncidentDetail) (t : Store) (c : ReplayCapsule)
      → get_capsule false (capsule_id_of id) t ≡ ok c
      → compile_incident digest_of false later pack id d t ≡ (t, Response.created_capsule c)
  unfolding compile_incident
  compile_incident-again later d t c found = rw (compile_incident, found) refl

  get_incident_detail-same :
      (s t : Store) (c : ReplayCapsule)
      → (t ≡ s) ⊎ (t ≡ record s { capsules = insert c.capsule_id c s.capsules })
      → get_incident_detail false id t ≡ get_incident_detail false id s
  get_incident_detail-same s t c (inl same) = rw same refl
  get_incident_detail-same s t c (inr becomes) = rw becomes (get_incident_detail-capsules s c)

  -- Where the capsule of an incident has been asked for and is answered, the store holds it under the
  -- incident's capsule id, and it is answered again, whenever it is asked for, with no change to the
  -- store: nothing is compiled a second time.
  pub post_capsule-again :
      (now later : String) (s t : Store) (c : ReplayCapsule)
      → post_capsule digest_of false now (some pack) id s ≡ (t, Response.created_capsule c)
      → (get_capsule false (capsule_id_of id) t ≡ ok c)
        × (post_capsule digest_of false later (some pack) id t ≡ (t, Response.created_capsule c))
  unfolding post_capsule
  post_capsule-again now later s t c h = elim (Result-cases (get_incident_detail false id s)) [
    | inr (e, missing) ↦ absurd (mapped_error-fails e c (ground arith))
    | inl (d, read) ↦
        let (found, becomes) = compile_incident-Created now d s t c (ground arith) in
        let reread = get_incident_detail-same s t c becomes ∙ read in
        (found, rw (post_capsule, reread) (compile_incident-again later d t c found))
  ]
