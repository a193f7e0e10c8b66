-- ===== src/Capsule/Compiled.antt =====
-- internal/capsule/capsule.go: what a compiled capsule is, and that the executor accepts it.
use clausa_lens.Prelude.{
  String, true, is_nil, map, string_eq, ◌≡◌, ◌≢◌, refl, arith, Result, ok, err, eq_refl, eq_sound,
  Result-cases, inl, inr,
}
use clausa_lens.Contracts.IncidentEnums.{IncidentStatus, incident_status_eq}
use clausa_lens.Contracts.RunEnums.{run_type_eq}
use clausa_lens.Contracts.Event.{ExecutionEvent}
use clausa_lens.Contracts.Capsule.{ReplayCapsule}
use clausa_lens.Contracts.CapsuleCheck.{validate_capsule}
use clausa_lens.Contracts.Pack.{SystemPack}
use clausa_lens.Capsule.Compile.{
  CompileInput, integrity_mismatch, compile, seal, verify_digest, compute_digest, blanked, assemble,
}

module _ (digest_of : ReplayCapsule → Result String String) where
  -- The digest that `Compile` writes is over the capsule with a blank digest, so that it verifies.
  sealed_digest :
      (c : ReplayCapsule) (digest : String)
      → compute_digest digest_of c ≡ ok digest
      → verify_digest digest_of (record c { integrity = record c.integrity { digest = digest } })
        ≡ true
  unfolding verify_digest compute_digest blanked
  sealed_digest c digest h = ground (arith, eq_refl digest)

  -- What `Compile` shows of the capsule that it returns.
  pub record Compiled (pack : SystemPack) (input : CompileInput) (c : ReplayCapsule) : Type 0 where
    pub ready : input.incident.status ≡ IncidentStatus.ready
    pub named : c.capsule_id ≡ input.capsule_id
    pub valid : validate_capsule c ≡ ok tt
    pub accepted : is_nil (pack.validate_capsule c) ≡ true
    pub digest : verify_digest digest_of c ≡ true
    pub evidence : c.event_ids ≡ map (λ (e : ExecutionEvent). e.event_id) input.events
    pub fixtures :
        pack.extract_fixtures input.incident input.events
        ≡ ok (record {
          state_fixtures = c.state_fixtures;
          dependency_fixtures = c.dependency_fixtures;
        })
    pub plan :
        pack.build_replay_plan input.incident (record {
          state_fixtures = c.state_fixtures;
          dependency_fixtures = c.dependency_fixtures;
        })
        ≡ ok c.replay_plan

  record Sealed (pack : SystemPack) (a c : ReplayCapsule) : Type 0 where
    pub valid : validate_capsule c ≡ ok tt
    pub accepted : is_nil (pack.validate_capsule c) ≡ true
    pub digest : verify_digest digest_of c ≡ true
    pub is : c ≡ record a { integrity = record a.integrity { digest = c.integrity.digest } }

  seal-Sealed :
      (pack : SystemPack) (a c : ReplayCapsule) → seal digest_of pack a ≡ ok c → Sealed pack a c
  unfolding seal
  seal-Sealed pack a c h = elim (Result-cases (compute_digest digest_of a)) [
    | inr (e, fails) ↦ absurd (ground arith)
    | inl (d, digest) ↦
        let sealed = record a { integrity = record a.integrity { digest = d } } in
        let same : sealed ≡ c = ground arith in
        rw (← same) (record {
          valid = ground arith;
          accepted = ground arith;
          digest = sealed_digest a d digest;
          is = refl;
        })
  ]

  -- A capsule that `Compile` returns is all of this.
  pub compile-Compiled :
      (pack : SystemPack) (input : CompileInput) (c : ReplayCapsule)
      → compile digest_of pack input ≡ ok c
      → Compiled pack input c
  unfolding compile assemble
  compile-Compiled pack input c h =
      elim (Result-cases (pack.extract_fixtures input.incident input.events)) [
        | inr (e, fails) ↦ absurd (ground arith)
        | inl (fixtures, extracted) ↦
            elim (Result-cases (pack.build_replay_plan input.incident fixtures)) [
              | inr (e, fails) ↦ absurd (ground arith)
              | inl (plan, built) ↦
                  let s = seal-Sealed pack (assemble pack input fixtures plan) c (ground arith) in
                  rw s.is (record {
                    ready = eq_sound input.incident.status IncidentStatus.ready (ground arith);
                    named = refl;
                    valid = rw (← s.is) s.valid;
                    accepted = rw (← s.is) s.accepted;
                    digest = rw (← s.is) s.digest;
                    evidence = refl;
                    fixtures = extracted;
                    plan = built;
                  })
            ]
      ]

  -- No capsule is refused for its digest.
  seal-ne-integrity_mismatch :
      (pack : SystemPack) (a : ReplayCapsule) → seal digest_of pack a ≢ err integrity_mismatch
  unfolding seal
  seal-ne-integrity_mismatch pack a h = elim (Result-cases (compute_digest digest_of a)) [
    | inr (e, fails) ↦ absurd (ground arith)
    | inl (d, digest) ↦ ground (arith, sealed_digest a d digest)
  ]
