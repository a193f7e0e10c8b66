-- ===== src/Core/Query.antt =====
-- internal/core/store.go: what a query of `ListIncidents` asks of an incident, and its loop.
use mathlib.Core.List.{Memᴰ}
use clausa_lens.Prelude.{
  Option, none, ◌⊎◌, ◌↔◌, ◌<◌, refl, string_eq, String, ℕ, true, false, some, List, [], ◌∷◌, All,
  ◌≡◌, arith, ok, Result-cases, Option-cases, Bool-cases, inl, inr, subst,
}
use clausa_lens.Contracts.IncidentEnums.{IncidentStatus, incident_status_eq}
use clausa_lens.Contracts.Time.{parse_time}
use clausa_lens.Contracts.Incident.{Incident}
use clausa_lens.Graph.Build.{text_less}
use clausa_lens.Core.Incidents.{
  Cursor, CursorText, no_cursor, bad_cursor, cursor, IncidentListQuery, skipped_by, of_status,
  matching,
}

-- Older than a cursor: detected before it, or at the same time under a lesser id.
abbrev pub Older : Cursor → ℕ → String → Type 0
Older c time id =
    (time < c.detected_at) ⊎ ((time ≡ c.detected_at) × (text_less id c.incident_id ≡ true))

abbrev pub Follows : CursorText → ℕ → String → Type 0
Follows no_cursor time id = Unit
Follows bad_cursor time id = Unit
Follows (cursor c) time id = Older c time id

abbrev pub Asked : Option IncidentStatus → IncidentStatus → Type 0
Asked none status = Unit
Asked (some wanted) status = status ≡ wanted

-- What a query asks of an incident: its status, and to come after the cursor.
pub record Wanted (q : IncidentListQuery) (i : Incident) : Type 0 where
  pub status : Asked q.status i.status
  pub time : ℕ
  pub at : parse_time i.detected_at ≡ some time
  pub after : Follows q.after time i.incident_id

skipped_by-Follows :
    (c : CursorText) (time : ℕ) (id : String) → (skipped_by c time id ≡ false) ↔ Follows c time id
skipped_by-Follows no_cursor time id = (λ h. tt, λ f. refl)
skipped_by-Follows bad_cursor time id = (λ h. tt, λ f. refl)
skipped_by-Follows (cursor c) time id = (λ h. ground arith, λ f. ground arith)

of_status-Asked :
    (wanted : Option IncidentStatus) (status : IncidentStatus)
    → (of_status wanted status ≡ true) ↔ Asked wanted status
of_status-Asked none status = (λ h. tt, λ f. refl)
of_status-Asked (some w) status = incident_status_eq.beq_iff status w

not_Wanted :
    (q : IncidentListQuery) (i : Incident) (time : ℕ)
    → parse_time i.detected_at ≡ some time
    → skipped_by q.after time i.incident_id ≡ true
    → ¬ Wanted q i
not_Wanted q i time at skipped w =
    let same : time ≡ w.time = ground (arith, w.at) in
    let kept = (skipped_by-Follows q.after w.time i.incident_id).1 w.after in
    absurd (cc (skipped, rw (← same) at kept))

-- One round of the loop: an incident is kept exactly where it is wanted.
matching-cons :
    (q : IncidentListQuery) (i : Incident) (is found : List Incident)
    → matching q (i ∷ is) ≡ ok found
    → (rest : List Incident) × (matching q is ≡ ok rest)
      × ((Wanted q i × (i ∷ rest ≡ found)) ⊎ ((¬ Wanted q i) × (rest ≡ found)))
unfolding matching
matching-cons q i is found h = elim (Result-cases (matching q is)) [
  | inr (e, fails) ↦ absurd (ground arith)
  | inl (rest, later) ↦ elim (Bool-cases (of_status q.status i.status)) [
    | inr other ↦ (
      rest,
      later,
      inr (λ w. absurd (cc (other, (of_status-Asked q.status i.status).1 w.status)), ground arith),
    )
    | inl same ↦ elim (Option-cases (parse_time i.detected_at)) [
      | inl unparsed ↦ absurd (ground arith)
      | inr (time, at) ↦ elim (Bool-cases (skipped_by q.after time i.incident_id)) [
        | inl skipped ↦ (rest, later, inr (λ w. not_Wanted q i time at skipped w, ground arith))
        | inr kept ↦ (
          rest,
          later,
          inl (
            record {
              status = (of_status-Asked q.status i.status).0 same;
              time = time;
              at = at;
              after = (skipped_by-Follows q.after time i.incident_id).0 kept;
            },
            ground arith,
          ),
        )
      ]
    ]
  ]
]

pub matching-Wanted :
    (q : IncidentListQuery) (is found : List Incident)
    → matching q is ≡ ok found
    → All (Wanted q) found
unfolding matching
matching-Wanted q [] found h = let e : [] ≡ found = ground arith in subst (All (Wanted q)) e tt
matching-Wanted q (i ∷ is) found h =
    let (rest, later, choice) = matching-cons q i is found h in
    let tail = matching-Wanted q is rest later in
    elim choice [
      | inl (w, e) ↦ subst (All (Wanted q)) e (w, tail)
      | inr (unwanted, e) ↦ subst (All (Wanted q)) e tail
    ]

-- An incident that is not wanted, or is on a list.
abbrev pub Listed : IncidentListQuery → List Incident → Incident → Type 0
Listed q found i = (¬ Wanted q i) ⊎ Memᴰ i found

pub Listed-map :
    (q : IncidentListQuery) (xs ys is : List Incident)
    → ((i : Incident) → Memᴰ i xs → Memᴰ i ys)
    → All (Listed q xs) is
    → All (Listed q ys) is
Listed-map q xs ys [] f all = tt
Listed-map q xs ys (i ∷ is) f (inl unwanted, all) = (inl unwanted, Listed-map q xs ys is f all)
Listed-map q xs ys (i ∷ is) f (inr there, all) = (inr (f i there), Listed-map q xs ys is f all)

pub matching-Listed :
    (q : IncidentListQuery) (is found : List Incident)
    → matching q is ≡ ok found
    → All (Listed q found) is
matching-Listed q [] found h = tt
matching-Listed q (i ∷ is) found h =
    let (rest, later, choice) = matching-cons q i is found h in
    let tail = matching-Listed q is rest later in
    elim choice [
      | inl (w, e) ↦
          subst (λ xs. All (Listed q xs) (i ∷ is)) e
            (inr (Memᴰ.head refl), Listed-map q rest (i ∷ rest) is (λ j m. Memᴰ.tail m) tail)
      | inr (unwanted, e) ↦ (inl unwanted, subst (λ xs. All (Listed q xs) is) e tail)
    ]
