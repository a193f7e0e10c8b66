-- ===== src/Core/Pages.antt =====
-- internal/core/store.go: what `ListIncidents` puts on a page.
use clausa_lens.Prelude.{
  ◌⊎◌, string_eq, ℕ, zero, suc, ◌≤◌, Bool, List, length, All, ◌≡◌, arith, ok, ℤ, pos, negsuc, ltb,
  values, sort_by, Result-cases, Bool-cases, inl, inr,
}
use clausa_lens.Contracts.IncidentEnums.{incident_status_eq}
use clausa_lens.Contracts.Incident.{Incident}
use clausa_lens.Core.Store.{Store}
use clausa_lens.Core.Incidents.{
  IncidentListQuery, IncidentPage, limit_of, page_size, matching, newer, page_of, list_incidents,
}
use clausa_lens.Core.Ordered.{sort_by-Mem, sort_by-All, take-All, length-take, length-take-more}
use clausa_lens.Core.Query.{Wanted, Listed, Listed-map, matching-Wanted, matching-Listed}

page_of-length : (n : ℕ) (is : List Incident) → length (page_of n is).items ≤ n
unfolding page_of
page_of-length n is = ground (arith, length-take n is)

page_of-All :
    (P : Incident → Type 0) (n : ℕ) (is : List Incident) → All P is → All P (page_of n is).items
unfolding page_of
page_of-All P n is all = elim (Bool-cases (ltb n (length is))) [
  | inl more ↦ rw more (take-All P n is all)
  | inr fits ↦ rw fits all
]

-- A page is full, or has every wanted incident.
page_of-Listed :
    (q : IncidentListQuery) (n : ℕ) (sorted all : List Incident)
    → All (Listed q sorted) all
    → (length (page_of n sorted).items ≡ n) ⊎ All (Listed q (page_of n sorted).items) all
unfolding page_of
page_of-Listed q n sorted all listed = elim (Bool-cases (ltb n (length sorted))) [
  | inl more ↦ rw more (inl (length-take-more n sorted (ground arith)))
  | inr fits ↦ rw fits (inr listed)
]

page_size-bound :
    (asked : ℤ) (limit : ℕ) → page_size asked ≡ ok limit → (asked ≡ pos limit) × (limit ≤ 100)
page_size-bound (pos zero) limit h = absurd (cc h)
page_size-bound (pos (suc n)) limit h = ground arith
page_size-bound (negsuc n) limit h = absurd (cc h)

-- A page that `ListIncidents` returns has at most the query's limit of incidents, 20 where it gives
-- none, and never more than 100; each has the status that the query asks for and comes after its
-- cursor, which is to be strictly older than it, by the time of detection and then by the id. A page
-- that is not full leaves out no stored incident of that kind.
pub list_incidents-page :
    (ctx : Bool) (q : IncidentListQuery) (s : Store) (page : IncidentPage)
    → list_incidents ctx q s ≡ ok page
    → (limit : ℕ) × (limit_of q.limit ≡ pos limit)
      × (length page.items ≤ limit)
      × (limit ≤ 100)
      × All (Wanted q) page.items
      × ((length page.items ≡ limit) ⊎ All (Listed q page.items) (values s.incidents))
unfolding list_incidents
list_incidents-page ctx q s page h = elim (Result-cases (page_size (limit_of q.limit))) [
  | inr (e, fails) ↦ absurd (ground arith)
  | inl (limit, sized) ↦ elim (Result-cases (matching q (values s.incidents))) [
    | inr (e, fails) ↦ absurd (ground arith)
    | inl (found, matched) ↦
        let sorted = sort_by newer found in
        let is : page_of limit sorted ≡ page = ground arith in
        let wanted =
          sort_by-All (Wanted q) newer found
            (matching-Wanted q (values s.incidents) found matched) in
        let listed =
          Listed-map q found sorted (values s.incidents) (λ i m. sort_by-Mem newer i found m)
            (matching-Listed q (values s.incidents) found matched) in
        let (same, bound) = page_size-bound (limit_of q.limit) limit sized in
        rw (← is) (
          limit,
          same,
          page_of-length limit sorted,
          bound,
          page_of-All (Wanted q) limit sorted wanted,
          page_of-Listed q limit sorted (values s.incidents) listed,
        )
  ]
]
