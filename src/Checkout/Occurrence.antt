-- ===== src/Checkout/Occurrence.antt =====
-- internal/systempack/checkout/compare.go: `Align` matches the n-th occurrence with the n-th.
use mathlib.Core.List.{Memᴰ}
use clausa_lens.Prelude.{
  String, ap, ◌∙◌, ℕ, zero, suc, ◌+◌, ◌≤◌, ◌<◌, Bool, ◌&&◌, Option, none, some, List, [], ◌∷◌, ◌++◌,
  length, select, All, get_elem?, ◌==◌, string_eq, int_eq, ◌≡◌, refl, arith, eq_sound, Bool-cases,
  Option-cases, ◌⊎◌, inl, inr, if◌then◌else◌, subst,
}
use clausa_lens.Contracts.EventEnums.{event_type_eq}
use clausa_lens.Contracts.Event.{ExecutionEvent}
use clausa_lens.Contracts.Diff.{EventAlignment}
use clausa_lens.Checkout.Align.{
  AlignKey, align_key_eq, key_of, events_of_key, consumed, Alignment, align_event, consume,
  align_baseline, align,
}
use clausa_lens.Checkout.Alignment.{Paired, align-Paired}

-- Two events agree in component, operation, event type, logical operation and attempt.
abbrev pub agree : ExecutionEvent → ExecutionEvent → Bool
agree e b =
    e.component.name == b.component.name
    && e.operation.name == b.operation.name
    && e.event_type == b.event_type
    && e.logical_operation_id == b.logical_operation_id
    && e.attempt == b.attempt

-- The events that agree with one, in their order.
abbrev pub like : ExecutionEvent → List ExecutionEvent → List ExecutionEvent
like b es = select (λ e. agree e b) es

abbrev pub pair : ExecutionEvent → ExecutionEvent → EventAlignment
pair b c = record { baseline_event_id = b.event_id; comparison_event_id = c.event_id }

-- What becomes of a baseline event, by its counterpart.
abbrev pub Answered :
    ExecutionEvent → Option ExecutionEvent → List EventAlignment → List String → Type 0
Answered b none matched removed = Memᴰ b.event_id removed
Answered b (some c) matched removed = Memᴰ (pair b c) matched

get_elem?-past : {A : Type 0} (xs : List A) (i : ℕ) → length xs ≤ i → get_elem? xs i ≡ none
get_elem?-past [] i h = refl
get_elem?-past (x ∷ xs) zero h = absurd (omega (arith, h))
get_elem?-past (x ∷ xs) (suc i) h = get_elem?-past xs i (omega arith)

get_elem?-none : {A : Type 0} (xs : List A) (i : ℕ) → get_elem? xs i ≡ none → length xs ≤ i
get_elem?-none [] i h = omega arith
get_elem?-none (x ∷ xs) zero h = absurd (cc h)
get_elem?-none (x ∷ xs) (suc i) h = omega (arith, get_elem?-none xs i h)

get_elem?-some :
    {A : Type 0} (xs : List A) (i : ℕ) (a : A) → get_elem? xs i ≡ some a → i < length xs
get_elem?-some [] i a h = absurd (cc h)
get_elem?-some (x ∷ xs) zero a h = omega arith
get_elem?-some (x ∷ xs) (suc i) a h = omega (arith, get_elem?-some xs i a h)

consumed-cons :
    (j k : AlignKey) (keys : List AlignKey)
    → consumed k (j ∷ keys) ≡ (if j == k then suc (consumed k keys) else consumed k keys)
unfolding consumed
consumed-cons j k keys = refl

module _ (comparison : List ExecutionEvent) where
  abbrev available : AlignKey → ℕ
  available k = length (events_of_key k comparison)

  -- What is consumed of a key is what has come of it, as long as there is any.
  abbrev Tracks : (AlignKey → ℕ) → List AlignKey → Type 0
  Tracks come keys =
      (k : AlignKey)
      → (consumed k keys ≡ come k) ⊎ ((available k ≤ consumed k keys) × (available k ≤ come k))

  abbrev one_more : AlignKey → (AlignKey → ℕ) → AlignKey → ℕ
  one_more j come k = if j == k then suc (come k) else come k

  exhausted :
      (come : AlignKey → ℕ) (keys : List AlignKey) (j : AlignKey)
      → Tracks come keys
      → get_elem? (events_of_key j comparison) (consumed j keys) ≡ none
      → (available j ≤ consumed j keys) × (available j ≤ suc (come j))
  exhausted come keys j tracks gone =
      let past = get_elem?-none (events_of_key j comparison) (consumed j keys) gone in
      (past, elim (tracks j) [ inl same ↦ omega arith | inr (used, over) ↦ omega arith ])

  in_step :
      (come : AlignKey → ℕ) (keys : List AlignKey) (j : AlignKey) (c : ExecutionEvent)
      → Tracks come keys
      → get_elem? (events_of_key j comparison) (consumed j keys) ≡ some c
      → consumed j keys ≡ come j
  in_step come keys j c tracks there = elim (tracks j) [
    | inl same ↦ same
    | inr (used, over) ↦
        absurd
          (omega (arith, get_elem?-some (events_of_key j comparison) (consumed j keys) c there))
  ]

  consume-Tracks :
      (come : AlignKey → ℕ) (keys : List AlignKey) (j : AlignKey)
      → Tracks come keys
      → Tracks
          (one_more j come)
          (consume j (get_elem? (events_of_key j comparison) (consumed j keys)) keys)
  consume-Tracks come keys j tracks k =
      elim (Option-cases (get_elem? (events_of_key j comparison) (consumed j keys))) [
        | inl gone ↦ rw gone (elim (Bool-cases (j == k)) [
          | inr other ↦ rw other (tracks k)
          | inl same ↦ rw same (inr (rw (eq_sound j k same) at (exhausted come keys j tracks gone)))
        ])
        | inr (c, there) ↦
            rw (there, consumed-cons j k keys)
              (elim (Bool-cases (j == k)) [
                | inr other ↦ rw other (tracks k)
                | inl same ↦
                    rw same (
                      inl (ap suc (rw (eq_sound j k same) at (in_step come keys j c tracks there))))
              ])
      ]

  same_candidate :
      (come : AlignKey → ℕ) (keys : List AlignKey) (k : AlignKey)
      → Tracks come keys
      → get_elem? (events_of_key k comparison) (consumed k keys)
        ≡ get_elem? (events_of_key k comparison) (come k)
  same_candidate come keys k tracks = elim (tracks k) [
    | inl same ↦ rw same refl
    | inr (used, over) ↦
        rw
          (
            get_elem?-past (events_of_key k comparison) (consumed k keys) used,
            get_elem?-past (events_of_key k comparison) (come k) over,
          )
          refl
  ]

  align_event-Answered :
      (b : ExecutionEvent) (c : Option ExecutionEvent) (rest : Alignment)
      → Answered b c (align_event b c rest).matched (align_event b c rest).removed
  unfolding align_event
  align_event-Answered b none rest = Memᴰ.head refl
  align_event-Answered b (some c) rest = Memᴰ.head refl

  align_event-keeps :
      (b x : ExecutionEvent) (c d : Option ExecutionEvent) (rest : Alignment)
      → Answered b c rest.matched rest.removed
      → Answered b c (align_event x d rest).matched (align_event x d rest).removed
  unfolding align_event
  align_event-keeps b x none none rest a = Memᴰ.tail a
  align_event-keeps b x none (some d) rest a = a
  align_event-keeps b x (some c) none rest a = a
  align_event-keeps b x (some c) (some d) rest a = Memᴰ.tail a

  come_nil : (come : AlignKey → ℕ) (k : AlignKey) → come k ≡ come k + length (events_of_key k [])
  unfolding events_of_key
  come_nil come k = omega arith

  come_cons :
      (x : ExecutionEvent) (pre : List ExecutionEvent) (come : AlignKey → ℕ) (k : AlignKey)
      → one_more (key_of x) come k + length (events_of_key k pre)
        ≡ come k + length (events_of_key k (x ∷ pre))
  unfolding events_of_key
  come_cons x pre come k = elim (Bool-cases (key_of x == k)) [
    | inl same ↦ rw same (omega arith)
    | inr other ↦ rw other refl
  ]

  align_baseline-Answered :
      (pre post : List ExecutionEvent) (b : ExecutionEvent) (come : AlignKey → ℕ)
      (keys : List AlignKey)
      → Tracks come keys
      → Answered b
          (get_elem?
            (events_of_key (key_of b) comparison)
            (come (key_of b) + length (events_of_key (key_of b) pre)))
          (align_baseline comparison keys (pre ++ b ∷ post)).matched
          (align_baseline comparison keys (pre ++ b ∷ post)).removed
  unfolding align_baseline
  align_baseline-Answered [] post b come keys tracks =
      let k = key_of b in
      let es = events_of_key k comparison in
      let rest = align_baseline comparison keys (b ∷ post) in
      subst (λ c. Answered b c rest.matched rest.removed)
        (same_candidate come keys k tracks ∙ ap (get_elem? es) (come_nil come k))
        (align_event-Answered b (get_elem? es (consumed k keys)) _)
  align_baseline-Answered (x ∷ pre) post b come keys tracks =
      let k = key_of b in
      let es = events_of_key k comparison in
      let j = key_of x in
      let candidate = get_elem? (events_of_key j comparison) (consumed j keys) in
      let rest = align_baseline comparison (consume j candidate keys) (pre ++ b ∷ post) in
      align_event-keeps b x _ candidate rest (
        subst (λ i. Answered b (get_elem? es i) rest.matched rest.removed) (come_cons x pre come k)
          (align_baseline-Answered pre post b (one_more j come) (consume j candidate keys)
            (consume-Tracks come keys j tracks)))

zero_add : (n : ℕ) → 0 + n ≡ n
zero_add n = omega arith

consumed-nil : (k : AlignKey) → consumed k [] ≡ 0
unfolding consumed
consumed-nil k = refl

-- `Align` goes by occurrences. Every matched pair is an event of the baseline and one of the comparison
-- that agree in component, operation, event type, logical operation and attempt; and an event of the
-- baseline with n events before it that agree with it is matched with the comparison's event that has
-- n such events before it, or is removed where there is none.
pub align-occurrence :
    (pre post comparison : List ExecutionEvent) (b : ExecutionEvent)
    → All (Paired (pre ++ b ∷ post) comparison) (align (pre ++ b ∷ post) comparison).matched
      × Answered b
          (get_elem? (like b comparison) (length (like b pre)))
          (align (pre ++ b ∷ post) comparison).matched
          (align (pre ++ b ∷ post) comparison).removed
unfolding align events_of_key key_of
align-occurrence pre post comparison b = (
  align-Paired (pre ++ b ∷ post) comparison,
  subst
      (λ i.
        Answered b (get_elem? (like b comparison) i) (align (pre ++ b ∷ post) comparison).matched
          (align (pre ++ b ∷ post) comparison).removed)
      (zero_add (length (like b pre)))
      (align_baseline-Answered comparison pre post b (λ k. 0) [] (λ k. inl (consumed-nil k))),
)
