-- ===== src/Checkout/Alignment.antt =====
-- internal/systempack/checkout/compare.go: what `Align` accounts for.
use mathlib.Core.List.{Memᴰ}
use clausa_lens.Prelude.{
  ℕ, zero, suc, ◌+◌, Option, none, some, List, [], ◌∷◌, length, All, get_elem?, ◌==◌, string_eq,
  ◌≡◌, refl, sym, ap, arith, eq_sound, Bool-cases, ◌⊎◌, inl, inr,
}
use clausa_lens.Contracts.EventEnums.{event_status_eq}
use clausa_lens.Contracts.Event.{ExecutionEvent}
use clausa_lens.Contracts.Diff.{EventAlignment}
use clausa_lens.Checkout.Align.{
  AlignKey, align_key_eq, key_of, events_of_key, consumed, Alignment, align_event, consume,
  align_baseline, align,
}

counts_align_event :
    (b : ExecutionEvent) (c : Option ExecutionEvent) (rest : Alignment)
    → length (align_event b c rest).matched + length (align_event b c rest).removed
      ≡ suc (length rest.matched + length rest.removed)
unfolding align_event
counts_align_event b none rest = omega arith
counts_align_event b (some c) rest = omega arith

counts_align_baseline :
    (comparison : List ExecutionEvent) (keys : List AlignKey) (bs : List ExecutionEvent)
    → length (align_baseline comparison keys bs).matched
        + length (align_baseline comparison keys bs).removed
      ≡ length bs
unfolding align_baseline
counts_align_baseline comparison keys [] = omega arith
counts_align_baseline comparison keys (b ∷ bs) =
    let candidate = get_elem? (events_of_key (key_of b) comparison) (consumed (key_of b) keys) in
    let later = consume (key_of b) candidate keys in
    omega (
      arith,
      counts_align_event b candidate (align_baseline comparison later bs),
      counts_align_baseline comparison later bs,
    )

-- Each event of the baseline is either matched or removed.
align-counts :
    (baseline comparison : List ExecutionEvent)
    → length (align baseline comparison).matched + length (align baseline comparison).removed
      ≡ length baseline
unfolding align
align-counts baseline comparison = counts_align_baseline comparison [] baseline

-- A matched pair: one event of each list, which agree in five fields.
pub record Paired (baseline comparison : List ExecutionEvent) (m : EventAlignment) : Type 0 where
  pub left : ExecutionEvent
  pub right : ExecutionEvent
  pub from : Memᴰ left baseline
  pub to : Memᴰ right comparison
  pub component : left.component.name ≡ right.component.name
  pub operation : left.operation.name ≡ right.operation.name
  pub event_type : left.event_type ≡ right.event_type
  pub logical_op : left.logical_operation_id ≡ right.logical_operation_id
  pub attempt : left.attempt ≡ right.attempt
  pub left_id : m.baseline_event_id ≡ left.event_id
  pub right_id : m.comparison_event_id ≡ right.event_id

found_first :
    (x : ExecutionEvent) (es : List ExecutionEvent) (i : ℕ) (c : ExecutionEvent)
    → get_elem? (x ∷ es) i ≡ some c
    → (c ≡ x) ⊎ ((j : ℕ) × (get_elem? es j ≡ some c))
found_first x es zero c h = inl (ground arith)
found_first x es (suc i) c h = inr (i, h)

-- A candidate is an event of the comparison, under the key that was asked for.
events_of_key-mem :
    (k : AlignKey) (es : List ExecutionEvent) (i : ℕ) (c : ExecutionEvent)
    → get_elem? (events_of_key k es) i ≡ some c
    → Memᴰ c es × (key_of c ≡ k)
unfolding events_of_key
events_of_key-mem k [] i c h = absurd (cc h)
events_of_key-mem k (e ∷ es) i c h = elim (Bool-cases (key_of e == k)) [
  | inl same ↦ elim (found_first e (events_of_key k es) i c (rw same at h)) [
    | inl is ↦ rw is (Memᴰ.head refl, eq_sound (key_of e) k same)
    | inr (j, later) ↦ let (there, key) = events_of_key-mem k es j c later in (Memᴰ.tail there, key)
  ]
  | inr other ↦
      let (there, key) = events_of_key-mem k es i c (rw other at h) in (Memᴰ.tail there, key)
]

pairs_align_event :
    (baseline comparison : List ExecutionEvent) (b : ExecutionEvent)
    (candidate : Option ExecutionEvent) (rest : Alignment)
    → Memᴰ b baseline
    → ((c : ExecutionEvent) → candidate ≡ some c → Memᴰ c comparison × (key_of c ≡ key_of b))
    → All (Paired baseline comparison) rest.matched
    → All (Paired baseline comparison) (align_event b candidate rest).matched
unfolding align_event key_of
pairs_align_event baseline comparison b none rest m f all = all
pairs_align_event baseline comparison b (some c) rest m f all =
    let (there, key) = f c refl in
    (
      record {
        left = b;
        right = c;
        from = m;
        to = there;
        component = sym (ap (λ (k : AlignKey). k.component) key);
        operation = sym (ap (λ (k : AlignKey). k.operation) key);
        event_type = sym (ap (λ (k : AlignKey). k.event_type) key);
        logical_op = sym (ap (λ (k : AlignKey). k.logical_op) key);
        attempt = sym (ap (λ (k : AlignKey). k.attempt) key);
        left_id = refl;
        right_id = refl;
      },
      all,
    )

pairs_align_baseline :
    (baseline comparison : List ExecutionEvent) (keys : List AlignKey) (bs : List ExecutionEvent)
    → ((x : ExecutionEvent) → Memᴰ x bs → Memᴰ x baseline)
    → All (Paired baseline comparison) (align_baseline comparison keys bs).matched
unfolding align_baseline
pairs_align_baseline baseline comparison keys [] inside = tt
pairs_align_baseline baseline comparison keys (b ∷ bs) inside =
    let k = key_of b in
    let candidate = get_elem? (events_of_key k comparison) (consumed k keys) in
    pairs_align_event baseline comparison b candidate _ (inside b (Memᴰ.head refl))
      (events_of_key-mem k comparison (consumed k keys))
      (pairs_align_baseline baseline comparison (consume k candidate keys) bs
        (λ x m. inside x (Memᴰ.tail m)))

-- Every matched pair is an event of the baseline and one of the comparison that agree.
pub align-Paired :
    (baseline comparison : List ExecutionEvent)
    → All (Paired baseline comparison) (align baseline comparison).matched
unfolding align
align-Paired baseline comparison = pairs_align_baseline baseline comparison [] baseline (λ x m. m)
