-- ===== src/Checkout/Itself.antt =====
-- internal/systempack/checkout/compare.go: `Align` of events with themselves.
use clausa_lens.Prelude.{
  String, true, some, List, [], ◌∷◌, ◌++◌, length, All, get_elem?, string_eq, ◌≡◌, refl, ap, ◌∙◌,
  arith, eq_refl, length-append,
}
use clausa_lens.Contracts.EventEnums.{event_status_eq}
use clausa_lens.Contracts.Event.{ExecutionEvent}
use clausa_lens.Contracts.Diff.{EventAlignment}
use clausa_lens.Contracts.Graph.{seen_text}
use clausa_lens.Checkout.Align.{
  AlignKey, align_key_eq, key_of, events_of_key, consumed, align_event, align_baseline, unused,
  align,
}

-- The alignment of events with themselves.
abbrev pub itself : List ExecutionEvent → List EventAlignment
itself [] = []
itself (e ∷ es) =
    record { baseline_event_id = e.event_id; comparison_event_id = e.event_id } ∷ itself es

abbrev pub event_ids : List ExecutionEvent → List String
event_ids [] = []
event_ids (e ∷ es) = e.event_id ∷ event_ids es

-- `consumed` counts, for each key, the events before.
Consumed : List AlignKey → List ExecutionEvent → Type 0
Consumed keys before = (k : AlignKey) → consumed k keys ≡ length (events_of_key k before)

events_of_key-append :
    (k : AlignKey) (xs ys : List ExecutionEvent)
    → events_of_key k (xs ++ ys) ≡ events_of_key k xs ++ events_of_key k ys
unfolding events_of_key
events_of_key-append k [] ys = refl
events_of_key-append k (x ∷ xs) ys = ground (arith, events_of_key-append k xs ys)

get_elem?-append :
    {A : Type 0} (xs : List A) (y : A) (ys : List A) → get_elem? (xs ++ y ∷ ys) (length xs) ≡ some y
get_elem?-append [] y ys = refl
get_elem?-append (x ∷ xs) y ys = get_elem?-append xs y ys

candidate_itself :
    (keys : List AlignKey) (before : List ExecutionEvent) (b : ExecutionEvent)
    (bs : List ExecutionEvent)
    → Consumed keys before
    → get_elem? (events_of_key (key_of b) (before ++ b ∷ bs)) (consumed (key_of b) keys) ≡ some b
unfolding Consumed events_of_key
candidate_itself keys before b bs count =
    rw (count (key_of b), events_of_key-append (key_of b) before (b ∷ bs), eq_refl (key_of b))
      (get_elem?-append (events_of_key (key_of b) before) b (events_of_key (key_of b) bs))

Consumed-next :
    (keys : List AlignKey) (before : List ExecutionEvent) (b : ExecutionEvent)
    → Consumed keys before
    → Consumed (key_of b ∷ keys) (before ++ b ∷ [])
unfolding Consumed consumed events_of_key
Consumed-next keys before b count k = ground (
  arith,
  count k,
  ap length (events_of_key-append k before (b ∷ [])),
  length-append (events_of_key k before) (events_of_key k (b ∷ [])),
)

append_assoc :
    (before : List ExecutionEvent) (b : ExecutionEvent) (bs : List ExecutionEvent)
    → (before ++ b ∷ []) ++ bs ≡ before ++ b ∷ bs
append_assoc [] b bs = refl
append_assoc (x ∷ xs) b bs = ap (λ ys. x ∷ ys) (append_assoc xs b bs)

align_event-itself :
    (b : ExecutionEvent) (bs : List ExecutionEvent)
    → align_event b
        (some b)
        (record { matched = itself bs; removed = []; changed = []; used = event_ids bs })
      ≡ record { matched = itself (b ∷ bs); removed = []; changed = []; used = event_ids (b ∷ bs) }
unfolding align_event
align_event-itself b bs = rw (eq_refl b.status) refl

align_baseline-itself :
    (events : List ExecutionEvent) (keys : List AlignKey) (before bs : List ExecutionEvent)
    → Consumed keys before
    → before ++ bs ≡ events
    → align_baseline events keys bs
      ≡ record { matched = itself bs; removed = []; changed = []; used = event_ids bs }
unfolding align_baseline
align_baseline-itself events keys before [] count all = refl
align_baseline-itself events keys before (b ∷ bs) count all =
    let found = rw all at (candidate_itself keys before b bs count) in
    rw
      (
        found,
        align_baseline-itself events (key_of b ∷ keys) (before ++ b ∷ []) bs
            (Consumed-next keys before b count) (append_assoc before b bs ∙ all),
      )
      (align_event-itself b bs)

unused_none :
    (used : List String) (cs : List ExecutionEvent)
    → All (λ (c : ExecutionEvent). seen_text c.event_id used ≡ true) cs
    → unused used cs ≡ []
unfolding unused
unused_none used [] s = refl
unused_none used (c ∷ cs) (now, later) = rw (now, unused_none used cs later)

seen_more :
    (id : String) (used : List String) (cs : List ExecutionEvent)
    → All (λ (c : ExecutionEvent). seen_text c.event_id used ≡ true) cs
    → All (λ (c : ExecutionEvent). seen_text c.event_id (id ∷ used) ≡ true) cs
seen_more id used [] s = tt
seen_more id used (c ∷ cs) (now, later) = (ground arith, seen_more id used cs later)

seen_itself :
    (cs : List ExecutionEvent)
    → All (λ (c : ExecutionEvent). seen_text c.event_id (event_ids cs) ≡ true) cs
seen_itself [] = tt
seen_itself (c ∷ cs) =
    (rw (eq_refl c.event_id) refl, seen_more c.event_id (event_ids cs) cs (seen_itself cs))

-- Aligned with itself, a list of events has every event matched with itself, in order, and nothing
-- added, removed or changed.
pub align-itself :
    (events : List ExecutionEvent)
    → align events events
      ≡ record { matched = itself events; added = []; removed = []; changed = [] }
unfolding align Consumed consumed events_of_key
align-itself events =
    let same = align_baseline-itself events [] [] events (λ k. refl) refl in
    rw (same, unused_none (event_ids events) events (seen_itself events))
