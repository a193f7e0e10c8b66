-- ===== src/Capture/Unique.antt =====
-- internal/capture: the events that recorders emit through one generator of ids.
use Prim.Native.Nat.{◌^◌}
use text.Mathlib.TextLemmas.{append_assoc, append_cancel_right}
use clausa_lens.Prelude.{
  ℕ, suc, ◌+◌, ◌≤◌, ◌<◌, String, false, some, List, [], ◌∷◌, ◌++◌, All, ◌≡◌, refl, sym, ap, ◌∙◌,
  arith, ℤ, pos, ◌<ℤ◌, ok, ◌==◌, string_eq, ◌+++◌, decimal_text, number_at_end,
  number_at_end-decimal_text, lookup-insert, Bool-cases, Result-cases, inl, inr, if◌then◌else◌,
}
use clausa_lens.Contracts.Event.{ExecutionEvent, validate_event}
use clausa_lens.Contracts.Graph.{seen_text, Distinct}
use clausa_lens.Checkout.Oracle.{ids_of}
use clausa_lens.Capture.Ids.{IdGenerator, new_ids, next_event_id, event_id_text, next_checkout_seq}
use clausa_lens.Capture.Recorder.{
  Recorder, RecordInput, record_event, recorded_event, emit_in_memory, sequence_of, sequence_key,
  next_sequence,
}

number_at_end-event_id :
    (component : String) (n : ℕ) → number_at_end (event_id_text component n) ≡ n
number_at_end-event_id component n =
    ap number_at_end (sym (append_assoc "evt-" component ("-" +++ decimal_text n)))
    ∙ number_at_end-decimal_text ("evt-" +++ component) n

-- The numbers of the ids rise, from above the first bound to the second.
abbrev Rising : ℕ → ℕ → List ExecutionEvent → Type 0
Rising low high [] = low ≤ high
Rising low high (e ∷ es) =
    (low < number_at_end e.event_id) × Rising (number_at_end e.event_id) high es

Rising-concat :
    (low high n : ℕ) (es : List ExecutionEvent) (e : ExecutionEvent)
    → Rising low high es
    → number_at_end e.event_id ≡ n
    → high < n
    → Rising low n (es ++ e ∷ [])
Rising-concat low high n [] e r is h = (omega arith, omega arith)
Rising-concat low high n (x ∷ es) e r is h =
    (r.0, Rising-concat (number_at_end x.event_id) high n es e r.1 is h)

Rising-unseen :
    (low high : ℕ) (es : List ExecutionEvent) (id : String)
    → Rising low high es
    → number_at_end id ≤ low
    → seen_text id (ids_of es) ≡ false
Rising-unseen low high [] id r h = refl
Rising-unseen low high (e ∷ es) id r h = elim (Bool-cases (id == e.event_id)) [
  | inl same ↦
      absurd (omega (arith, r.0, ap number_at_end ((string_eq.beq_iff id e.event_id).0 same)))
  | inr other ↦
      rw other (Rising-unseen (number_at_end e.event_id) high es id r.1 (omega (arith, r.0)))
]

Rising-Distinct :
    (low high : ℕ) (es : List ExecutionEvent) → Rising low high es → Distinct (ids_of es)
Rising-Distinct low high [] r = tt
Rising-Distinct low high (e ∷ es) r = (
  Rising-unseen (number_at_end e.event_id) high es e.event_id r.1 (omega arith),
  Rising-Distinct (number_at_end e.event_id) high es r.1,
)

-- A call of `Record`, with the event that it emits to the sink in memory, if any.
data Emits (g : IdGenerator) (es : List ExecutionEvent)
    : IdGenerator → List ExecutionEvent → Type 0 where
  nothing : (g' : IdGenerator) → g.event_seq ≤ g'.event_seq → Emits g es g' es
  event :
      (g' : IdGenerator) (e : ExecutionEvent)
      → g.event_seq < g'.event_seq
      → number_at_end e.event_id ≡ g'.event_seq
      → validate_event e ≡ ok tt
      → Emits g es g' (es ++ e ∷ [])

record_event-Emits :
    (now : String) (x : RecordInput) (r : Recorder) (g : IdGenerator) (es : List ExecutionEvent)
    → g.event_seq + 1 < 2 ^ 64
    → let w = record_event (some emit_in_memory) now x r g es in Emits g es w.ids w.sink
unfolding record_event next_sequence next_event_id recorded_event emit_in_memory
record_event-Emits now x r g es room = elim (Bool-cases (x.attempt <ℤ pos 1)) [
  | inl low ↦ rw low (nothing g (omega arith))
  | inr enough ↦
      let (g', id) = next_event_id r.component.name g in
      let e = recorded_event now r.component id (next_sequence x.execution_id r).1 x in
      elim (Result-cases (validate_event e)) [
        | inr (m, bad) ↦ rw (enough, bad) (nothing g' (omega arith))
        | inl (u, good) ↦
            rw (enough, good)
              (event g' e (omega arith) (number_at_end-event_id r.component.name g'.event_seq) good)
      ]
]

-- What a process may have emitted to the sink in memory since it made its generator: any recorders
-- record, checkout numbers are taken, and the generator is not reset.
pub data Captured : IdGenerator → List ExecutionEvent → Type 0 where
  created : (seed : ℤ) → Captured (new_ids seed) []
  numbered :
      {g : IdGenerator} {es : List ExecutionEvent}
      → Captured g es
      → Captured (next_checkout_seq g).0 es
  recorded :
      {g : IdGenerator} {es : List ExecutionEvent}
      → Captured g es
      → (now : String) (x : RecordInput) (r : Recorder) → g.event_seq + 1 < 2 ^ 64
      → Captured
          (record_event (some emit_in_memory) now x r g es).ids
          (record_event (some emit_in_memory) now x r g es).sink

abbrev pub Valid : List ExecutionEvent → Type 0
Valid es = All (λ (e : ExecutionEvent). validate_event e ≡ ok tt) es

Valid-concat :
    (es : List ExecutionEvent) (e : ExecutionEvent)
    → Valid es
    → validate_event e ≡ ok tt
    → Valid (es ++ e ∷ [])
Valid-concat [] e v h = (h, tt)
Valid-concat (x ∷ es) e v h = (v.0, Valid-concat es e v.1 h)

Rising-le :
    (low high high' : ℕ) (es : List ExecutionEvent)
    → Rising low high es
    → high ≤ high'
    → Rising low high' es
Rising-le low high high' [] r h = omega arith
Rising-le low high high' (e ∷ es) r h =
    (r.0, Rising-le (number_at_end e.event_id) high high' es r.1 h)

Emits-Rising :
    {g g' : IdGenerator} {es es' : List ExecutionEvent}
    → Emits g es g' es'
    → Rising 0 g.event_seq es × Valid es
    → Rising 0 g'.event_seq es' × Valid es'
Emits-Rising {g} {es = es} (nothing g' h) (r, v) = (Rising-le 0 g.event_seq g'.event_seq es r h, v)
Emits-Rising {g} {es = es} (event g' e h is good) (r, v) =
    (Rising-concat 0 g.event_seq g'.event_seq es e r is h, Valid-concat es e v good)

Captured-Rising :
    {g : IdGenerator} {es : List ExecutionEvent}
    → Captured g es
    → Rising 0 g.event_seq es × Valid es
unfolding new_ids next_checkout_seq
Captured-Rising (created seed) = (omega arith, tt)
Captured-Rising (numbered c) = Captured-Rising c
Captured-Rising (recorded {g} {es} c now x r room) =
    Emits-Rising (record_event-Emits now x r g es room) (Captured-Rising c)

-- Whatever recorders share a generator of ids that is not reset, and whatever they record, fewer than
-- 2 ^ 64 events, the events that have arrived at the sink in memory are valid and no two have one id.
pub Captured-Distinct :
    {g : IdGenerator} {es : List ExecutionEvent} → Captured g es → Distinct (ids_of es) × Valid es
Captured-Distinct {g} {es} c =
    (Rising-Distinct 0 g.event_seq es (Captured-Rising c).0, (Captured-Rising c).1)

-- Executions of one recorder have keys of their own.
sequence_key-injective : (a b : String) (r : Recorder) → sequence_key a r ≡ sequence_key b r → a ≡ b
unfolding sequence_key
sequence_key-injective a b r h = append_cancel_right a b ("|" +++ r.component.replica) h

next_sequence-sequence_of :
    (id execution : String) (r : Recorder)
    → sequence_of execution (next_sequence id r).0
      ≡ (if id == execution then suc (sequence_of id r) else sequence_of execution r)
unfolding next_sequence sequence_of sequence_key
next_sequence-sequence_of id execution r = ground (
  arith,
  lookup-insert (sequence_key id r) (sequence_key execution r) (suc (sequence_of id r)) r.seq,
  string_eq.beq_iff (sequence_key id r) (sequence_key execution r),
  string_eq.beq_iff id execution,
  sequence_key-injective id execution r,
)

-- `Record` with an attempt of 1 or more takes the next sequence number of its execution, also where it
-- fails, and leaves those of the recorder's other executions.
pub record_event-sequence :
    (now : String) (x : RecordInput) (r : Recorder) (g : IdGenerator) (es : List ExecutionEvent)
    (execution : String)
    → (x.attempt <ℤ pos 1) ≡ false
    → sequence_of execution (record_event (some emit_in_memory) now x r g es).recorder ≡ (
        if x.execution_id == execution
        then suc (sequence_of x.execution_id r)
        else sequence_of execution r)
unfolding record_event
record_event-sequence now x r g es execution enough =
    let e =
      recorded_event now r.component (next_event_id r.component.name g).1
        (next_sequence x.execution_id r).1 x in
    elim (Result-cases (validate_event e)) [
      | inl (u, good) ↦ rw (enough, good) (next_sequence-sequence_of x.execution_id execution r)
      | inr (m, bad) ↦ rw (enough, bad) (next_sequence-sequence_of x.execution_id execution r)
    ]
