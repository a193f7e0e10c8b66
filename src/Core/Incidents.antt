-- ===== src/Core/Incidents.antt =====
-- internal/core/store.go: incidents with their graphs, their detail and their pages.
-- The text of a page's cursor is read as the cursor that it encodes; `bad_cursor` is a text that
-- `decodeCursor` refuses.
use clausa_lens.Prelude.{
  ℕ, zero, suc, ◌-◌, String, Bool, true, false, ◌&&◌, ◌||◌, not, Option, none, some, List, [], ◌∷◌,
  length, take, get_elem?, ◌==◌, ◌!=◌, string_eq, nat_eq, ℤ, pos, negsuc, Result, ok, err, reject,
  ◌>>◌, ◌>>=◌, or_fail, Dict, insert, lookup, has, values, sort_by, is_err, ltb, leb, nat_beq,
  if◌then◌else◌,
}
use clausa_lens.Contracts.IncidentEnums.{IncidentStatus, incident_status_eq}
use clausa_lens.Contracts.Time.{parse_time}
use clausa_lens.Contracts.Event.{ExecutionEvent}
use clausa_lens.Contracts.Incident.{Incident, validate_incident}
use clausa_lens.Contracts.Graph.{GraphNode, ExecutionGraph, validate_graph, seen_text, node_ids}
use clausa_lens.Graph.Order.{order}
use clausa_lens.Graph.Build.{text_less}
use clausa_lens.Core.Store.{Store, StoreError, internal, conflict, not_found}

abbrev of_incident : Incident → Option ExecutionEvent → Result StoreError ExecutionEvent
of_incident i none = err internal
of_incident i (some e) =
    if e.execution_id != i.execution_id || e.trace_id != i.trace_id then err internal else ok e

-- The loop over the nodes, which looks each event up.
unfoldable pub referenced_events :
    Incident → Dict ExecutionEvent → List GraphNode → Result StoreError (List ExecutionEvent)
referenced_events i events [] = ok []
referenced_events i events (n ∷ ns) = of_incident i (lookup n.event_id events) >>= λ e.
    referenced_events i events ns >>= λ es. ok (e ∷ es)

unfoldable pub check_references : List String → List String → Result StoreError (Unit {0})
check_references nodes [] = ok tt
check_references nodes (id ∷ ids) =
    reject (not (seen_text id nodes)) internal >> check_references nodes ids

unfoldable pub put_incident : Bool → Incident → ExecutionGraph → Store → Result StoreError Store
put_incident ctx i g s = do
  reject ctx internal
  or_fail (validate_incident i) internal
  reject (is_err (validate_graph g) || g.incident_id != i.incident_id || i.graph_id != g.graph_id)
      internal
  reject (has i.incident_id s.incidents) conflict
  reject (has g.graph_id s.graphs) conflict
  referenced ← referenced_events i s.events g.nodes
  check_references (node_ids g.nodes) i.evidence_event_ids
  ordered ← or_fail (order referenced g) internal
  ok (record s {
    incidents = insert i.incident_id i s.incidents;
    graphs = insert g.graph_id g s.graphs;
  })

pub record IncidentDetail : Type 0 where
  pub incident : Incident
  pub graph : ExecutionGraph
  pub events : List ExecutionEvent

abbrev found : {A : Type 0} → Option A → StoreError → Result StoreError A
found none e = err e
found (some a) e = ok a

unfoldable pub node_events :
    Dict ExecutionEvent → List GraphNode → Result StoreError (List ExecutionEvent)
node_events events [] = ok []
node_events events (n ∷ ns) =
    found (lookup n.event_id events) internal >>= λ e. node_events events ns >>= λ es. ok (e ∷ es)

unfoldable pub get_incident_detail : Bool → String → Store → Result StoreError IncidentDetail
get_incident_detail ctx id s = do
  reject ctx internal
  i ← found (lookup id s.incidents) not_found
  g ← found (lookup i.graph_id s.graphs) internal
  reject (g.incident_id != i.incident_id) internal
  events ← node_events s.events g.nodes
  ordered ← or_fail (order events g) internal
  ok (record { incident = i; graph = g; events = ordered })

pub record Cursor : Type 0 where
  pub detected_at : ℕ
  pub incident_id : String

pub data CursorText : Type 0 where
  no_cursor bad_cursor : CursorText
  cursor : Cursor → CursorText

-- An absent status is `none`.
pub record IncidentListQuery : Type 0 where
  pub status : Option IncidentStatus
  pub after : CursorText
  pub limit : Option ℤ

pub record IncidentPage : Type 0 where
  pub items : List Incident
  pub next_cursor : Option Cursor

abbrev pub of_status : Option IncidentStatus → IncidentStatus → Bool
of_status none status = true
of_status (some wanted) status = status == wanted

-- Whether the cursor skips an incident: it is not strictly older than the cursor.
abbrev pub skipped_by : CursorText → ℕ → String → Bool
skipped_by (cursor c) detected id =
    ltb c.detected_at detected
    || (nat_beq detected c.detected_at && not (text_less id c.incident_id))
skipped_by _ detected id = false

abbrev pub listed : Option ℕ → Incident → IncidentListQuery → Result StoreError Bool
listed none i q = err internal
listed (some detected) i q = ok (not (skipped_by q.after detected i.incident_id))

-- The loop over the incidents, with its `continue`s.
unfoldable pub matching : IncidentListQuery → List Incident → Result StoreError (List Incident)
matching q [] = ok []
matching q (i ∷ is) =
    let rest = matching q is in
    if of_status q.status i.status
    then (do
      wanted ← listed (parse_time i.detected_at) i q
      items ← rest
      ok (if wanted then i ∷ items else items))
    else rest

abbrev time_or_zero : Option ℕ → ℕ
time_or_zero none = 0
time_or_zero (some t) = t

unfoldable pub detected_time : Incident → ℕ
detected_time i = time_or_zero (parse_time i.detected_at)

-- Newest first, and of one time the greater id first.
unfoldable pub newer : Incident → Incident → Bool
unfolding detected_time
newer a b =
    if nat_beq (detected_time a) (detected_time b)
    then text_less b.incident_id a.incident_id
    else ltb (detected_time b) (detected_time a)

abbrev cursor_of : Option Incident → Option Cursor
cursor_of none = none
cursor_of (some i) = some (record { detected_at = detected_time i; incident_id = i.incident_id })

unfoldable pub page_of : ℕ → List Incident → IncidentPage
page_of limit items =
    if ltb limit (length items)
    then record { items = take limit items; next_cursor = cursor_of (get_elem? items (limit - 1)) }
    else record { items = items; next_cursor = none }

abbrev pub limit_of : Option ℤ → ℤ
limit_of none = pos 20
limit_of (some n) = n

abbrev pub page_size : ℤ → Result StoreError ℕ
page_size (pos zero) = err conflict
page_size (pos (suc n)) = if leb n 99 then ok (suc n) else err conflict
page_size (negsuc n) = err conflict

abbrev check_cursor : CursorText → Result StoreError (Unit {0})
check_cursor bad_cursor = err conflict
check_cursor _ = ok tt

unfoldable pub list_incidents : Bool → IncidentListQuery → Store → Result StoreError IncidentPage
list_incidents ctx q s = do
  reject ctx internal
  limit ← page_size (limit_of q.limit)
  check_cursor q.after
  items ← matching q (values s.incidents)
  ok (page_of limit (sort_by newer items))
