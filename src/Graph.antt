-- ===== src/Graph.antt =====
-- internal/graph/graph.go: the order of events by an execution graph, the timeline indices, and the
-- search for a cycle.
pub mod Cycle
pub mod Walks
pub mod Acyclic
pub mod Cyclic
pub mod Search
pub mod Order
pub mod Build
pub mod Sequence
pub mod Degrees
pub mod Selected
pub mod Indices
