-- ===== src/Graph.antt =====
-- The graph of entities and edges: the in-memory store (src/graph/inmemory.js) and the path search
-- that every store inherits (src/graph/store.js).
pub mod InMemory
pub mod Index
pub mod Links
pub mod Upsert
pub mod Keeps
mod Tests
pub mod Neighbors
pub mod Paths
