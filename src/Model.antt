-- ===== src/Model.antt =====
-- The data model that the components share: JSON values and the names of entity types, relation
-- kinds and event types (src/model/types.js).
pub mod Value
pub mod EntityType
pub mod RelKind
pub mod Template
