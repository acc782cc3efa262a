-- ===== src/Core/Errors.antt =====
-- crates/neo4r-core/src/error.rs: the errors of the graph state.
use neo4r.Prelude.{ℕ}

pub data GraphError : Type 0 where
  node_already_exists : ℕ → GraphError
  node_not_found : ℕ → GraphError
  relationship_already_exists : ℕ → GraphError
  relationship_not_found : ℕ → GraphError
  relationship_endpoint_not_found : ℕ → ℕ → GraphError
