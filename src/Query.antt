-- ===== src/Query.antt =====
-- crates/neo4r-query/src/result.rs: what a query returns. A row holds its values by name.
pub mod Cursor
use neo4r.Core.Model.{Value, Node, Relationship}
use neo4r.Core.Shard.{BoundaryNode}
use neo4r.Prelude.{List, String}

pub data QueryValue : Type 0 where
  node : Node → QueryValue
  boundary_node : BoundaryNode → QueryValue
  relationship : Relationship → QueryValue
  scalar : Value → QueryValue

abbrev pub QueryRow : Type 0
QueryRow = List (String × QueryValue)
