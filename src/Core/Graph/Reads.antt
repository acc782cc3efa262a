-- ===== src/Core/Graph/Reads.antt =====
-- crates/neo4r-core/src/graph.rs: the reads of the graph, which the `GraphRead` trait of
-- crates/neo4r-core/src/read.rs passes on, and the allocation of ids.
use neo4r.Core.Model.{Value, Relationship}
use neo4r.Core.Errors.{GraphError}
use neo4r.Core.Index.{property_key_of, type_key, label_property_eq, relationship_type_eq}
use neo4r.Core.Graph.{GraphState, ensure_node_exists}
use neo4r.Prelude.Equality.{Eq, nat_eq, string_eq}
use neo4r.Prelude.HashMap
use neo4r.Prelude.HashMap.{HashMap}
use neo4r.Prelude.IdSet.{IdSet}
use neo4r.Prelude.{
  List, Option, Result, String, [], err, filter_map, length, map, none, ok, some, sort_ids, ℕ, ◌%◌,
  ◌+◌, ◌^◌,
}

-- `self.next_node_id += 1`, which wraps around in a release build
unfoldable pub allocate_node_id : GraphState → ℕ × GraphState
allocate_node_id g = (g.next_node_id, record g { next_node_id = (g.next_node_id + 1) % 2 ^ 64 })

unfoldable pub allocate_relationship_id : GraphState → ℕ × GraphState
allocate_relationship_id g = (
  g.next_relationship_id,
  record g { next_relationship_id = (g.next_relationship_id + 1) % 2 ^ 64 },
)

unfoldable pub sorted_ids : Option IdSet → List ℕ
sorted_ids ids = sort_ids (elim ids [ none ↦ [] | some s ↦ s ])

unfoldable pub node_ids : GraphState → List ℕ
node_ids g = sort_ids (map (λ entry. entry.0) g.nodes)

unfoldable pub node_ids_by_label : GraphState → String → List ℕ
unfolding sorted_ids
node_ids_by_label g label = sorted_ids (HashMap.get g.indexes.label_nodes label)

unfoldable pub node_ids_by_label_property : GraphState → String → String → Value → List ℕ
unfolding sorted_ids
node_ids_by_label_property g label key value =
    sorted_ids (HashMap.get g.indexes.label_property_nodes (property_key_of label (key, value)))

unfoldable pub boundary_node_ids_by_label_property : GraphState → String → String → Value → List ℕ
unfolding sorted_ids
boundary_node_ids_by_label_property g label key value =
    sorted_ids
      (HashMap.get g.indexes.boundary_label_property_nodes (property_key_of label (key, value)))

-- The relationships behind the ids that a map lists under a key.
unfoldable pub listed :
    {K : Type 0} ⦃e : Eq K⦄ → GraphState → HashMap K (List ℕ) → K → List Relationship
listed g m key = elim (HashMap.get m key) [
  | none ↦ []
  | some ids ↦ filter_map (HashMap.get g.relationships) ids
]

abbrev pub read_at : GraphState → ℕ → List Relationship → Result GraphError (List Relationship)
read_at g id found = elim (ensure_node_exists id g) [ ok _ ↦ ok found | err e ↦ err e ]

unfoldable pub outgoing : GraphState → ℕ → Result GraphError (List Relationship)
outgoing g id = read_at g id (listed g g.outgoing id)

unfoldable pub outgoing_by_type : GraphState → ℕ → String → Result GraphError (List Relationship)
outgoing_by_type g id rel_type =
    read_at g id (listed g g.indexes.outgoing_by_type (type_key id rel_type))

unfoldable pub incoming : GraphState → ℕ → Result GraphError (List Relationship)
incoming g id = read_at g id (listed g g.incoming id)

unfoldable pub incoming_by_type : GraphState → ℕ → String → Result GraphError (List Relationship)
incoming_by_type g id rel_type =
    read_at g id (listed g g.indexes.incoming_by_type (type_key id rel_type))

abbrev pub node_count : GraphState → ℕ
node_count g = length g.nodes

abbrev pub boundary_node_count : GraphState → ℕ
boundary_node_count g = length g.boundary_nodes

abbrev pub relationship_count : GraphState → ℕ
relationship_count g = length g.relationships
