-- ===== src/Core/Graph.antt =====
-- crates/neo4r-core/src/graph.rs: the graph of one shard and the commands that change it.
pub mod Reads
pub mod Tracking
pub mod Exactness
pub mod Lookup
pub mod Edges
pub mod Adjacency
pub mod Relations
pub mod Boundary
pub mod BoundaryLookup
pub mod ReadBack
mod Tests
use neo4r.Core.Model.{Value, Properties, Node, Relationship}
use neo4r.Core.Shard.{BoundaryNode}
use neo4r.Core.Command.{
  Command, create_node, create_relationship, upsert_boundary_node, set_node_property,
  remove_node_property, add_node_label, remove_node_label, set_relationship_property,
  remove_relationship_property, delete_relationship, delete_node, cluster_config_change,
}
use neo4r.Core.Errors.{
  GraphError, node_already_exists, node_not_found, relationship_already_exists,
  relationship_not_found, relationship_endpoint_not_found,
}
use neo4r.Core.Index.{
  GraphIndexes, push_relationship_id, remove_relationship_id, index_node, remove_node_index,
  index_boundary_node, remove_boundary_node_index, index_relationship, remove_relationship_index,
}
use neo4r.Prelude.Equality.{same, nat_eq, string_eq}
use neo4r.Prelude.HashMap
use neo4r.Prelude.HashMap.{HashMap}
use neo4r.Prelude.{
  Bool, List, Method, Result, String, [], and_then, any, dedup, err, false, if◌then◌else◌, max,
  none, not, ok, retain, saturating_add, some, sort_ids, true, u64_max, ℕ, ◌++◌, ◌∷◌,
}

pub record GraphState : Type 0 where
  pub nodes : HashMap ℕ Node
  pub boundary_nodes : HashMap ℕ BoundaryNode
  pub relationships : HashMap ℕ Relationship
  pub outgoing : HashMap ℕ (List ℕ)
  pub incoming : HashMap ℕ (List ℕ)
  pub indexes : GraphIndexes
  pub next_node_id : ℕ
  pub next_relationship_id : ℕ

-- `GraphState::new`
abbrev pub new_graph : GraphState
new_graph = record {
  nodes = [];
  boundary_nodes = [];
  relationships = [];
  outgoing = [];
  incoming = [];
  indexes = record {
    label_nodes = [];
    label_property_nodes = [];
    boundary_label_property_nodes = [];
    outgoing_by_type = [];
    incoming_by_type = [];
  };
  next_node_id = 0;
  next_relationship_id = 0;
}

abbrev pub Graph : Type 0
Graph = Method GraphError GraphState (Unit {0})

unfoldable pub ensure_node_exists : ℕ → GraphState → Result GraphError (Unit {0})
ensure_node_exists id g = if HashMap.contains_key g.nodes id then ok tt else err (node_not_found id)

unfoldable pub create : ℕ → List String → Properties → Graph
create id labels properties g =
    if HashMap.contains_key g.nodes id
    then (err (node_already_exists id), g)
    else (let node : Node = record { id = id; labels = labels; properties = properties } in
        (
          ok tt,
          record g {
            next_node_id = max g.next_node_id (saturating_add u64_max id 1);
            indexes = index_node node g.indexes;
            nodes = HashMap.insert id node g.nodes;
            outgoing = HashMap.or_default [] (λ ids. ids) id g.outgoing;
            incoming = HashMap.or_default [] (λ ids. ids) id g.incoming;
          },
        ))

-- A relationship goes on the lists of its source and, where the target is local, of the target.
unfoldable pub attach : Relationship → Bool → GraphState → GraphState
attach r has_local_to g = record g {
  next_relationship_id = max g.next_relationship_id (saturating_add u64_max r.id 1);
  indexes = index_relationship r has_local_to g.indexes;
  relationships = HashMap.insert r.id r g.relationships;
  outgoing = push_relationship_id r.source r.id g.outgoing;
  incoming = if has_local_to then push_relationship_id r.target r.id g.incoming else g.incoming;
}

unfoldable pub relate : ℕ → ℕ → ℕ → String → Properties → Graph
relate id source target rel_type properties g =
    let r : Relationship = record {
      id = id;
      source = source;
      target = target;
      rel_type = rel_type;
      properties = properties;
    } in
    if HashMap.contains_key g.relationships id
    then (err (relationship_already_exists id), g)
    else if not (HashMap.contains_key g.nodes source)
    then (err (relationship_endpoint_not_found id source), g)
    else if not (HashMap.contains_key g.nodes target)
    then (if HashMap.contains_key g.boundary_nodes target
        then (ok tt, attach r false g)
        else (err (relationship_endpoint_not_found id target), g))
    else (ok tt, attach r true g)

unfoldable pub upsert_boundary : ℕ → ℕ → List String → Properties → ℕ → Graph
upsert_boundary id owner_shard labels properties version g =
    let node : BoundaryNode = record {
      id = id;
      owner_shard = owner_shard;
      labels = labels;
      properties = properties;
      version = version;
    } in
    let cleared : GraphIndexes = elim (HashMap.get g.boundary_nodes id) [
      | none ↦ g.indexes
      | some old ↦ remove_boundary_node_index old g.indexes
    ] in
    (
      ok tt,
      record g {
        indexes = index_boundary_node node cleared;
        boundary_nodes = HashMap.insert id node g.boundary_nodes;
      },
    )

-- A node changes in place: its old entries leave the indexes, the new ones enter.
unfoldable pub replace_node : ℕ → Node → Node → GraphState → GraphState
replace_node id old node g = record g {
  indexes = index_node node (remove_node_index old g.indexes);
  nodes = HashMap.insert id node g.nodes;
}

abbrev pub with_node : ℕ → (Node → GraphState → GraphState) → Graph
with_node id change g = elim (HashMap.get g.nodes id) [
  | none ↦ (err (node_not_found id), g)
  | some node ↦ (ok tt, change node g)
]

-- `node.properties.insert(key, value)` and the other writes to a node
abbrev pub with_property : String → Value → Node → Node
with_property key value node = record node { properties = HashMap.insert key value node.properties }

abbrev pub without_property : String → Node → Node
without_property key node = record node { properties = HashMap.remove key node.properties }

abbrev pub with_label : String → Node → Node
with_label label node = record node { labels = node.labels ++ label ∷ [] }

abbrev pub without_label : String → Node → Node
without_label label node = record node {
  labels = retain (λ existing. not (same existing label)) node.labels;
}

abbrev pub has_label : Node → String → Bool
has_label node label = any (λ existing. same existing label) node.labels

-- A change of a node that a test of it may call off.
abbrev pub change_node : ℕ → (Node → Bool) → (Node → Node) → Graph
change_node id idle change =
    with_node id (λ node g. if idle node then g else replace_node id node (change node) g)

unfoldable pub set_property : ℕ → String → Value → Graph
set_property id key value = change_node id (λ _. false) (with_property key value)

unfoldable pub remove_property : ℕ → String → Graph
remove_property id key = change_node id (λ _. false) (without_property key)

unfoldable pub add_label : ℕ → String → Graph
add_label id label = change_node id (λ node. has_label node label) (with_label label)

unfoldable pub remove_label : ℕ → String → Graph
remove_label id label = change_node id (λ node. not (has_label node label)) (without_label label)

abbrev pub with_relationship : ℕ → (Relationship → Relationship) → Graph
with_relationship id change g = elim (HashMap.get g.relationships id) [
  | none ↦ (err (relationship_not_found id), g)
  | some r ↦ (ok tt, record g { relationships = HashMap.insert id (change r) g.relationships })
]

abbrev pub set_on : String → Value → Relationship → Relationship
set_on key value r = record r { properties = HashMap.insert key value r.properties }

abbrev pub clear_on : String → Relationship → Relationship
clear_on key r = record r { properties = HashMap.remove key r.properties }

unfoldable pub set_relationship : ℕ → String → Value → Graph
set_relationship id key value = with_relationship id (set_on key value)

unfoldable pub clear_relationship : ℕ → String → Graph
clear_relationship id key = with_relationship id (clear_on key)

unfoldable pub detach : ℕ → Graph
detach id g = elim (HashMap.get g.relationships id) [
  | none ↦ (err (relationship_not_found id), g)
  | some r ↦ (
    ok tt,
    record g {
      relationships = HashMap.remove id g.relationships;
      indexes = remove_relationship_index r (HashMap.contains_key g.nodes r.target) g.indexes;
      outgoing = remove_relationship_id r.source id g.outgoing;
      incoming = remove_relationship_id r.target id g.incoming;
    },
  )
]

-- the loop of `delete_node`, which an error ends
unfoldable pub detach_all : List ℕ → Graph
detach_all [] g = (ok tt, g)
detach_all (id ∷ ids) g = and_then (detach id g) (λ _. detach_all ids)

abbrev pub ids_of : HashMap ℕ (List ℕ) → ℕ → List ℕ
ids_of m id = elim (HashMap.get m id) [ none ↦ [] | some ids ↦ ids ]

unfoldable pub attached : ℕ → GraphState → List ℕ
attached id g = dedup (sort_ids (ids_of g.outgoing id ++ ids_of g.incoming id))

-- the end of `delete_node`
unfoldable pub drop_node : ℕ → GraphState → GraphState
drop_node id g = record g {
  nodes = HashMap.remove id g.nodes;
  indexes = elim (HashMap.get g.nodes id) [
    | none ↦ g.indexes
    | some node ↦ remove_node_index node g.indexes
  ];
  outgoing = HashMap.remove id g.outgoing;
  incoming = HashMap.remove id g.incoming;
}

unfoldable pub delete : ℕ → Graph
delete id g =
    and_then (ensure_node_exists id g, g)
      (λ _ g'. and_then (detach_all (attached id g') g') (λ _ g''. (ok tt, drop_node id g'')))

unfoldable pub apply : Command → Graph
apply (create_node id labels properties) = create id labels properties
apply (create_relationship id source target rel_type properties) =
    relate id source target rel_type properties
apply (upsert_boundary_node id owner_shard labels properties version) =
    upsert_boundary id owner_shard labels properties version
apply (set_node_property id key value) = set_property id key value
apply (remove_node_property id key) = remove_property id key
apply (add_node_label id label) = add_label id label
apply (remove_node_label id label) = remove_label id label
apply (set_relationship_property id key value) = set_relationship id key value
apply (remove_relationship_property id key) = clear_relationship id key
apply (delete_relationship id) = detach id
apply (delete_node id) = delete id
apply (cluster_config_change _ _ _ _) = λ g. (ok tt, g)
