-- ===== src/Core/Index.antt =====
-- crates/neo4r-core/src/graph.rs: the keys of the indexes and the functions that keep them.
pub mod Members
use neo4r.Core.Model.{
  Value, ValueKey, value_key, value_key_discrete, Properties, Node, Relationship,
}
use neo4r.Core.Shard.{BoundaryNode}
use neo4r.Prelude.Equality.{Eq, nat_eq, string_eq, string_discrete, by_decision}
use neo4r.Prelude.HashMap
use neo4r.Prelude.HashMap.{HashMap}
use neo4r.Prelude.IdSet
use neo4r.Prelude.IdSet.{IdSet}
use native.Mathlib.Decide.{ℕ_discrete}
use neo4r.Prelude.{Bool, List, String, [], for_each, if◌then◌else◌, not, retain, ℕ, ◌++◌, ◌==◌, ◌∷◌}

pub record LabelPropertyKey : Type 0 where
  pub label : String
  pub property_key : String
  pub property_value : ValueKey

pub record RelationshipTypeKey : Type 0 where
  pub node_id : ℕ
  pub rel_type : String

pub label_property_discrete : Discrete LabelPropertyKey
label_property_discrete = hlevel (string_discrete, value_key_discrete)

pub relationship_type_discrete : Discrete RelationshipTypeKey
relationship_type_discrete = hlevel (string_discrete, ℕ_discrete)

instance abbrev pub label_property_eq : Eq LabelPropertyKey
label_property_eq = by_decision label_property_discrete

instance abbrev pub relationship_type_eq : Eq RelationshipTypeKey
relationship_type_eq = by_decision relationship_type_discrete

pub record GraphIndexes : Type 0 where
  pub label_nodes : HashMap String IdSet
  pub label_property_nodes : HashMap LabelPropertyKey IdSet
  pub boundary_label_property_nodes : HashMap LabelPropertyKey IdSet
  pub outgoing_by_type : HashMap RelationshipTypeKey (List ℕ)
  pub incoming_by_type : HashMap RelationshipTypeKey (List ℕ)

-- `LabelPropertyKey::new`, with the key of the value
abbrev pub property_key_of : String → String × Value → LabelPropertyKey
property_key_of label (key, value) = record {
  label = label;
  property_key = key;
  property_value = value_key value;
}

-- `RelationshipTypeKey::new`
abbrev pub type_key : ℕ → String → RelationshipTypeKey
type_key node rel_type = record { node_id = node; rel_type = rel_type }

-- `entry(key).or_default().insert(id)` and `entry(key).or_default().push(id)`
module _ {K : Type 0} ⦃e : Eq K⦄ where
  unfoldable pub add_node_id : K → ℕ → HashMap K IdSet → HashMap K IdSet
  add_node_id key id m = HashMap.or_default [] (IdSet.insert id) key m

  unfoldable pub push_relationship_id : K → ℕ → HashMap K (List ℕ) → HashMap K (List ℕ)
  push_relationship_id key id m = HashMap.or_default [] (λ ids. ids ++ id ∷ []) key m

  unfoldable pub remove_node_id : K → ℕ → HashMap K IdSet → HashMap K IdSet
  remove_node_id key id m = HashMap.modify (IdSet.remove id) key m

  unfoldable pub remove_relationship_id : K → ℕ → HashMap K (List ℕ) → HashMap K (List ℕ)
  remove_relationship_id key id m =
      HashMap.modify (retain (λ candidate. not (candidate == id))) key m

-- the inner loops over the properties
abbrev pub index_properties :
    ℕ → Properties → String → HashMap LabelPropertyKey IdSet → HashMap LabelPropertyKey IdSet
index_properties id properties label =
    for_each (λ p. add_node_id (property_key_of label p) id) properties

abbrev pub remove_properties :
    ℕ → Properties → String → HashMap LabelPropertyKey IdSet → HashMap LabelPropertyKey IdSet
remove_properties id properties label =
    for_each (λ p. remove_node_id (property_key_of label p) id) properties

unfoldable pub index_node : Node → GraphIndexes → GraphIndexes
index_node node =
    for_each
      (λ label ix. record ix {
        label_nodes = add_node_id label node.id ix.label_nodes;
        label_property_nodes =
            index_properties node.id node.properties label ix.label_property_nodes;
      })
      node.labels

unfoldable pub remove_node_index : Node → GraphIndexes → GraphIndexes
remove_node_index node =
    for_each
      (λ label ix. record ix {
        label_nodes = remove_node_id label node.id ix.label_nodes;
        label_property_nodes =
            remove_properties node.id node.properties label ix.label_property_nodes;
      })
      node.labels

unfoldable pub index_boundary_node : BoundaryNode → GraphIndexes → GraphIndexes
index_boundary_node node =
    for_each
      (λ label ix. record ix {
        boundary_label_property_nodes =
            index_properties node.id node.properties label ix.boundary_label_property_nodes;
      })
      node.labels

unfoldable pub remove_boundary_node_index : BoundaryNode → GraphIndexes → GraphIndexes
remove_boundary_node_index node =
    for_each
      (λ label ix. record ix {
        boundary_label_property_nodes =
            remove_properties node.id node.properties label ix.boundary_label_property_nodes;
      })
      node.labels

unfoldable pub index_relationship : Relationship → Bool → GraphIndexes → GraphIndexes
index_relationship r has_local_to ix = record ix {
  outgoing_by_type = push_relationship_id (type_key r.source r.rel_type) r.id ix.outgoing_by_type;
  incoming_by_type =
      if has_local_to
      then push_relationship_id (type_key r.target r.rel_type) r.id ix.incoming_by_type
      else ix.incoming_by_type;
}

unfoldable pub remove_relationship_index : Relationship → Bool → GraphIndexes → GraphIndexes
remove_relationship_index r has_local_to ix = record ix {
  outgoing_by_type = remove_relationship_id (type_key r.source r.rel_type) r.id ix.outgoing_by_type;
  incoming_by_type =
      if has_local_to
      then remove_relationship_id (type_key r.target r.rel_type) r.id ix.incoming_by_type
      else ix.incoming_by_type;
}
