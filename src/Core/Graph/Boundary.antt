-- ===== src/Core/Graph/Boundary.antt =====
-- crates/neo4r-core/src/graph.rs: the index of the boundary nodes, copies of nodes of other shards.
use neo4r.Core.Model.{Properties, Node, Relationship}
use neo4r.Core.Errors.{GraphError}
use neo4r.Core.Shard.{BoundaryNode}
use neo4r.Core.Index.{
  GraphIndexes, LabelPropertyKey, property_key_of, label_property_eq, index_node, remove_node_index,
  index_boundary_node, remove_boundary_node_index, index_relationship, remove_relationship_index,
}
use neo4r.Core.Index.Members.{
  member, has_property_key, for_each_keeps, for_each_adds, for_each_drops, index_properties-member,
  remove_properties-member,
}
use neo4r.Core.Graph.{
  GraphState, ensure_node_exists, create, attach, relate, replace_node, with_node, change_node,
  with_relationship, detach, detach_all, attached, drop_node, delete,
}
use neo4r.Prelude.Equality.{same, nat_eq, string_eq}
use neo4r.Prelude.HashMap
use neo4r.Prelude.HashMap.{HashMap}
use neo4r.Prelude.{
  Bool, List, Option, Option-cases, Result, String, [], and_then_state, any, false, if_both, inl,
  inr, none, not, refl, some, ℕ, ◌&&◌, ◌==◌, ◌||◌, ◌∙◌, ◌∷◌, ◌≡◌,
}

abbrev pub carries : LabelPropertyKey → Option BoundaryNode → Bool
carries key none = false
carries key (some b) = has_property_key key b.labels b.properties

module _ (node : BoundaryNode) (ix : GraphIndexes) (n : ℕ) (key : LabelPropertyKey) where
  pub adds_boundary : member (index_boundary_node node ix).boundary_label_property_nodes key n ≡ (
      has_property_key key node.labels node.properties && node.id == n
      || member ix.boundary_label_property_nodes key n)
  unfolding index_boundary_node
  adds_boundary =
      for_each_adds (λ (x : GraphIndexes). member x.boundary_label_property_nodes key n)
        (λ l. any (λ p. same (property_key_of l p) key) node.properties) (node.id == n) _
        (λ l x.
          index_properties-member key node.id n node.properties l x.boundary_label_property_nodes)
        node.labels ix

  pub drops_boundary :
      member (remove_boundary_node_index node ix).boundary_label_property_nodes key n ≡ (
        not (has_property_key key node.labels node.properties && node.id == n)
        && member ix.boundary_label_property_nodes key n)
  unfolding remove_boundary_node_index
  drops_boundary =
      for_each_drops (λ (x : GraphIndexes). member x.boundary_label_property_nodes key n)
        (λ l. any (λ p. same (property_key_of l p) key) node.properties) (node.id == n) _
        (λ l x.
          remove_properties-member key node.id n node.properties l x.boundary_label_property_nodes)
        node.labels ix

pub record SameBoundary (before after : GraphState) : Type 0 where
  pub nodes : after.boundary_nodes ≡ before.boundary_nodes
  pub index :
      after.indexes.boundary_label_property_nodes ≡ before.indexes.boundary_label_property_nodes

pub idle_keeps : (g : GraphState) → SameBoundary g g
idle_keeps g = record { nodes = refl; index = refl }

then_keeps : (a b c : GraphState) → SameBoundary a b → SameBoundary b c → SameBoundary a c
then_keeps a b c h k = record { nodes = k.nodes ∙ h.nodes; index = k.index ∙ h.index }

abbrev boundary_index : GraphIndexes → HashMap LabelPropertyKey (List ℕ)
boundary_index ix = ix.boundary_label_property_nodes

indexed_keeps :
    (node : Node) (ix : GraphIndexes) → boundary_index (index_node node ix) ≡ boundary_index ix
unfolding index_node
indexed_keeps node = for_each_keeps boundary_index _ (λ l x. refl) node.labels

removed_keeps :
    (node : Node) (ix : GraphIndexes)
    → boundary_index (remove_node_index node ix) ≡ boundary_index ix
unfolding remove_node_index
removed_keeps node = for_each_keeps boundary_index _ (λ l x. refl) node.labels

abbrev pub SameOutcome : GraphState → Result GraphError (Unit {0}) × GraphState → Type 0
SameOutcome g o = SameBoundary g o.1

pub create_keeps :
    (id : ℕ) (labels : List String) (properties : Properties) (g : GraphState)
    → SameOutcome g (create id labels properties g)
unfolding create
create_keeps id labels properties g =
    if_both (SameOutcome g) (HashMap.contains_key g.nodes id) _ _ (idle_keeps g) (record {
      nodes = refl;
      index =
          indexed_keeps (record { id = id; labels = labels; properties = properties }) g.indexes;
    })

pub relate_keeps :
    (id source target : ℕ) (rel_type : String) (properties : Properties) (g : GraphState)
    → SameOutcome g (relate id source target rel_type properties g)
unfolding relate attach index_relationship
relate_keeps id source target rel_type properties g =
    if_both (SameOutcome g) (HashMap.contains_key g.relationships id) _ _ (idle_keeps g) (
      if_both (SameOutcome g) (not (HashMap.contains_key g.nodes source)) _ _ (idle_keeps g) (
        if_both (SameOutcome g) (not (HashMap.contains_key g.nodes target)) _ _
          (if_both (SameOutcome g) (HashMap.contains_key g.boundary_nodes target) _ _
            (record { nodes = refl; index = refl }) (idle_keeps g))
          (record { nodes = refl; index = refl })))

pub change_node_keeps :
    (id : ℕ) (idle : Node → Bool) (change : Node → Node) (g : GraphState)
    → SameOutcome g (change_node id idle change g)
unfolding replace_node
change_node_keeps id idle change g = elim (Option-cases (HashMap.get g.nodes id)) [
  | inl missing ↦ rw (change_node, with_node, missing) (idle_keeps g)
  | inr (node, found) ↦
      rw (change_node, with_node, found)
        (if_both (SameBoundary g) (idle node) _ _ (idle_keeps g) (record {
          nodes = refl;
          index =
              indexed_keeps (change node) (remove_node_index node g.indexes)
              ∙ removed_keeps node g.indexes;
        }))
]

pub with_relationship_keeps :
    (id : ℕ) (change : Relationship → Relationship) (g : GraphState)
    → SameOutcome g (with_relationship id change g)
with_relationship_keeps id change g = elim (Option-cases (HashMap.get g.relationships id)) [
  | inl missing ↦ rw (with_relationship, missing) (idle_keeps g)
  | inr (r, found) ↦ rw (with_relationship, found) (record { nodes = refl; index = refl })
]

pub detach_keeps : (id : ℕ) (g : GraphState) → SameOutcome g (detach id g)
unfolding detach remove_relationship_index
detach_keeps id g = elim (Option-cases (HashMap.get g.relationships id)) [
  | inl missing ↦ rw (detach, missing) (idle_keeps g)
  | inr (r, found) ↦ rw (detach, found) (record { nodes = refl; index = refl })
]

detach_all_keeps : (ids : List ℕ) (g : GraphState) → SameOutcome g (detach_all ids g)
unfolding detach_all
detach_all_keeps [] g = idle_keeps g
detach_all_keeps (id ∷ ids) g =
    and_then_state (SameBoundary g) (detach id g) (λ _. detach_all ids) (detach_keeps id g)
      (λ _. then_keeps g (detach id g).1 _ (detach_keeps id g) (detach_all_keeps ids _))

drop_node_keeps : (id : ℕ) (g : GraphState) → SameBoundary g (drop_node id g)
unfolding drop_node
drop_node_keeps id g = elim (Option-cases (HashMap.get g.nodes id)) [
  | inl missing ↦ rw (drop_node, missing) (record { nodes = refl; index = refl })
  | inr (node, found) ↦
      rw (drop_node, found) (record { nodes = refl; index = removed_keeps node g.indexes })
]

pub delete_keeps : (id : ℕ) (g : GraphState) → SameOutcome g (delete id g)
unfolding delete
delete_keeps id g =
    and_then_state (SameBoundary g) (ensure_node_exists id g, g) _ (idle_keeps g)
      (λ _.
        and_then_state (SameBoundary g) (detach_all (attached id g) g) _
          (detach_all_keeps (attached id g) g)
          (λ _. then_keeps g _ _ (detach_all_keeps (attached id g) g) (drop_node_keeps id _)))
