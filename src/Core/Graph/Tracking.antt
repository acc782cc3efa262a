-- ===== src/Core/Graph/Tracking.antt =====
-- crates/neo4r-core/src/graph.rs: a test of a node that an index answers for every node, and that
-- every command keeps the answers right. `Tracker` is what the proofs use of an index.
use neo4r.Core.Model.{Properties, Node, Relationship}
use neo4r.Core.Errors.{GraphError}
use neo4r.Core.Shard.{BoundaryNode}
use neo4r.Core.Index.{
  GraphIndexes, LabelPropertyKey, index_node, remove_node_index, index_boundary_node,
  remove_boundary_node_index, index_relationship, remove_relationship_index,
}
use neo4r.Core.Index.Members.{for_each_keeps}
use neo4r.Core.Graph.{
  GraphState, attach, relate, upsert_boundary, with_relationship, detach, detach_all,
}
use neo4r.Prelude.Equality.{nat_eq, string_eq}
use neo4r.Prelude.HashMap
use neo4r.Prelude.HashMap.{HashMap}
use neo4r.Prelude.IdSet.{IdSet}
use neo4r.Prelude.{
  Bool, List, Option, Option-cases, Result, String, [], and_then_state, false, if_both, inl, inr,
  none, not, refl, some, true, ℕ, ◌&&◌, ◌==◌, ◌||◌, ◌∙◌, ◌∷◌, ◌≡◌,
}

abbrev pub NodeIndexes : Type 0
NodeIndexes = HashMap String IdSet × HashMap LabelPropertyKey IdSet

abbrev pub node_indexes : GraphIndexes → NodeIndexes
node_indexes ix = (ix.label_nodes, ix.label_property_nodes)

-- An index on nodes: what it answers for an id, the test of the node it stands for, and how it
-- follows the index functions.
pub record Tracker : Type 0 where
  pub test : Node → Bool
  pub view : NodeIndexes → ℕ → Bool
  pub empty : (n : ℕ) → view ([], []) n ≡ false
  pub adds :
      (node : Node) (ix : GraphIndexes) (n : ℕ)
      → view (node_indexes (index_node node ix)) n
        ≡ (test node && node.id == n || view (node_indexes ix) n)
  pub drops :
      (node : Node) (ix : GraphIndexes) (n : ℕ)
      → view (node_indexes (remove_node_index node ix)) n
        ≡ (not (test node && node.id == n) && view (node_indexes ix) n)

abbrev pub tested : (Node → Bool) → Option Node → Bool
tested p none = false
tested p (some node) = p node

-- The nodes and the node indexes stay.
pub record SameNodes (before after : GraphState) : Type 0 where
  pub nodes : after.nodes ≡ before.nodes
  pub indexes : node_indexes after.indexes ≡ node_indexes before.indexes

pub SameNodes-refl : (g : GraphState) → SameNodes g g
SameNodes-refl g = record { nodes = refl; indexes = refl }

pub SameNodes-trans : (a b c : GraphState) → SameNodes a b → SameNodes b c → SameNodes a c
SameNodes-trans a b c h k = record { nodes = k.nodes ∙ h.nodes; indexes = k.indexes ∙ h.indexes }

pub attach-SameNodes : (r : Relationship) (b : Bool) (g : GraphState) → SameNodes g (attach r b g)
unfolding attach index_relationship
attach-SameNodes r b g = record { nodes = refl; indexes = refl }

pub detach-SameNodes : (id : ℕ) (g : GraphState) → SameNodes g (detach id g).1
unfolding detach remove_relationship_index
detach-SameNodes id g = elim (Option-cases (HashMap.get g.relationships id)) [
  | inl missing ↦ rw (detach, missing) (SameNodes-refl g)
  | inr (r, found) ↦ rw (detach, found) (record { nodes = refl; indexes = refl })
]

pub detach_all-SameNodes : (ids : List ℕ) (g : GraphState) → SameNodes g (detach_all ids g).1
unfolding detach_all
detach_all-SameNodes [] g = SameNodes-refl g
detach_all-SameNodes (id ∷ ids) g =
    and_then_state (SameNodes g) (detach id g) (λ _. detach_all ids) (detach-SameNodes id g)
      (λ _.
        SameNodes-trans g (detach id g).1 _ (detach-SameNodes id g) (detach_all-SameNodes ids _))

pub with_relationship-SameNodes :
    (id : ℕ) (change : Relationship → Relationship) (g : GraphState)
    → SameNodes g (with_relationship id change g).1
with_relationship-SameNodes id change g = elim (Option-cases (HashMap.get g.relationships id)) [
  | inl missing ↦ rw (with_relationship, missing) (SameNodes-refl g)
  | inr (r, found) ↦ rw (with_relationship, found) (record { nodes = refl; indexes = refl })
]

pub relate-SameNodes :
    (id source target : ℕ) (rel_type : String) (properties : Properties) (g : GraphState)
    → SameNodes g (relate id source target rel_type properties g).1
unfolding relate
relate-SameNodes id source target rel_type properties g =
    if_both kept (HashMap.contains_key g.relationships id) _ _ (SameNodes-refl g) (
      if_both kept (not (HashMap.contains_key g.nodes source)) _ _ (SameNodes-refl g) (
        if_both kept (not (HashMap.contains_key g.nodes target)) _ _
          (if_both kept (HashMap.contains_key g.boundary_nodes target) _ _
            (attach-SameNodes _ false g) (SameNodes-refl g))
          (attach-SameNodes _ true g)))
  where
    kept : Result GraphError (Unit {0}) × GraphState → Type 0
    kept o = SameNodes g o.1

pub upsert_boundary-SameNodes :
    (id owner : ℕ) (labels : List String) (properties : Properties) (version : ℕ) (g : GraphState)
    → SameNodes g (upsert_boundary id owner labels properties version g).1
unfolding upsert_boundary index_boundary_node remove_boundary_node_index
upsert_boundary-SameNodes id owner labels properties version g =
    elim (Option-cases (HashMap.get g.boundary_nodes id)) [
      | inl missing ↦
          rw (upsert_boundary, missing) (record { nodes = refl; indexes = added g.indexes })
      | inr (old, found) ↦
          rw (upsert_boundary, found) (record { nodes = refl; indexes = added _ ∙ removed old })
    ]
  where
    node : BoundaryNode
    node = record {
      id = id;
      owner_shard = owner;
      labels = labels;
      properties = properties;
      version = version;
    }

    added : (ix : GraphIndexes) → node_indexes (index_boundary_node node ix) ≡ node_indexes ix
    added = for_each_keeps node_indexes _ (λ l x. refl) labels

    removed :
        (old : BoundaryNode)
        → node_indexes (remove_boundary_node_index old g.indexes) ≡ node_indexes g.indexes
    removed old = for_each_keeps node_indexes _ (λ l x. refl) old.labels g.indexes
