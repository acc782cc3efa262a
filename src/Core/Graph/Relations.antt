-- ===== src/Core/Graph/Relations.antt =====
-- crates/neo4r-core/src/graph.rs: adjacency after any commands, and deleting a node.
use neo4r.Core.Model.{Properties, Node}
use neo4r.Core.Errors.{GraphError}
use neo4r.Core.Command.{
  Command, create_node, create_relationship, upsert_boundary_node, set_node_property,
  remove_node_property, add_node_label, remove_node_label, set_relationship_property,
  remove_relationship_property, delete_relationship, delete_node, cluster_config_change,
}
use neo4r.Core.Shard.{BoundaryNode}
use neo4r.Core.Index.{
  GraphIndexes, type_key, relationship_type_eq, remove_node_index, index_boundary_node,
  remove_boundary_node_index,
}
use neo4r.Core.Index.Members.{member, in_set, for_each_keeps}
use neo4r.Core.Graph.{
  GraphState, new_graph, create, relate, replace_node, with_node, change_node, upsert_boundary,
  detach_all, attached, drop_node, apply, set_property, remove_property, add_label, remove_label,
  set_relationship, clear_relationship, has_label, with_property, without_property, with_label,
  without_label,
}
use neo4r.Core.Graph.Edges.{
  Edges, SameEdges, Edges-SameEdges, related, from_node, of_type, added_types, removed_types,
  attach-Edges, detach-Edges, with_relationship-Edges,
}
use neo4r.Core.Graph.Adjacency.{delete-Edges, delete_succeeds, detached_alone}
use neo4r.Core.Graph.Lookup.{replay}
use neo4r.Prelude.Equality.{nat_eq, string_eq}
use neo4r.Prelude.HashMap
use neo4r.Prelude.HashMap.{HashMap}
use neo4r.Prelude.{
  ==_iff, Bool, Bool-cases, List, Option, Option-cases, Result, String, [], ap, arith, false,
  if_both, inl, inr, none, not, ok, refl, some, true, ℕ, ◌==◌, ◌∙◌, ◌∷◌, ◌≡◌,
}

abbrev or_empty : Option (List ℕ) → List ℕ
or_empty o = elim o [ none ↦ [] | some ids ↦ ids ]

in_set-or_empty : (o : Option (List ℕ)) (i : ℕ) → in_set (some (or_empty o)) i ≡ in_set o i
in_set-or_empty none i = refl
in_set-or_empty (some ids) i = refl

member-or_default :
    (id f i : ℕ) (m : HashMap ℕ (List ℕ))
    → member (HashMap.or_default [] (λ ids. ids) id m) f i ≡ member m f i
member-or_default id f i m = elim (Bool-cases (id == f)) [
  | inl equal ↦
      ap (λ o. in_set o i) (HashMap.get-insert id f (or_empty (HashMap.get m id)) m)
      ∙ rw equal (
          in_set-or_empty (HashMap.get m id) i
          ∙ ap (λ k. in_set (HashMap.get m k) i) ((==_iff id f).0 equal))
  | inr differ ↦
      ap (λ o. in_set o i) (HashMap.get-insert id f (or_empty (HashMap.get m id)) m)
      ∙ rw differ refl
]

create-SameEdges :
    (id : ℕ) (labels : List String) (properties : Properties) (g : GraphState)
    → SameEdges g (create id labels properties g).1
unfolding create
create-SameEdges id labels properties g =
    if_both (λ (o : Result GraphError (Unit {0}) × GraphState). SameEdges g o.1)
      (HashMap.contains_key g.nodes id) _ _
      (record {
        relationships = refl;
        outgoing = λ f i. refl;
        incoming = λ f i. refl;
        typed = refl;
      })
      (record {
        relationships = refl;
        outgoing = λ f i. member-or_default id f i g.outgoing;
        incoming = λ f i. member-or_default id f i g.incoming;
        typed =
            added_types (record { id = id; labels = labels; properties = properties }) g.indexes;
      })

replace_node-SameEdges :
    (id : ℕ) (old node : Node) (g : GraphState) → SameEdges g (replace_node id old node g)
unfolding replace_node
replace_node-SameEdges id old node g = record {
  relationships = refl;
  outgoing = λ f i. refl;
  incoming = λ f i. refl;
  typed = added_types node (remove_node_index old g.indexes) ∙ removed_types old g.indexes;
}

upsert_boundary-SameEdges :
    (id owner : ℕ) (labels : List String) (properties : Properties) (version : ℕ) (g : GraphState)
    → SameEdges g (upsert_boundary id owner labels properties version g).1
unfolding upsert_boundary index_boundary_node remove_boundary_node_index
upsert_boundary-SameEdges id owner labels properties version g = record {
  relationships = refl;
  outgoing = λ f i. refl;
  incoming = λ f i. refl;
  typed =
      for_each_keeps (λ (x : GraphIndexes). x.outgoing_by_type) _ (λ l x. refl) labels _
      ∙ cleared (HashMap.get g.boundary_nodes id);
}
  where
    cleared :
        (o : Option BoundaryNode)
        → (elim o as (λ _. GraphIndexes) [
          | none ↦ g.indexes
          | some old ↦ remove_boundary_node_index old g.indexes
        ]).outgoing_by_type
          ≡ g.indexes.outgoing_by_type
    cleared none = refl
    cleared (some old) =
        for_each_keeps (λ (x : GraphIndexes). x.outgoing_by_type) _ (λ l x. refl) old.labels
          g.indexes

module _ (g : GraphState) (v : Edges g) where
  change_node-Edges :
      (id : ℕ) (idle : Node → Bool) (change : Node → Node) → Edges (change_node id idle change g).1
  change_node-Edges id idle change = elim (Option-cases (HashMap.get g.nodes id)) [
    | inl missing ↦ rw (change_node, with_node, missing) v
    | inr (node, found) ↦
        rw (change_node, with_node, found)
          (if_both Edges (idle node) _ _ v
            (Edges-SameEdges g _ (replace_node-SameEdges id node (change node) g) v))
  ]

  relate-Edges :
      (id source target : ℕ) (rel_type : String) (properties : Properties)
      → Edges (relate id source target rel_type properties g).1
  unfolding relate
  relate-Edges id source target rel_type properties =
      elim (Option-cases (HashMap.get g.relationships id)) [
        | inr (old, found) ↦ rw (relate, HashMap.contains_key, found) v
        | inl fresh ↦
            rw (relate, HashMap.contains_key, fresh)
              (if_both kept (not (HashMap.contains_key g.nodes source)) _ _ v (
                if_both kept (not (HashMap.contains_key g.nodes target)) _ _
                  (if_both kept (HashMap.contains_key g.boundary_nodes target) _ _
                    (attach-Edges g v _ false fresh) v)
                  (attach-Edges g v _ true fresh)))
      ]
    where
      kept : Result GraphError (Unit {0}) × GraphState → Type 0
      kept o = Edges o.1

apply-Edges : (c : Command) (g : GraphState) → Edges g → Edges (apply c g).1
unfolding apply set_property remove_property add_label remove_label set_relationship
    clear_relationship
apply-Edges (create_node id labels properties) g v =
    Edges-SameEdges g _ (create-SameEdges id labels properties g) v
apply-Edges (create_relationship id source target rel_type properties) g v =
    relate-Edges g v id source target rel_type properties
apply-Edges (upsert_boundary_node id owner_shard labels properties version) g v =
    Edges-SameEdges g _ (upsert_boundary-SameEdges id owner_shard labels properties version g) v
apply-Edges (set_node_property id key value) g v =
    change_node-Edges g v id (λ _. false) (with_property key value)
apply-Edges (remove_node_property id key) g v =
    change_node-Edges g v id (λ _. false) (without_property key)
apply-Edges (add_node_label id label) g v =
    change_node-Edges g v id (λ node. has_label node label) (with_label label)
apply-Edges (remove_node_label id label) g v =
    change_node-Edges g v id (λ node. not (has_label node label)) (without_label label)
apply-Edges (set_relationship_property id key value) g v =
    with_relationship-Edges g v id (HashMap.insert key value)
apply-Edges (remove_relationship_property id key) g v =
    with_relationship-Edges g v id (HashMap.remove key)
apply-Edges (delete_relationship id) g v = detach-Edges g v id
apply-Edges (delete_node id) g v = delete-Edges g v id
apply-Edges (cluster_config_change _ _ _ _) g v = v

replay-Edges : (cs : List Command) (g : GraphState) → Edges g → Edges (replay cs g)
unfolding replay
replay-Edges [] g v = v
replay-Edges (c ∷ cs) g v = replay-Edges cs (apply c g).1 (apply-Edges c g v)

pub replayed-Edges : (cs : List Command) → Edges (replay cs new_graph)
replayed-Edges cs =
    replay-Edges cs new_graph (record {
      ids = λ i r h. cc h;
      out = λ f i. refl;
      typed = λ key i. refl;
      inc = λ f i h. cc h;
    })

-- After any commands on an empty graph, failed ones included, the outgoing list of a node holds a
-- relationship id exactly if the graph has a relationship of that id that starts at the node, and
-- the list of a node and a type exactly if it also has the type.
pub outgoing_exact :
    (cs : List Command) (f i : ℕ) (rel_type : String)
    → (member (replay cs new_graph).outgoing f i
        ≡ related (from_node f) (HashMap.get (replay cs new_graph).relationships i))
      × (member (replay cs new_graph).indexes.outgoing_by_type (type_key f rel_type) i
          ≡ related
              (of_type (type_key f rel_type))
              (HashMap.get (replay cs new_graph).relationships i))
outgoing_exact cs f i rel_type =
    ((replayed-Edges cs).out f i, (replayed-Edges cs).typed (type_key f rel_type) i)

-- After any commands on an empty graph, failed ones included, deleting a node that is there succeeds,
-- and then neither the node nor a relationship that starts at it is left.
pub delete_node_is_complete :
    (cs : List Command) (id i : ℕ)
    → HashMap.contains_key (replay cs new_graph).nodes id ≡ true
    → ((apply (delete_node id) (replay cs new_graph)).0 ≡ ok tt)
      × (HashMap.get (apply (delete_node id) (replay cs new_graph)).1.nodes id ≡ none)
      × (related
            (from_node id)
            (HashMap.get (apply (delete_node id) (replay cs new_graph)).1.relationships i)
          ≡ false)
unfolding apply drop_node
delete_node_is_complete cs id i there =
    let g = replay cs new_graph in
    let v = replayed-Edges cs in
    let outcome = delete_succeeds g v id there in
    (
      ap (λ o. o.0) outcome,
      ap (λ o. HashMap.get o.1.nodes id) outcome ∙ gone (detach_all (attached id g) g).1,
      ap (λ o. related (from_node id) (HashMap.get o.1.relationships i)) outcome ∙ left g v,
    )
  where
    gone : (h : GraphState) → HashMap.get (drop_node id h).nodes id ≡ none
    gone h = HashMap.get-remove id id h.nodes ∙ ground arith

    left :
        (g : GraphState) (v : Edges g)
        → related
            (from_node id)
            (HashMap.get (drop_node id (detach_all (attached id g) g).1).relationships i)
          ≡ false
    left g v = detached_alone g v id i
