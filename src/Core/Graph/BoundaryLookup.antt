-- ===== src/Core/Graph/BoundaryLookup.antt =====
-- crates/neo4r-core/src/graph.rs: the lookup of boundary nodes by a label and a property.
use neo4r.Core.Model.{Value, Properties}
use neo4r.Core.Command.{
  Command, create_node, create_relationship, upsert_boundary_node, set_node_property,
  remove_node_property, add_node_label, remove_node_label, set_relationship_property,
  remove_relationship_property, delete_relationship, delete_node, cluster_config_change,
}
use neo4r.Core.Shard.{BoundaryNode}
use neo4r.Core.Index.{
  LabelPropertyKey, property_key_of, index_boundary_node, remove_boundary_node_index,
  label_property_eq,
}
use neo4r.Core.Index.Members.{member}
use neo4r.Core.Graph.{
  with_property, without_property, with_label, without_label, has_label, set_on, clear_on,
  GraphState, new_graph, upsert_boundary, set_property, remove_property, add_label, remove_label,
  set_relationship, clear_relationship, apply,
}
use neo4r.Core.Graph.Boundary.{
  carries, adds_boundary, drops_boundary, SameBoundary, idle_keeps, create_keeps, relate_keeps,
  change_node_keeps, with_relationship_keeps, detach_keeps, delete_keeps,
}
use neo4r.Core.Graph.Reads.{boundary_node_ids_by_label_property}
use neo4r.Core.Graph.Lookup.{replay, contains-sorted_ids}
use neo4r.Prelude.Equality.{nat_eq, string_eq}
use neo4r.Prelude.HashMap
use neo4r.Prelude.IdSet
use neo4r.Prelude.{
  ==_iff, List, Option-cases, String, [], ap, arith, false, if◌then◌else◌, inl, inr, none, not,
  refl, some, sym, ℕ, ◌==◌, ◌∙◌, ◌∷◌, ◌≡◌,
}

-- The ids of the boundary nodes are their keys, and the index lists those that carry the key.
record BoundaryExact (key : LabelPropertyKey) (g : GraphState) : Type 0 where
  pub ids : (n : ℕ) (b : BoundaryNode) → HashMap.get g.boundary_nodes n ≡ some b → b.id ≡ n
  pub answers :
      (n : ℕ)
      → member g.indexes.boundary_label_property_nodes key n
        ≡ carries key (HashMap.get g.boundary_nodes n)

module _ (key : LabelPropertyKey) (g : GraphState) (v : BoundaryExact key g) where
  same-BoundaryExact : (h : GraphState) → SameBoundary g h → BoundaryExact key h
  same-BoundaryExact h s = record {
    ids = λ n b found. v.ids n b (sym (ap (λ m. HashMap.get m n) s.nodes) ∙ found);
    answers = λ n.
        ap (λ m. member m key n) s.index
        ∙ v.answers n
        ∙ sym (ap (λ m. carries key (HashMap.get m n)) s.nodes);
  }

  inserted-BoundaryExact :
      (h : GraphState) (b : BoundaryNode)
      → h.boundary_nodes ≡ HashMap.insert b.id b g.boundary_nodes
      → ((n : ℕ)
          → member h.indexes.boundary_label_property_nodes key n ≡ (
              if b.id == n
              then carries key (some b)
              else member g.indexes.boundary_label_property_nodes key n))
      → BoundaryExact key h
  inserted-BoundaryExact h b nodes view = record {
    ids = λ n other found. ground (
      arith,
      HashMap.get-insert b.id n b g.boundary_nodes,
      v.ids n other,
      ap (λ m. HashMap.get m n) nodes,
    );
    answers = λ n. ground (
      arith,
      view n,
      HashMap.get-insert b.id n b g.boundary_nodes,
      v.answers n,
      ap (λ m. carries key (HashMap.get m n)) nodes,
    );
  }

  -- The index after the entries of the old copy leave and those of the new one enter.
  fresh_view :
      (b : BoundaryNode) (n : ℕ)
      → HashMap.get g.boundary_nodes b.id ≡ none
      → member (index_boundary_node b g.indexes).boundary_label_property_nodes key n ≡ (
          if b.id == n
          then carries key (some b)
          else member g.indexes.boundary_label_property_nodes key n)
  fresh_view b n missing = ground (
    arith,
    adds_boundary b g.indexes n key,
    v.answers b.id,
    missing,
    ap (carries key) missing,
    ==_iff b.id n,
  )

  replaced_view :
      (old b : BoundaryNode) (n : ℕ)
      → HashMap.get g.boundary_nodes b.id ≡ some old
      → member
          (index_boundary_node b
            (remove_boundary_node_index old g.indexes)).boundary_label_property_nodes
          key
          n
        ≡ (if b.id == n
            then carries key (some b)
            else member g.indexes.boundary_label_property_nodes key n)
  replaced_view old b n found = ground (
    arith,
    adds_boundary b (remove_boundary_node_index old g.indexes) n key,
    drops_boundary old g.indexes n key,
    v.answers b.id,
    v.ids b.id old found,
    ap (carries key) found,
    ==_iff b.id n,
    ==_iff old.id n,
  )

  upsert-BoundaryExact :
      (id owner_shard : ℕ) (labels : List String) (properties : Properties) (version : ℕ)
      → BoundaryExact key (upsert_boundary id owner_shard labels properties version g).1
  unfolding upsert_boundary
  upsert-BoundaryExact id owner_shard labels properties version =
      let b : BoundaryNode = record {
        id = id;
        owner_shard = owner_shard;
        labels = labels;
        properties = properties;
        version = version;
      } in
      inserted-BoundaryExact _ b refl (elim (Option-cases (HashMap.get g.boundary_nodes id)) [
        | inl missing ↦ rw missing (λ n. fresh_view b n missing)
        | inr (old, found) ↦ rw found (λ n. replaced_view old b n found)
      ])

  apply-BoundaryExact : (c : Command) → BoundaryExact key (apply c g).1
  unfolding apply set_property remove_property add_label remove_label set_relationship
      clear_relationship
  apply-BoundaryExact (create_node id labels properties) =
      same-BoundaryExact _ (create_keeps id labels properties g)
  apply-BoundaryExact (create_relationship id source target rel_type properties) =
      same-BoundaryExact _ (relate_keeps id source target rel_type properties g)
  apply-BoundaryExact (upsert_boundary_node id owner_shard labels properties version) =
      upsert-BoundaryExact id owner_shard labels properties version
  apply-BoundaryExact (set_node_property id name value) =
      same-BoundaryExact _ (change_node_keeps id (λ _. false) (with_property name value) g)
  apply-BoundaryExact (remove_node_property id name) =
      same-BoundaryExact _ (change_node_keeps id (λ _. false) (without_property name) g)
  apply-BoundaryExact (add_node_label id label) =
      same-BoundaryExact _
        (change_node_keeps id (λ node. has_label node label) (with_label label) g)
  apply-BoundaryExact (remove_node_label id label) =
      same-BoundaryExact _
        (change_node_keeps id (λ node. not (has_label node label)) (without_label label) g)
  apply-BoundaryExact (set_relationship_property id name value) =
      same-BoundaryExact _ (with_relationship_keeps id (set_on name value) g)
  apply-BoundaryExact (remove_relationship_property id name) =
      same-BoundaryExact _ (with_relationship_keeps id (clear_on name) g)
  apply-BoundaryExact (delete_relationship id) = same-BoundaryExact _ (detach_keeps id g)
  apply-BoundaryExact (delete_node id) = same-BoundaryExact _ (delete_keeps id g)
  apply-BoundaryExact (cluster_config_change _ _ _ _) = same-BoundaryExact _ (idle_keeps g)

replay-BoundaryExact :
    (key : LabelPropertyKey) (cs : List Command) (g : GraphState)
    → BoundaryExact key g
    → BoundaryExact key (replay cs g)
unfolding replay
replay-BoundaryExact key [] g v = v
replay-BoundaryExact key (c ∷ cs) g v =
    replay-BoundaryExact key cs (apply c g).1 (apply-BoundaryExact key g v c)

-- After any commands on an empty graph, failed ones included, the lookup of boundary nodes by a
-- label and a property lists an id exactly if the graph has a boundary node of that id that carries
-- the label and has a value with the same value key under the property's name.
pub boundary_lookup_exact :
    (cs : List Command) (label name : String) (value : Value) (n : ℕ)
    → IdSet.contains (boundary_node_ids_by_label_property (replay cs new_graph) label name value) n
      ≡ carries
          (property_key_of label (name, value))
          (HashMap.get (replay cs new_graph).boundary_nodes n)
unfolding boundary_node_ids_by_label_property
boundary_lookup_exact cs label name value n =
    contains-sorted_ids
      (HashMap.get (replay cs new_graph).indexes.boundary_label_property_nodes
        (property_key_of label (name, value)))
      n
    ∙ (replay-BoundaryExact (property_key_of label (name, value)) cs new_graph
          (record { ids = λ m b h. cc h; answers = λ m. refl })).answers
        n
