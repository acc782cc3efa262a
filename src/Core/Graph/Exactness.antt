-- ===== src/Core/Graph/Exactness.antt =====
-- crates/neo4r-core/src/graph.rs: every command keeps what an index answers exact.
use neo4r.Core.Model.{Properties, Node}
use neo4r.Core.Command.{
  Command, create_node, create_relationship, upsert_boundary_node, set_node_property,
  remove_node_property, add_node_label, remove_node_label, set_relationship_property,
  remove_relationship_property, delete_relationship, delete_node, cluster_config_change,
}
use neo4r.Core.Index.{index_node, remove_node_index}
use neo4r.Core.Graph.{
  change_node, with_property, without_property, with_label, without_label, has_label, set_on,
  clear_on, GraphState, ensure_node_exists, create, replace_node, with_node, set_property,
  remove_property, add_label, remove_label, set_relationship, clear_relationship, detach_all,
  attached, drop_node, delete, apply,
}
use neo4r.Core.Graph.Tracking.{
  Tracker, tested, node_indexes, SameNodes, detach-SameNodes, detach_all-SameNodes,
  with_relationship-SameNodes, relate-SameNodes, upsert_boundary-SameNodes,
}
use neo4r.Prelude.Equality.{nat_eq, string_eq}
use neo4r.Prelude.HashMap
use neo4r.Prelude.{
  ==_iff, Bool, Bool-cases, List, Option, Option-cases, String, and_then_state, ap, arith, false,
  if_both, if◌then◌else◌, inl, inr, none, not, refl, some, sym, true, ℕ, ◌==◌, ◌∙◌, ◌≡◌,
}

-- The ids of the nodes are their keys, and the index answers as the test does.
pub record Exact (t : Tracker) (g : GraphState) : Type 0 where
  pub ids : (n : ℕ) (node : Node) → HashMap.get g.nodes n ≡ some node → node.id ≡ n
  pub answers : (n : ℕ) → t.view (node_indexes g.indexes) n ≡ tested t.test (HashMap.get g.nodes n)

Exact-SameNodes : (t : Tracker) (g h : GraphState) → SameNodes g h → Exact t g → Exact t h
Exact-SameNodes t g h s v = record {
  ids = λ n node found. v.ids n node (sym (ap (λ m. HashMap.get m n) s.nodes) ∙ found);
  answers = λ n.
      ap (λ x. t.view x n) s.indexes
      ∙ v.answers n
      ∙ sym (ap (λ m. tested t.test (HashMap.get m n)) s.nodes);
}

module _ (t : Tracker) (g : GraphState) (v : Exact t g) where
  inserted-Exact :
      (h : GraphState) (id : ℕ) (node : Node)
      → node.id ≡ id
      → h.nodes ≡ HashMap.insert id node g.nodes
      → ((n : ℕ)
          → t.view (node_indexes h.indexes) n
            ≡ (if id == n then t.test node else t.view (node_indexes g.indexes) n))
      → Exact t h
  inserted-Exact h id node own nodes view = record {
    ids = λ n other found. ground (
      arith,
      HashMap.get-insert id n node g.nodes,
      v.ids n other,
      ap (λ m. HashMap.get m n) nodes,
    );
    answers = λ n. ground (
      arith,
      view n,
      HashMap.get-insert id n node g.nodes,
      v.answers n,
      ap (λ m. tested t.test (HashMap.get m n)) nodes,
    );
  }

  removed-Exact :
      (h : GraphState) (id : ℕ)
      → h.nodes ≡ HashMap.remove id g.nodes
      → ((n : ℕ)
          → t.view (node_indexes h.indexes) n
            ≡ (if id == n then false else t.view (node_indexes g.indexes) n))
      → Exact t h
  removed-Exact h id nodes view = record {
    ids = λ n other found.
        ground
          (arith, HashMap.get-remove id n g.nodes, v.ids n other, ap (λ m. HashMap.get m n) nodes);
    answers = λ n. ground (
      arith,
      view n,
      HashMap.get-remove id n g.nodes,
      v.answers n,
      ap (λ m. tested t.test (HashMap.get m n)) nodes,
    );
  }

  -- What the index answers for the key of a node.
  at_key :
      (id n : ℕ) (o : Option Node)
      → HashMap.get g.nodes id ≡ o
      → (id == n) ≡ true
      → t.view (node_indexes g.indexes) n ≡ tested t.test o
  at_key id n o found equal =
      ap (t.view (node_indexes g.indexes)) (sym ((==_iff id n).0 equal))
      ∙ v.answers id
      ∙ ap (tested t.test) found

  create-Exact :
      (id : ℕ) (labels : List String) (properties : Properties)
      → Exact t (create id labels properties g).1
  unfolding create
  create-Exact id labels properties = elim (Option-cases (HashMap.get g.nodes id)) [
    | inr (old, found) ↦ rw (create, HashMap.contains_key, found) v
    | inl missing ↦
        rw (create, HashMap.contains_key, missing)
          (inserted-Exact _ id node refl refl (view missing))
  ]
    where
      node : Node
      node = record { id = id; labels = labels; properties = properties }

      view :
          HashMap.get g.nodes id ≡ none
          → (n : ℕ)
          → t.view (node_indexes (index_node node g.indexes)) n
            ≡ (if id == n then t.test node else t.view (node_indexes g.indexes) n)
      view missing n = elim (Bool-cases (id == n)) [
        | inl equal ↦ ground (arith, t.adds node g.indexes n, at_key id n none missing equal)
        | inr differ ↦ ground (arith, t.adds node g.indexes n)
      ]

  replace_node-Exact :
      (id : ℕ) (old node : Node)
      → HashMap.get g.nodes id ≡ some old
      → node.id ≡ old.id
      → Exact t (replace_node id old node g)
  unfolding replace_node
  replace_node-Exact id old node found kept = inserted-Exact _ id node own refl view
    where
      own : node.id ≡ id
      own = kept ∙ v.ids id old found

      view :
          (n : ℕ)
          → t.view (node_indexes (index_node node (remove_node_index old g.indexes))) n
            ≡ (if id == n then t.test node else t.view (node_indexes g.indexes) n)
      view n = elim (Bool-cases (id == n)) [
        | inl equal ↦ ground (
          arith,
          t.adds node (remove_node_index old g.indexes) n,
          t.drops old g.indexes n,
          at_key id n (some old) found equal,
          own,
          v.ids id old found,
        )
        | inr differ ↦ ground (
          arith,
          t.adds node (remove_node_index old g.indexes) n,
          t.drops old g.indexes n,
          own,
          v.ids id old found,
        )
      ]

  drop_node-Exact : (id : ℕ) → Exact t (drop_node id g)
  unfolding drop_node
  drop_node-Exact id = elim (Option-cases (HashMap.get g.nodes id)) [
    | inl missing ↦
        rw (drop_node, missing)
          (removed-Exact _ id refl (λ n. ground (arith, at_key id n none missing)))
    | inr (old, found) ↦
        rw (drop_node, found)
          (removed-Exact _ id refl (λ n.
            ground
              (arith, t.drops old g.indexes n, at_key id n (some old) found, v.ids id old found)))
  ]

module _ (t : Tracker) where
  change_node-Exact :
      (id : ℕ) (idle : Node → Bool) (change : Node → Node) (g : GraphState)
      → ((node : Node) → (change node).id ≡ node.id)
      → Exact t g
      → Exact t (change_node id idle change g).1
  change_node-Exact id idle change g kept v = elim (Option-cases (HashMap.get g.nodes id)) [
    | inl missing ↦ rw (change_node, with_node, missing) v
    | inr (node, found) ↦
        rw (change_node, with_node, found)
          (if_both (Exact t) (idle node) _ _ v
            (replace_node-Exact t g v id node (change node) found (kept node)))
  ]

  delete-Exact : (id : ℕ) (g : GraphState) → Exact t g → Exact t (delete id g).1
  unfolding delete
  delete-Exact id g v =
      and_then_state (Exact t) (ensure_node_exists id g, g) _ v
        (λ _.
          and_then_state (Exact t) (detach_all (attached id g) g) _ detached
            (λ _. drop_node-Exact t _ detached id))
    where
      detached : Exact t (detach_all (attached id g) g).1
      detached = Exact-SameNodes t g _ (detach_all-SameNodes (attached id g) g) v

  pub apply-Exact : (c : Command) (g : GraphState) → Exact t g → Exact t (apply c g).1
  unfolding apply set_property remove_property add_label remove_label set_relationship
      clear_relationship
  apply-Exact (create_node id labels properties) g v = create-Exact t g v id labels properties
  apply-Exact (create_relationship id source target rel_type properties) g v =
      Exact-SameNodes t g _ (relate-SameNodes id source target rel_type properties g) v
  apply-Exact (upsert_boundary_node id owner_shard labels properties version) g v =
      Exact-SameNodes t g _ (upsert_boundary-SameNodes id owner_shard labels properties version g) v
  apply-Exact (set_node_property id key value) g v =
      change_node-Exact id (λ _. false) (with_property key value) g (λ _. refl) v
  apply-Exact (remove_node_property id key) g v =
      change_node-Exact id (λ _. false) (without_property key) g (λ _. refl) v
  apply-Exact (add_node_label id label) g v =
      change_node-Exact id (λ node. has_label node label) (with_label label) g (λ _. refl) v
  apply-Exact (remove_node_label id label) g v =
      change_node-Exact id (λ node. not (has_label node label)) (without_label label) g (λ _. refl)
        v
  apply-Exact (set_relationship_property id key value) g v =
      Exact-SameNodes t g _ (with_relationship-SameNodes id (set_on key value) g) v
  apply-Exact (remove_relationship_property id key) g v =
      Exact-SameNodes t g _ (with_relationship-SameNodes id (clear_on key) g) v
  apply-Exact (delete_relationship id) g v = Exact-SameNodes t g _ (detach-SameNodes id g) v
  apply-Exact (delete_node id) g v = delete-Exact id g v
  apply-Exact (cluster_config_change _ _ _ _) g v = v
