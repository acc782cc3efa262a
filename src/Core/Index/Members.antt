-- ===== src/Core/Index/Members.antt =====
-- crates/neo4r-core/src/graph.rs: what an index lists under a key, and how the index functions
-- change it.
use neo4r.Core.Model.{Properties, Node}
use neo4r.Core.Index.{
  GraphIndexes, LabelPropertyKey, property_key_of, label_property_eq, add_node_id, remove_node_id,
  push_relationship_id, remove_relationship_id, index_properties, remove_properties, index_node,
  remove_node_index,
}
use neo4r.Prelude.Distinct.{contains-insert}
use neo4r.Prelude.Equality.{Eq, same, same_path, nat_eq, string_eq}
use neo4r.Prelude.HashMap
use neo4r.Prelude.HashMap.{HashMap}
use neo4r.Prelude.IdSet
use neo4r.Prelude.IdSet.{IdSet}
use neo4r.Prelude.{
  Bool, Bool-cases, List, Option, String, [], any, arith, false, for_each, inl, inr, none, not,
  refl, some, ℕ, ◌&&◌, ◌++◌, ◌==◌, ◌||◌, ◌∙◌, ◌∷◌, ◌≡◌,
}

contains-remove :
    (x y : ℕ) (s : IdSet)
    → IdSet.contains (IdSet.remove x s) y ≡ (not (x == y) && IdSet.contains s y)
contains-remove x y [] = ground arith
contains-remove x y (z ∷ s) = ground (arith, contains-remove x y s)

-- Whether the set under a key has an id.
abbrev pub in_set : Option IdSet → ℕ → Bool
in_set none n = false
in_set (some s) n = IdSet.contains s n

abbrev inserted : ℕ → Option IdSet → IdSet
inserted i o = elim o [ none ↦ IdSet.insert i [] | some s ↦ IdSet.insert i s ]

abbrev pushed : ℕ → Option (List ℕ) → List ℕ
pushed i o = elim o [ none ↦ i ∷ [] | some ids ↦ ids ++ i ∷ [] ]

contains-push :
    (ids : List ℕ) (i n : ℕ) → IdSet.contains (ids ++ i ∷ []) n ≡ (i == n || IdSet.contains ids n)
contains-push [] i n = refl
contains-push (x ∷ ids) i n = ground (arith, contains-push ids i n)

contains-pushed :
    (o : Option (List ℕ)) (i n : ℕ) → IdSet.contains (pushed i o) n ≡ (i == n || in_set o n)
contains-pushed none i n = refl
contains-pushed (some ids) i n = contains-push ids i n

set_adds : (o : Option IdSet) (i n : ℕ) → IdSet.contains (inserted i o) n ≡ (i == n || in_set o n)
set_adds none i n = contains-insert i n []
set_adds (some s) i n = contains-insert i n s

set_drops :
    (o : Option IdSet) (i n : ℕ)
    → in_set (elim o [ none ↦ none | some s ↦ some (IdSet.remove i s) ]) n
      ≡ (not (i == n) && in_set o n)
set_drops none i n = ground arith
set_drops (some s) i n = contains-remove i n s

module _ {K : Type 0} ⦃e : Eq K⦄ where
  abbrev pub member : HashMap K IdSet → K → ℕ → Bool
  member m j n = in_set (HashMap.get m j) n

  pub member-add_node_id :
      (k j : K) (i n : ℕ) (m : HashMap K IdSet)
      → member (add_node_id k i m) j n ≡ (same k j && i == n || member m j n)
  unfolding add_node_id
  member-add_node_id k j i n m = elim (Bool-cases (same k j)) [
    | inl equal ↦
        rw (HashMap.get-insert k j (inserted i (HashMap.get m k)) m, equal, ← same_path k j equal)
          (set_adds (HashMap.get m k) i n)
    | inr differ ↦ rw (HashMap.get-insert k j (inserted i (HashMap.get m k)) m, differ) refl
  ]

  pub member-remove_node_id :
      (k j : K) (i n : ℕ) (m : HashMap K IdSet)
      → member (remove_node_id k i m) j n ≡ (not (same k j && i == n) && member m j n)
  unfolding remove_node_id
  member-remove_node_id k j i n m = elim (Bool-cases (same k j)) [
    | inl equal ↦
        rw (HashMap.get-modify (IdSet.remove i) k j m, equal, ← same_path k j equal)
          (set_drops (HashMap.get m k) i n)
    | inr differ ↦ rw (HashMap.get-modify (IdSet.remove i) k j m, differ) refl
  ]

  -- A vector of relationship ids has a push at its end.
  pub member-push_relationship_id :
      (k j : K) (i n : ℕ) (m : HashMap K (List ℕ))
      → member (push_relationship_id k i m) j n ≡ (same k j && i == n || member m j n)
  unfolding push_relationship_id
  member-push_relationship_id k j i n m = elim (Bool-cases (same k j)) [
    | inl equal ↦
        rw (HashMap.get-insert k j (pushed i (HashMap.get m k)) m, equal, ← same_path k j equal)
          (contains-pushed (HashMap.get m k) i n)
    | inr differ ↦ rw (HashMap.get-insert k j (pushed i (HashMap.get m k)) m, differ) refl
  ]

  pub member-remove_relationship_id :
      (k j : K) (i n : ℕ) (m : HashMap K (List ℕ))
      → member (remove_relationship_id k i m) j n ≡ (not (same k j && i == n) && member m j n)
  unfolding remove_relationship_id remove_node_id
  member-remove_relationship_id k j i n m = member-remove_node_id k j i n m

-- A loop whose rounds each add, or take away, what a test of the element says.
module _ {ℓ κ} {A : Type ℓ} {S : Type κ} (view : S → Bool) (test : A → Bool) (c : Bool)
    (f : A → S → S) where
  pub for_each_adds :
      ((a : A) (s : S) → view (f a s) ≡ (test a && c || view s))
      → (xs : List A) (s : S) → view (for_each f xs s) ≡ (any test xs && c || view s)
  for_each_adds h [] s = refl
  for_each_adds h (x ∷ xs) s = ground (arith, h x s, for_each_adds h xs (f x s))

  pub for_each_drops :
      ((a : A) (s : S) → view (f a s) ≡ (not (test a && c) && view s))
      → (xs : List A) (s : S) → view (for_each f xs s) ≡ (not (any test xs && c) && view s)
  for_each_drops h [] s = refl
  for_each_drops h (x ∷ xs) s = ground (arith, h x s, for_each_drops h xs (f x s))

-- The labels of a node, and the keys of its labels and properties.
abbrev pub has_label_key : String → List String → Bool
has_label_key label = any (λ l. same l label)

abbrev pub has_property_key : LabelPropertyKey → List String → Properties → Bool
has_property_key key labels properties =
    any (λ l. any (λ p. same (property_key_of l p) key) properties) labels

module _ (key : LabelPropertyKey) (i n : ℕ) (properties : Properties) (label : String) where
  pub index_properties-member :
      (m : HashMap LabelPropertyKey IdSet)
      → member (index_properties i properties label m) key n
        ≡ (any (λ p. same (property_key_of label p) key) properties && i == n || member m key n)
  index_properties-member =
      for_each_adds (λ m. member m key n) (λ p. same (property_key_of label p) key) (i == n) _
        (λ p m. member-add_node_id (property_key_of label p) key i n m) properties

  pub remove_properties-member :
      (m : HashMap LabelPropertyKey IdSet)
      → member (remove_properties i properties label m) key n ≡ (
          not (any (λ p. same (property_key_of label p) key) properties && i == n)
          && member m key n)
  remove_properties-member =
      for_each_drops (λ m. member m key n) (λ p. same (property_key_of label p) key) (i == n) _
        (λ p m. member-remove_node_id (property_key_of label p) key i n m) properties

module _ (node : Node) (ix : GraphIndexes) (n : ℕ) where
  pub index_node-label_nodes :
      (label : String)
      → member (index_node node ix).label_nodes label n
        ≡ (has_label_key label node.labels && node.id == n || member ix.label_nodes label n)
  unfolding index_node
  index_node-label_nodes label =
      for_each_adds (λ (x : GraphIndexes). member x.label_nodes label n) (λ l. same l label)
        (node.id == n) _ (λ l x. member-add_node_id l label node.id n x.label_nodes) node.labels ix

  pub remove_node_index-label_nodes :
      (label : String)
      → member (remove_node_index node ix).label_nodes label n
        ≡ (not (has_label_key label node.labels && node.id == n) && member ix.label_nodes label n)
  unfolding remove_node_index
  remove_node_index-label_nodes label =
      for_each_drops (λ (x : GraphIndexes). member x.label_nodes label n) (λ l. same l label)
        (node.id == n) _ (λ l x. member-remove_node_id l label node.id n x.label_nodes) node.labels
        ix

  pub index_node-label_property_nodes :
      (key : LabelPropertyKey)
      → member (index_node node ix).label_property_nodes key n ≡ (
          has_property_key key node.labels node.properties && node.id == n
          || member ix.label_property_nodes key n)
  unfolding index_node
  index_node-label_property_nodes key =
      for_each_adds (λ (x : GraphIndexes). member x.label_property_nodes key n)
        (λ l. any (λ p. same (property_key_of l p) key) node.properties) (node.id == n) _
        (λ l x. index_properties-member key node.id n node.properties l x.label_property_nodes)
        node.labels ix

  pub remove_node_index-label_property_nodes :
      (key : LabelPropertyKey)
      → member (remove_node_index node ix).label_property_nodes key n ≡ (
          not (has_property_key key node.labels node.properties && node.id == n)
          && member ix.label_property_nodes key n)
  unfolding remove_node_index
  remove_node_index-label_property_nodes key =
      for_each_drops (λ (x : GraphIndexes). member x.label_property_nodes key n)
        (λ l. any (λ p. same (property_key_of l p) key) node.properties) (node.id == n) _
        (λ l x. remove_properties-member key node.id n node.properties l x.label_property_nodes)
        node.labels ix

-- A loop whose rounds all leave a part of the state.
pub for_each_keeps {ℓ κ μ} :
    {A : Type ℓ} {S : Type κ} {B : Type μ} (view : S → B) (f : A → S → S)
    → ((a : A) (s : S) → view (f a s) ≡ view s)
    → (xs : List A) (s : S) → view (for_each f xs s) ≡ view s
for_each_keeps view f h [] s = refl
for_each_keeps view f h (x ∷ xs) s = for_each_keeps view f h xs (f x s) ∙ h x s
