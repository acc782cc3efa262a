-- ===== src/Core/Graph/Edges.antt =====
-- crates/neo4r-core/src/graph.rs: the adjacency lists and the relationships agree, and every command
-- keeps this.
use neo4r.Core.Model.{Properties, Node, Relationship}
use neo4r.Core.Index.{
  GraphIndexes, RelationshipTypeKey, type_key, relationship_type_eq, index_relationship,
  remove_relationship_index, push_relationship_id, remove_relationship_id, index_node,
  remove_node_index,
}
use neo4r.Core.Index.Members.{
  member, in_set, member-push_relationship_id, member-remove_relationship_id, for_each_keeps,
}
use neo4r.Core.Graph.{GraphState, drop_node, attach, with_relationship, detach, drop_node}
use neo4r.Prelude.Equality.{same, nat_eq, string_eq}
use neo4r.Prelude.HashMap
use neo4r.Prelude.HashMap.{HashMap}
use neo4r.Prelude.{
  ==_iff, Bool, Option, Option-cases, ap, arith, false, if◌then◌else◌, inl, inr, none, refl, some,
  sym, true, ℕ, ◌==◌, ◌∙◌, ◌≡◌,
}

abbrev pub related : (Relationship → Bool) → Option Relationship → Bool
related p none = false
related p (some r) = p r

abbrev pub from_node : ℕ → Relationship → Bool
from_node f r = r.source == f

abbrev pub to_node : ℕ → Relationship → Bool
to_node f r = r.target == f

abbrev pub of_type : RelationshipTypeKey → Relationship → Bool
of_type key r = same (type_key r.source r.rel_type) key

-- A relationship is stored under its id, the outgoing lists hold exactly the relationships of their
-- node, and of their node and type, and the incoming lists hold only relationships to their node.
pub record Edges (g : GraphState) : Type 0 where
  pub ids : (i : ℕ) (r : Relationship) → HashMap.get g.relationships i ≡ some r → r.id ≡ i
  pub out :
      (f i : ℕ) → member g.outgoing f i ≡ related (from_node f) (HashMap.get g.relationships i)
  pub typed :
      (key : RelationshipTypeKey) (i : ℕ)
      → member g.indexes.outgoing_by_type key i
        ≡ related (of_type key) (HashMap.get g.relationships i)
  pub inc :
      (f i : ℕ)
      → member g.incoming f i ≡ true
      → related (to_node f) (HashMap.get g.relationships i) ≡ true

-- Nothing that `Edges` reads changes.
pub record SameEdges (before after : GraphState) : Type 0 where
  pub relationships : after.relationships ≡ before.relationships
  pub outgoing : (f i : ℕ) → member after.outgoing f i ≡ member before.outgoing f i
  pub incoming : (f i : ℕ) → member after.incoming f i ≡ member before.incoming f i
  pub typed : after.indexes.outgoing_by_type ≡ before.indexes.outgoing_by_type

pub Edges-SameEdges : (g h : GraphState) → SameEdges g h → Edges g → Edges h
Edges-SameEdges g h s v = record {
  ids = λ i r found. v.ids i r (sym (at i) ∙ found);
  out = λ f i. s.outgoing f i ∙ v.out f i ∙ sym (ap (related (from_node f)) (at i));
  typed = λ key i.
      ap (λ m. member m key i) s.typed ∙ v.typed key i ∙ sym (ap (related (of_type key)) (at i));
  inc = λ f i found. ap (related (to_node f)) (at i) ∙ v.inc f i (sym (s.incoming f i) ∙ found);
}
  where
    at : (i : ℕ) → HashMap.get h.relationships i ≡ HashMap.get g.relationships i
    at i = ap (λ m. HashMap.get m i) s.relationships

-- What the index functions leave of the index of types.
detached_types :
    (r : Relationship) (b : Bool) (ix : GraphIndexes)
    → (remove_relationship_index r b ix).outgoing_by_type
      ≡ remove_relationship_id (type_key r.source r.rel_type) r.id ix.outgoing_by_type
unfolding remove_relationship_index
detached_types r b ix = refl

pub added_types :
    (node : Node) (ix : GraphIndexes) → (index_node node ix).outgoing_by_type ≡ ix.outgoing_by_type
unfolding index_node
added_types node =
    for_each_keeps (λ (x : GraphIndexes). x.outgoing_by_type) _ (λ l x. refl) node.labels

pub removed_types :
    (node : Node) (ix : GraphIndexes)
    → (remove_node_index node ix).outgoing_by_type ≡ ix.outgoing_by_type
unfolding remove_node_index
removed_types node =
    for_each_keeps (λ (x : GraphIndexes). x.outgoing_by_type) _ (λ l x. refl) node.labels

module _ (g : GraphState) (v : Edges g) where
  pub attach-Edges :
      (r : Relationship) (b : Bool) → HashMap.get g.relationships r.id ≡ none → Edges (attach r b g)
  unfolding attach index_relationship
  attach-Edges r b fresh = record {
    ids =
        λ i other found. ground (arith, HashMap.get-insert r.id i r g.relationships, v.ids i other);
    out = λ f i. ground (
      arith,
      member-push_relationship_id r.source f r.id i g.outgoing,
      HashMap.get-insert r.id i r g.relationships,
      v.out f i,
      free i,
    );
    typed = λ key i. ground (
      arith,
      member-push_relationship_id (type_key r.source r.rel_type) key r.id i
          g.indexes.outgoing_by_type,
      HashMap.get-insert r.id i r g.relationships,
      v.typed key i,
      free i,
    );
    inc = λ f i. incoming b f i;
  }
    where
      free : (i : ℕ) → (r.id == i) ≡ true → HashMap.get g.relationships i ≡ none
      free i equal = ap (HashMap.get g.relationships) (sym ((==_iff r.id i).0 equal)) ∙ fresh

      incoming :
          (b : Bool) (f i : ℕ)
          → member (if b then push_relationship_id r.target r.id g.incoming else g.incoming) f i
            ≡ true
          → related (to_node f) (HashMap.get (HashMap.insert r.id r g.relationships) i) ≡ true
      incoming true f i found = ground (
        arith,
        member-push_relationship_id r.target f r.id i g.incoming,
        HashMap.get-insert r.id i r g.relationships,
        v.inc f i,
        free i,
      )
      incoming false f i found =
          ground (arith, HashMap.get-insert r.id i r g.relationships, v.inc f i, free i)

  pub detach-Edges : (id : ℕ) → Edges (detach id g).1
  unfolding detach remove_relationship_index
  detach-Edges id = elim (Option-cases (HashMap.get g.relationships id)) [
    | inl missing ↦ rw (detach, missing) v
    | inr (r, found) ↦
        rw (detach, found)
          (record {
            ids = λ i other there.
                ground (arith, HashMap.get-remove id i g.relationships, v.ids i other);
            out = λ f i. ground (
              arith,
              member-remove_relationship_id r.source f id i g.outgoing,
              HashMap.get-remove id i g.relationships,
              v.out f i,
              at r found i,
            );
            typed = λ key i.
                ap (λ m. member m key i)
                  (detached_types r (HashMap.contains_key g.nodes r.target) g.indexes)
                ∙ ground (
                  arith,
                  member-remove_relationship_id (type_key r.source r.rel_type) key r.id i
                      g.indexes.outgoing_by_type,
                  HashMap.get-remove id i g.relationships,
                  v.typed key i,
                  at r found i,
                  v.ids id r found,
                );
            inc = λ f i there. ground (
              arith,
              member-remove_relationship_id r.target f id i g.incoming,
              HashMap.get-remove id i g.relationships,
              v.inc f i,
              at r found i,
            );
          })
  ]
    where
      at :
          (r : Relationship)
          → HashMap.get g.relationships id ≡ some r
          → (i : ℕ) → (id == i) ≡ true
          → HashMap.get g.relationships i ≡ some r
      at r found i equal = ap (HashMap.get g.relationships) (sym ((==_iff id i).0 equal)) ∙ found

  pub with_relationship-Edges :
      (id : ℕ) (f : Properties → Properties)
      → Edges (with_relationship id (λ r. record r { properties = f r.properties }) g).1
  with_relationship-Edges id f = elim (Option-cases (HashMap.get g.relationships id)) [
    | inl missing ↦ rw (with_relationship, missing) v
    | inr (r, found) ↦
        rw (with_relationship, found)
          (record {
            ids = λ i other there. ground (arith, changed r i, v.ids i other, v.ids id r found);
            out = λ k i. ground (arith, changed r i, v.out k i, at r found i);
            typed = λ key i. ground (arith, changed r i, v.typed key i, at r found i);
            inc = λ k i there. ground (arith, changed r i, v.inc k i, at r found i);
          })
  ]
    where
      at :
          (r : Relationship)
          → HashMap.get g.relationships id ≡ some r
          → (i : ℕ) → (id == i) ≡ true
          → HashMap.get g.relationships i ≡ some r
      at r found i equal = ap (HashMap.get g.relationships) (sym ((==_iff id i).0 equal)) ∙ found

      changed :
          (r : Relationship) (i : ℕ)
          → HashMap.get
              (HashMap.insert id (record r { properties = f r.properties }) g.relationships)
              i
            ≡ (if id == i
                then some (record r { properties = f r.properties })
                else HashMap.get g.relationships i)
      changed r i =
          HashMap.get-insert id i (record r { properties = f r.properties }) g.relationships

  -- A node leaves with its lists where no relationship starts at it any more.
  pub drop_node-Edges :
      (id : ℕ)
      → ((i : ℕ) → related (from_node id) (HashMap.get g.relationships i) ≡ false)
      → Edges (drop_node id g)
  unfolding drop_node
  drop_node-Edges id alone = record {
    ids = v.ids;
    out = λ f i. ground (
      arith,
      ap (λ o. in_set o i) (HashMap.get-remove id f g.outgoing),
      v.out f i,
      alone i,
      at f i,
    );
    typed = λ key i. ap (λ m. member m key i) dropped ∙ v.typed key i;
    inc = λ f i there.
        ground (arith, ap (λ o. in_set o i) (HashMap.get-remove id f g.incoming), v.inc f i);
  }
    where
      at :
          (f i : ℕ)
          → (id == f) ≡ true
          → related (from_node f) (HashMap.get g.relationships i) ≡ false
      at f i equal =
          ap (λ k. related (from_node k) (HashMap.get g.relationships i))
            (sym ((==_iff id f).0 equal))
          ∙ alone i

      dropped : (drop_node id g).indexes.outgoing_by_type ≡ g.indexes.outgoing_by_type
      dropped = elim (Option-cases (HashMap.get g.nodes id)) [
        | inl missing ↦ rw (drop_node, missing) refl
        | inr (node, found) ↦ rw (drop_node, found) (removed_types node g.indexes)
      ]
