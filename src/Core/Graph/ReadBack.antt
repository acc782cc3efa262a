-- ===== src/Core/Graph/ReadBack.antt =====
-- crates/neo4r-core/src/graph.rs: what the reads of a node's outgoing relationships return.
use neo4r.Core.Model.{Relationship}
use neo4r.Core.Errors.{GraphError}
use neo4r.Core.Command.{Command}
use neo4r.Core.Index.{type_key, relationship_type_eq}
use neo4r.Core.Index.Members.{member}
use neo4r.Core.Graph.{GraphState, new_graph, ensure_node_exists}
use neo4r.Core.Graph.Reads.{incoming, read_at, listed, outgoing, outgoing_by_type}
use neo4r.Core.Graph.Lookup.{replay}
use neo4r.Core.Graph.Edges.{to_node, Edges, related, from_node, of_type}
use neo4r.Core.Graph.Relations.{replayed-Edges}
use neo4r.Prelude.Equality.{Eq, nat_eq, string_eq}
use neo4r.Prelude.HashMap
use neo4r.Prelude.HashMap.{HashMap}
use neo4r.Prelude.IdSet
use neo4r.Prelude.{
  ==_iff, Bool, List, Option, Option-cases, Result, String, [], and_parts, any, ap, arith, err,
  false, filter_map, inl, inr, none, ok, refl, some, sym, true, ℕ, ◌&&◌, ◌==◌, ◌∙◌, ◌∷◌, ◌≡◌,
}

-- Whether a read returned a relationship of an id.
abbrev pub returned : Result GraphError (List Relationship) → ℕ → Bool
returned (ok rs) i = any (λ r. r.id == i) rs
returned (err e) i = false

module _ (g : GraphState) (v : Edges g) where
  -- The relationships behind a list of ids are those of the list that the graph has.
  any-filter_map :
      (ids : List ℕ) (i : ℕ)
      → any (λ r. r.id == i) (filter_map (HashMap.get g.relationships) ids)
        ≡ (IdSet.contains ids i && HashMap.contains_key g.relationships i)
  any-filter_map [] i = refl
  any-filter_map (id ∷ ids) i = elim (Option-cases (HashMap.get g.relationships id)) [
    | inl missing ↦
        rw (filter_map, missing)
          (ground
            (arith, any-filter_map ids i, λ (same_id : (id == i) ≡ true). at same_id ∙ missing))
    | inr (r, found) ↦
        rw (filter_map, found)
          (ground (
            arith,
            any-filter_map ids i,
            v.ids id r found,
            λ (same_id : (id == i) ≡ true). at same_id ∙ found,
          ))
  ]
    where
      at : (id == i) ≡ true → HashMap.get g.relationships i ≡ HashMap.get g.relationships id
      at equal = ap (HashMap.get g.relationships) (sym ((==_iff id i).0 equal))

  any-listed :
      {K : Type 0} ⦃e : Eq K⦄ (m : HashMap K (List ℕ)) (key : K) (i : ℕ)
      → any (λ r. r.id == i) (listed g m key)
        ≡ (member m key i && HashMap.contains_key g.relationships i)
  unfolding listed
  any-listed m key i = elim (Option-cases (HashMap.get m key)) [
    | inl missing ↦ rw (listed, missing) refl
    | inr (ids, found) ↦ rw (listed, found) (any-filter_map ids i)
  ]

  returned-read :
      {K : Type 0} ⦃e : Eq K⦄ (m : HashMap K (List ℕ)) (key : K) (f i : ℕ)
      → returned (read_at g f (listed g m key)) i ≡ (
          HashMap.contains_key g.nodes f
          && (member m key i && HashMap.contains_key g.relationships i))
  unfolding ensure_node_exists
  returned-read m key f i = elim (Option-cases (HashMap.get g.nodes f)) [
    | inl missing ↦ rw (read_at, ensure_node_exists, HashMap.contains_key, missing) refl
    | inr (node, there) ↦
        rw (read_at, ensure_node_exists, HashMap.contains_key, there) (any-listed m key i)
  ]

related_there :
    (test : Relationship → Bool) (o : Option Relationship)
    → (related test o && elim o [ none ↦ false | some _ ↦ true ]) ≡ related test o
related_there test none = refl
related_there test (some r) = ground arith

-- After any commands on an empty graph, failed ones included, the read of a node's outgoing
-- relationships returns one of an id exactly if the graph has the node, and has a relationship of
-- that id that starts at the node, and the read by a type exactly if it also has the type.
pub outgoing_returns :
    (cs : List Command) (f i : ℕ) (rel_type : String)
    → (returned (outgoing (replay cs new_graph) f) i ≡ (
        HashMap.contains_key (replay cs new_graph).nodes f
        && related (from_node f) (HashMap.get (replay cs new_graph).relationships i)))
      × (returned (outgoing_by_type (replay cs new_graph) f rel_type) i ≡ (
          HashMap.contains_key (replay cs new_graph).nodes f
          && related
              (of_type (type_key f rel_type))
              (HashMap.get (replay cs new_graph).relationships i)))
unfolding outgoing outgoing_by_type
outgoing_returns cs f i rel_type =
    let g = replay cs new_graph in
    let v = replayed-Edges cs in
    let there = λ (test : Relationship → Bool).
      ap (λ b. HashMap.contains_key g.nodes f && b)
        (related_there test (HashMap.get g.relationships i)) in
    let guard = λ (b : Bool).
      HashMap.contains_key g.nodes f && (b && HashMap.contains_key g.relationships i) in
    (
      returned-read g v g.outgoing f f i ∙ ap guard (v.out f i) ∙ there (from_node f),
      returned-read g v g.indexes.outgoing_by_type (type_key f rel_type) f i
          ∙ ap guard (v.typed (type_key f rel_type) i)
          ∙ there (of_type (type_key f rel_type)),
    )

-- After any commands on an empty graph, failed ones included, a relationship that the read of a
-- node's incoming relationships returns is one that the graph has and that ends at the node, and
-- the graph has the node.
pub incoming_returns :
    (cs : List Command) (f i : ℕ)
    → returned (incoming (replay cs new_graph) f) i ≡ true
    → (HashMap.contains_key (replay cs new_graph).nodes f ≡ true)
      × (related (to_node f) (HashMap.get (replay cs new_graph).relationships i) ≡ true)
unfolding incoming
incoming_returns cs f i found =
    let g = replay cs new_graph in
    let v = replayed-Edges cs in
    let (node_there, listed_there) =
      and_parts (HashMap.contains_key g.nodes f) _
        (sym (returned-read g v g.incoming f f i) ∙ found) in
    (node_there, v.inc f i (and_parts (member g.incoming f i) _ listed_there).0)
