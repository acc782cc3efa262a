-- ===== src/Core/Graph/Tests.antt =====
-- The graph's theorems at concrete commands.
use neo4r.Core.Model.{Value}
use neo4r.Core.Command.{
  delete_node, Command, create_node, create_relationship, upsert_boundary_node, set_node_property,
  remove_node_label,
}
use neo4r.Core.Index.{push_relationship_id, type_key, relationship_type_eq, property_key_of}
use neo4r.Core.Index.Members.{member, has_label_key, has_property_key}
use neo4r.Core.Graph.{
  ensure_node_exists, upsert_boundary, new_graph, apply, create, relate, attach, set_property,
  remove_label, replace_node,
}
use neo4r.Core.Graph.Boundary.{carries}
use neo4r.Core.Graph.BoundaryLookup.{boundary_lookup_exact}
use neo4r.Core.Graph.ReadBack.{returned, outgoing_returns, incoming_returns}
use neo4r.Core.Graph.Reads.{
  outgoing, outgoing_by_type, incoming, listed, boundary_node_ids_by_label_property,
  node_ids_by_label, node_ids_by_label_property,
}
use neo4r.Core.Graph.Tracking.{tested}
use neo4r.Core.Graph.Edges.{related, to_node, from_node, of_type}
use neo4r.Core.Graph.Relations.{outgoing_exact, delete_node_is_complete}
use neo4r.Core.Graph.Lookup.{replay, label_lookup_exact, property_lookup_exact}
use neo4r.Prelude.Equality.{nat_eq, string_eq}
use neo4r.Prelude.HashMap
use neo4r.Prelude.IdSet
use neo4r.Prelude.{List, [], false, none, ok, refl, true, ◌&&◌, ◌∷◌, ◌≡◌}

abbrev people : List Command
people =
    create_node 1 ("Person" ∷ []) (("name", Value.string "Ann") ∷ [])
    ∷ create_node 2 ("Person" ∷ []) []
    ∷ create_node 2 ("Person" ∷ []) []
    ∷ create_relationship 10 1 2 "KNOWS" []
    ∷ set_node_property 1 "name" (Value.string "Bea")
    ∷ remove_node_label 2 "Person"
    ∷ []

label_lookup_exact_example :
    IdSet.contains (node_ids_by_label (replay people new_graph) "Person") 1
    ≡ tested
        (λ node. has_label_key "Person" node.labels)
        (HashMap.get (replay people new_graph).nodes 1)
label_lookup_exact_example = label_lookup_exact people "Person" 1

property_lookup_exact_example :
    IdSet.contains
      (node_ids_by_label_property (replay people new_graph) "Person" "name" (Value.string "Bea"))
      1
    ≡ tested
        (λ node.
          has_property_key
            (property_key_of "Person" ("name", Value.string "Bea"))
            node.labels
            node.properties)
        (HashMap.get (replay people new_graph).nodes 1)
property_lookup_exact_example = property_lookup_exact people "Person" "name" (Value.string "Bea") 1

outgoing_exact_example :
    (member (replay people new_graph).outgoing 1 10
      ≡ related (from_node 1) (HashMap.get (replay people new_graph).relationships 10))
    × (member (replay people new_graph).indexes.outgoing_by_type (type_key 1 "KNOWS") 10
        ≡ related
            (of_type (type_key 1 "KNOWS"))
            (HashMap.get (replay people new_graph).relationships 10))
outgoing_exact_example = outgoing_exact people 1 10 "KNOWS"

delete_node_is_complete_example :
    ((apply (delete_node 1) (replay people new_graph)).0 ≡ ok tt)
    × (HashMap.get (apply (delete_node 1) (replay people new_graph)).1.nodes 1 ≡ none)
    × (related
          (from_node 1)
          (HashMap.get (apply (delete_node 1) (replay people new_graph)).1.relationships 10)
        ≡ false)
unfolding replay apply create relate attach set_property remove_label replace_node
delete_node_is_complete_example = delete_node_is_complete people 1 10 refl

abbrev copies : List Command
copies =
    upsert_boundary_node 7 2 ("Person" ∷ []) (("name", Value.string "Ann") ∷ []) 1
    ∷ create_node 1 ("Person" ∷ []) []
    ∷ create_relationship 10 1 7 "KNOWS" []
    ∷ upsert_boundary_node 7 2 ("Person" ∷ []) (("name", Value.string "Bea") ∷ []) 2
    ∷ []

boundary_lookup_exact_example :
    IdSet.contains
      (boundary_node_ids_by_label_property
        (replay copies new_graph)
        "Person"
        "name"
        (Value.string "Ann"))
      7
    ≡ carries
        (property_key_of "Person" ("name", Value.string "Ann"))
        (HashMap.get (replay copies new_graph).boundary_nodes 7)
boundary_lookup_exact_example = boundary_lookup_exact copies "Person" "name" (Value.string "Ann") 7

outgoing_returns_example :
    (returned (outgoing (replay people new_graph) 1) 10 ≡ (
      HashMap.contains_key (replay people new_graph).nodes 1
      && related (from_node 1) (HashMap.get (replay people new_graph).relationships 10)))
    × (returned (outgoing_by_type (replay people new_graph) 1 "KNOWS") 10 ≡ (
        HashMap.contains_key (replay people new_graph).nodes 1
        && related
            (of_type (type_key 1 "KNOWS"))
            (HashMap.get (replay people new_graph).relationships 10)))
outgoing_returns_example = outgoing_returns people 1 10 "KNOWS"

incoming_found : returned (incoming (replay people new_graph) 2) 10 ≡ true
unfolding replay apply create relate attach set_property remove_label replace_node
    push_relationship_id incoming listed ensure_node_exists
incoming_found = refl

incoming_returns_example :
    (HashMap.contains_key (replay people new_graph).nodes 2 ≡ true)
    × (related (to_node 2) (HashMap.get (replay people new_graph).relationships 10) ≡ true)
incoming_returns_example = incoming_returns people 2 10 incoming_found

-- A boundary node that becomes a node after a relationship to it: the relationship is in the graph,
-- and the read of the node's incoming relationships does not return it.
promoted_misses :
    (returned (incoming (apply (create_node 7 [] []) (replay copies new_graph)).1 7) 10 ≡ false)
    × (related
          (to_node 7)
          (HashMap.get (apply (create_node 7 [] []) (replay copies new_graph)).1.relationships 10)
        ≡ true)
unfolding replay apply create relate attach upsert_boundary incoming listed ensure_node_exists
promoted_misses = (refl, refl)
