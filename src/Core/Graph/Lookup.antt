-- ===== src/Core/Graph/Lookup.antt =====
-- crates/neo4r-core/src/graph.rs: lookups of nodes by label and by property, after any commands.
use neo4r.Core.Model.{Value}
use neo4r.Core.Command.{Command}
use neo4r.Core.Index.{LabelPropertyKey, property_key_of, label_property_eq}
use neo4r.Core.Index.Members.{
  member, in_set, has_label_key, has_property_key, index_node-label_nodes,
  remove_node_index-label_nodes, index_node-label_property_nodes,
  remove_node_index-label_property_nodes,
}
use neo4r.Core.Graph.{GraphState, new_graph, apply}
use neo4r.Core.Graph.Reads.{sorted_ids, node_ids_by_label, node_ids_by_label_property}
use neo4r.Core.Graph.Tracking.{Tracker, tested}
use neo4r.Core.Graph.Exactness.{Exact, apply-Exact}
use neo4r.Prelude.Equality.{nat_eq, string_eq}
use neo4r.Prelude.Distinct.{contains-sort}
use neo4r.Prelude.HashMap
use neo4r.Prelude.IdSet
use neo4r.Prelude.IdSet.{IdSet}
use neo4r.Prelude.{List, Option, String, [], none, refl, some, ℕ, ◌∙◌, ◌∷◌, ◌≡◌}

-- The graph after a list of commands, whatever each of them answers.
unfoldable pub replay : List Command → GraphState → GraphState
replay [] g = g
replay (c ∷ cs) g = replay cs (apply c g).1

replay-Exact :
    (t : Tracker) (cs : List Command) (g : GraphState) → Exact t g → Exact t (replay cs g)
unfolding replay
replay-Exact t [] g v = v
replay-Exact t (c ∷ cs) g v = replay-Exact t cs (apply c g).1 (apply-Exact t c g v)

new_graph-Exact : (t : Tracker) → Exact t new_graph
new_graph-Exact t = record { ids = λ n node h. cc h; answers = t.empty }

-- What holds of the nodes of a graph that commands built.
pub replayed-Exact : (t : Tracker) (cs : List Command) → Exact t (replay cs new_graph)
replayed-Exact t cs = replay-Exact t cs new_graph (new_graph-Exact t)

pub contains-sorted_ids : (o : Option IdSet) (n : ℕ) → IdSet.contains (sorted_ids o) n ≡ in_set o n
unfolding sorted_ids
contains-sorted_ids none n = refl
contains-sorted_ids (some s) n = contains-sort s n

abbrev by_label : String → Tracker
by_label label = record {
  test = λ node. has_label_key label node.labels;
  view = λ (labels, _) n. member labels label n;
  empty = λ n. refl;
  adds = λ node ix n. index_node-label_nodes node ix n label;
  drops = λ node ix n. remove_node_index-label_nodes node ix n label;
}

abbrev by_property : LabelPropertyKey → Tracker
by_property key = record {
  test = λ node. has_property_key key node.labels node.properties;
  view = λ (_, properties) n. member properties key n;
  empty = λ n. refl;
  adds = λ node ix n. index_node-label_property_nodes node ix n key;
  drops = λ node ix n. remove_node_index-label_property_nodes node ix n key;
}

-- After any commands on an empty graph, failed ones included, the lookup by a label lists a node id
-- exactly if the graph has a node of that id that carries the label.
pub label_lookup_exact :
    (cs : List Command) (label : String) (n : ℕ)
    → IdSet.contains (node_ids_by_label (replay cs new_graph) label) n
      ≡ tested (λ node. has_label_key label node.labels) (HashMap.get (replay cs new_graph).nodes n)
unfolding node_ids_by_label
label_lookup_exact cs label n =
    contains-sorted_ids (HashMap.get (replay cs new_graph).indexes.label_nodes label) n
    ∙ (replayed-Exact (by_label label) cs).answers n

-- After any commands on an empty graph, failed ones included, the lookup by a label and a property
-- lists a node id exactly if the graph has a node of that id that carries the label and has a value
-- with the same value key under the property's name.
pub property_lookup_exact :
    (cs : List Command) (label name : String) (value : Value) (n : ℕ)
    → IdSet.contains (node_ids_by_label_property (replay cs new_graph) label name value) n
      ≡ tested
          (λ node.
            has_property_key (property_key_of label (name, value)) node.labels node.properties)
          (HashMap.get (replay cs new_graph).nodes n)
unfolding node_ids_by_label_property
property_lookup_exact cs label name value n =
    contains-sorted_ids
      (HashMap.get (replay cs new_graph).indexes.label_property_nodes
        (property_key_of label (name, value)))
      n
    ∙ (replayed-Exact (by_property (property_key_of label (name, value))) cs).answers n
