-- ===== src/Storage/Codec/RoundTrip.antt =====
-- crates/neo4r-storage/src/codec.rs: commands and log entries come back from their bytes.
use neo4r.Core.Model.{Properties}
use neo4r.Core.Command.{
  Command, create_node, create_relationship, upsert_boundary_node, set_node_property,
  remove_node_property, add_node_label, remove_node_label, set_relationship_property,
  remove_relationship_property, delete_relationship, delete_node, cluster_config_change,
}
use neo4r.Storage.Codec.Bytes.{
  Reader, as_u32, concat, write_u32, write_u64, write_string, write_strings, read_u8, read_u32,
  read_u64, read_string, read_strings, read_many,
}
use neo4r.Storage.Codec.Values.{write_value, write_properties, read_properties, second}
use neo4r.Storage.Codec.Commands.{
  write_routing_table, read_routing_table, encode_command, read_command, finish, read_whole,
  decode_command,
}
use neo4r.Storage.Codec.Trips.{
  Fits, Reads, Reads-bind, Reads-last, concat-Reads, count-Reads, write_u8-Reads, write_u64-Reads,
  write_string-Reads, write_strings-Reads,
}
use neo4r.Storage.Codec.Canonical.{FitsProperties, canonical_value, canonical_properties}
use neo4r.Storage.Codec.Sorted.{get-sort_pairs}
use neo4r.Storage.Codec.Depth.{properties_read}
use neo4r.Storage.Codec.CommandTrips.{
  IsU64, FitsCommand, canonical_command, id-Reads, id_string-Reads, property-Reads, table-Reads,
}
use mathlib.Core.List.{append-nil}
use mathlib.Core.Option
use neo4r.Prelude.Equality.{same, string_eq}
use neo4r.Prelude.HashMap
use neo4r.Prelude.{
  All-map, Bool-cases, List, Method, Result, String, [], and_then, ap, arith, err, inl, inr, length,
  length-append, map, ok, pure, refl, sym, ℕ, ◌++◌, ◌>>=◌, ◌>>◌, ◌∙◌, ◌∷◌, ◌≡◌, ◌≤◌,
}

-- A command's bytes, from the tag on.
tagged :
    (fuel tag : ℕ) (payload : List ℕ) (c : Command)
    → Reads (read_command fuel tag) payload c
    → Reads (read_u8 >>= read_command fuel) (tag ∷ payload) c
tagged fuel tag payload c h =
    Reads-bind read_u8 (read_command fuel) (tag ∷ []) payload tag c (write_u8-Reads tag) h

number_first :
    (f : ℕ → Reader Command) (x : ℕ) (tail : List ℕ) (c : Command)
    → IsU64 x
    → Reads (f x) tail c
    → Reads (read_u64 >>= f) (write_u64 x ++ tail) c
number_first f x tail c h next =
    Reads-bind read_u64 f (write_u64 x) tail x c (write_u64-Reads x h) next

text_first :
    (f : String → Reader Command) (s : String) (tail : List ℕ) (c : Command)
    → Fits s
    → Reads (f s) tail c
    → Reads (read_string >>= f) (write_string s ++ tail) c
text_first f s tail c h next =
    Reads-bind read_string f (write_string s) tail s c (write_string-Reads s h) next

properties_last :
    (fuel : ℕ) (make : Properties → Command) (p : Properties)
    → length (write_properties p) ≤ fuel
    → FitsProperties p
    → Reads
        (read_properties fuel >>= λ x. pure (make x))
        (write_properties p)
        (make (canonical_properties p))
properties_last fuel make p enough h =
    Reads-last (read_properties fuel) make (write_properties p) (canonical_properties p)
      (properties_read p fuel enough h)

body-Reads :
    (fuel : ℕ) (c : Command)
    → length (encode_command c) ≤ fuel
    → FitsCommand c
    → Reads (read_u8 >>= read_command fuel) (encode_command c) (canonical_command c)
unfolding encode_command read_command canonical_command
body-Reads fuel (create_node id labels properties) enough h =
    let made = create_node id labels (canonical_properties properties) in
    let tail = write_properties properties in
    tagged fuel 1 (write_u64 id ++ (write_strings labels ++ tail)) made (
      number_first _ id (write_strings labels ++ tail) made h.0 (
        Reads-bind read_strings _ (write_strings labels) tail labels made
          (write_strings-Reads labels h.1 h.2)
          (properties_last fuel (create_node id labels) properties
            (omega (arith, length-append {0})) h.3)))
body-Reads fuel (set_node_property id key value) enough h =
    tagged fuel 3 (write_u64 id ++ (write_string key ++ write_value value)) _
      (property-Reads fuel set_node_property id key value (omega (arith, length-append {0})) h)
body-Reads fuel (remove_node_property id key) enough h =
    tagged fuel 8 (write_u64 id ++ write_string key) _
      (id_string-Reads remove_node_property id key h)
body-Reads fuel (add_node_label id label) enough h =
    tagged fuel 10 (write_u64 id ++ write_string label) _
      (id_string-Reads add_node_label id label h)
body-Reads fuel (remove_node_label id label) enough h =
    tagged fuel 11 (write_u64 id ++ write_string label) _
      (id_string-Reads remove_node_label id label h)
body-Reads fuel (set_relationship_property id key value) enough h =
    tagged fuel 4 (write_u64 id ++ (write_string key ++ write_value value)) _ (
      property-Reads fuel set_relationship_property id key value (omega (arith, length-append {0}))
        h)
body-Reads fuel (remove_relationship_property id key) enough h =
    tagged fuel 9 (write_u64 id ++ write_string key) _
      (id_string-Reads remove_relationship_property id key h)
body-Reads fuel (delete_relationship id) enough h =
    tagged fuel 5 (write_u64 id) _ (id-Reads delete_relationship id h)
body-Reads fuel (delete_node id) enough h =
    tagged fuel 6 (write_u64 id) _ (id-Reads delete_node id h)
body-Reads fuel (create_relationship id source target rel_type properties) enough h =
    let made = create_relationship id source target rel_type (canonical_properties properties) in
    let named = write_string rel_type ++ write_properties properties in
    tagged fuel 2 (write_u64 id ++ (write_u64 source ++ (write_u64 target ++ named))) made (
      number_first _ id (write_u64 source ++ (write_u64 target ++ named)) made h.0 (
        number_first _ source (write_u64 target ++ named) made h.1 (
          number_first _ target named made h.2 (
            text_first _ rel_type (write_properties properties) made h.3 (
              properties_last fuel (create_relationship id source target rel_type) properties
                (omega (arith, length-append {0})) h.4)))))
body-Reads fuel (upsert_boundary_node id owner_shard labels properties version) enough h =
    let made =
      upsert_boundary_node id owner_shard labels (canonical_properties properties) version in
    let tail = write_properties properties ++ write_u64 version in
    tagged fuel 7 (write_u64 id ++ (write_u64 owner_shard ++ (write_strings labels ++ tail))) made (
      number_first _ id (write_u64 owner_shard ++ (write_strings labels ++ tail)) made h.0 (
        number_first _ owner_shard (write_strings labels ++ tail) made h.1 (
          Reads-bind read_strings _ (write_strings labels) tail labels made
            (write_strings-Reads labels h.2 h.3)
            (Reads-bind (read_properties fuel) _ (write_properties properties) (write_u64 version)
              (canonical_properties properties) made
              (properties_read properties fuel (omega (arith, length-append {0})) h.4)
              (id-Reads
                (upsert_boundary_node id owner_shard labels (canonical_properties properties))
                version h.5)))))
body-Reads fuel (cluster_config_change phase description voters routing_table) enough h =
    let made = cluster_config_change phase description voters routing_table in
    let count = write_u32 (as_u32 (length voters)) in
    let table = write_routing_table routing_table in
    let tail = count ++ (concat (map write_u64 voters) ++ table) in
    tagged fuel 12 (write_string phase ++ (write_string description ++ tail)) made (
      text_first _ phase (write_string description ++ tail) made h.0 (
        text_first _ description tail made h.1 (
          Reads-bind read_u32 _ count (concat (map write_u64 voters) ++ table) (length voters) made
            (count-Reads (length voters) h.2)
            (Reads-bind (read_many read_u64 (length voters)) _ (concat (map write_u64 voters)) table
              voters made
              (concat-Reads read_u64 write_u64 voters (All-map IsU64 _ write_u64-Reads voters h.3))
              (Reads-last read_routing_table (cluster_config_change phase description voters) table
                routing_table (table-Reads routing_table h.4))))))

and_then_assoc :
    {E S A B C : Type 0} (o : Result E A × S) (f : A → Method E S B) (g : B → Method E S C)
    → and_then o (λ a. f a >>= g) ≡ and_then (and_then o f) g
and_then_assoc (ok a, s) f g = refl
and_then_assoc (err e, s) f g = refl

-- The bytes of a command whose parts have sizes that the format can hold decode to the command, with
-- its properties and all maps in them in the order of the keys.
pub decode-encode_command :
    (c : Command) → FitsCommand c → decode_command (encode_command c) ≡ ok (canonical_command c)
unfolding decode_command read_whole finish
decode-encode_command c h =
    let input = encode_command c in
    let fuel = length input in
    let body =
      ap (read_u8 >>= read_command fuel) (sym (append-nil input))
      ∙ body-Reads fuel c (omega arith) h [] in
    ap (λ o. o.0)
      (and_then_assoc (read_u8 input) (read_command fuel) (λ x. finish >> pure x)
        ∙ ap (λ o. and_then o (λ x. finish >> pure x)) body)

get-map-second :
    {A B : Type 0} (f : A → B) (xs : List (String × A)) (k : String)
    → HashMap.get (map (second f) xs) k ≡ Option.map f (HashMap.get xs k)
get-map-second f [] k = refl
get-map-second f ((j, v) ∷ xs) k = elim (Bool-cases (same j k)) [
  | inl found ↦ rw found refl
  | inr other ↦ rw other (get-map-second f xs k)
]

-- Putting properties in the order of their keys, and all maps in them, changes no lookup but for the
-- order of the maps in what it finds.
pub get-canonical_properties :
    (p : Properties) (k : String)
    → HashMap.get (canonical_properties p) k ≡ Option.map canonical_value (HashMap.get p k)
unfolding canonical_properties
get-canonical_properties p k =
    get-sort_pairs (map (second canonical_value) p) k ∙ get-map-second canonical_value p k
