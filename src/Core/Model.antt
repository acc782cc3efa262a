-- ===== src/Core/Model.antt =====
-- crates/neo4r-core/src/model.rs: values, nodes and relationships. A float stands for its bits.
use Prim.Native.String.{compare}
use Prim.Native.Nat.{Ordering}
use native.Mathlib.Decide.{ℕ_discrete}
use neo4r.Prelude.Equality.{string_discrete}
use neo4r.Prelude.{Bool, List, String, ℕ}

-- An `i64`: `neg n` is -(n + 1).
pub data Int64 : Type 0 where
  pos : ℕ → Int64
  neg : ℕ → Int64

-- The `Properties` of a map are the entries of a hash map, in any order.
mutual
  pub data Value : Type 0 where
    null : Value
    bool : Bool → Value
    int : Int64 → Value
    float : ℕ → Value
    string : String → Value
    vector : List ℕ → Value
    map_of : Entries → Value

  pub data Entries : Type 0 where
    end : Entries
    entry : String → Value → Entries → Entries

mutual
  pub data ValueKey : Type 0 where
    null : ValueKey
    bool : Bool → ValueKey
    int : Int64 → ValueKey
    float : ℕ → ValueKey
    string : String → ValueKey
    vector : List ℕ → ValueKey
    map_of : KeyEntries → ValueKey

  pub data KeyEntries : Type 0 where
    end : KeyEntries
    entry : String → ValueKey → KeyEntries → KeyEntries

-- `sort_by` on the keys, by insertion.
insert_sorted : String → ValueKey → KeyEntries → KeyEntries
insert_sorted k v KeyEntries.end = KeyEntries.entry k v KeyEntries.end
insert_sorted k v (KeyEntries.entry j w rest) = elim (compare k j) [
  | Ordering.gt ↦ KeyEntries.entry j w (insert_sorted k v rest)
  | _ ↦ KeyEntries.entry k v (KeyEntries.entry j w rest)
]

unfoldable mutual
  unfolding insert_sorted

  pub value_key : Value → ValueKey
  value_key Value.null = ValueKey.null
  value_key (Value.bool b) = ValueKey.bool b
  value_key (Value.int n) = ValueKey.int n
  value_key (Value.float bits) = ValueKey.float bits
  value_key (Value.string s) = ValueKey.string s
  value_key (Value.vector v) = ValueKey.vector v
  value_key (Value.map_of es) = ValueKey.map_of (entries_key es)

  pub entries_key : Entries → KeyEntries
  entries_key Entries.end = KeyEntries.end
  entries_key (Entries.entry k v rest) = insert_sorted k (value_key v) (entries_key rest)

-- `Properties`, at the top of a node: an association list by property name.
abbrev pub Properties : Type 0
Properties = List (String × Value)

pub record Node : Type 0 where
  pub id : ℕ
  pub labels : List String
  pub properties : Properties

pub record Relationship : Type 0 where
  pub id : ℕ
  pub source : ℕ
  pub target : ℕ
  pub rel_type : String
  pub properties : Properties

-- `PartialEq` of `ValueKey`, which is derived.
pub value_key_discrete : Discrete ValueKey
value_key_discrete = hlevel (ℕ_discrete, string_discrete)
