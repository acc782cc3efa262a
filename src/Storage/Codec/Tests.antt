-- ===== src/Storage/Codec/Tests.antt =====
-- The codec's theorems at concrete commands.
use neo4r.Core.Model.{Properties, Value, Entries, Int64}
use neo4r.Core.Clock.{stamp}
use neo4r.Core.Command.{Command, LogEntry, new_entry, create_node, set_node_property}
use neo4r.Storage.Codec.Commands.{encode_command}
use neo4r.Storage.Codec.Entries.{encode_log_entry, decode_log_entry}
use neo4r.Storage.Codec.CommandTrips.{FitsCommand, canonical_command}
use neo4r.Storage.Codec.EntryTrips.{
  FitsFrame, decode-encode_log_entry, older_entries_decode, entry_v1, v1,
}
use neo4r.Storage.Codec.Canonical.{FitsValue}
use neo4r.Prelude.Utf8.{as_bytes}
use neo4r.Storage.Codec.Trips.{Fits}
use neo4r.Prelude.BigEndian.{to_be_bytes}
use neo4r.Prelude.Equality.{string_eq}
use neo4r.Prelude.{All, [], arith, ok, refl, ◌∷◌, ◌≡◌}

abbrev born : Properties
born =
    ("name", Value.string "Ann")
    ∷ ("born", Value.map_of (Entries.entry "year" (Value.int (Int64.pos 1990)) Entries.end))
    ∷ []

abbrev ann : Command
ann = create_node 7 ("Person" ∷ []) born

ann_fits : FitsCommand ann
unfolding FitsValue as_bytes
ann_fits = (omega arith, omega arith, omega arith, (omega arith, ((refl, tt), (tt, tt)), nested))
  where
    nested : All (λ (k, v). Fits k × FitsValue v) born
    nested = (omega arith, ((omega arith, (omega arith, (tt, tt), omega arith)), tt))

abbrev rename : Command
rename = set_node_property 7 "name" (Value.string "Bea")

rename_fits : FitsFrame rename
unfolding FitsValue as_bytes encode_command to_be_bytes
rename_fits = omega arith

abbrev renamed : LogEntry
renamed = record {
  shard_id = 3;
  term = 5;
  index = 8;
  origin_server_id = 12;
  config_version = 7;
  timestamp = stamp 1234 2;
  command = rename;
}

decode-encode_log_entry_example :
    decode_log_entry (encode_log_entry renamed)
    ≡ ok (record renamed { command = canonical_command rename })
decode-encode_log_entry_example = decode-encode_log_entry renamed (
  omega arith,
  omega arith,
  omega arith,
  omega arith,
  omega arith,
  omega arith,
  omega arith,
  rename_fits,
)

older_entries_decode_example :
    decode_log_entry (entry_v1 3 5 8 rename) ≡ ok (new_entry 3 5 8 (canonical_command rename))
older_entries_decode_example =
    older_entries_decode v1 3 5 8 (stamp 1234 2) rename (omega arith) (omega arith) (omega arith)
      (omega arith) rename_fits
