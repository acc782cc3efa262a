-- ===== src/Storage/Codec/Entries.antt =====
-- crates/neo4r-storage/src/codec.rs: log entries, in the present and the two older formats.
use neo4r.Core.Clock.{stamp}
use neo4r.Core.Command.{Command, LogEntry, new_entry}
use neo4r.Storage.Errors.{StorageError}
use neo4r.Storage.Codec.Bytes.{Reader, as_u32, write_u32, write_u64, read_exact, read_u32, read_u64}
use neo4r.Storage.Codec.Commands.{encode_command, decode_command, finish}
use neo4r.Prelude.{
  List, Option, Result, [], if◌then◌else◌, length, none, pure, some, ℕ, ◌++◌, ◌==◌, ◌>>=◌, ◌>>◌,
  ◌∷◌,
}

-- b"N4RLE3\n" and b"N4RLE2\n"
abbrev pub log_entry_v3_magic : List ℕ
log_entry_v3_magic = b'N' ∷ b'4' ∷ b'R' ∷ b'L' ∷ b'E' ∷ b'3' ∷ 10 ∷ []

abbrev pub log_entry_v2_magic : List ℕ
log_entry_v2_magic = b'N' ∷ b'4' ∷ b'R' ∷ b'L' ∷ b'E' ∷ b'2' ∷ 10 ∷ []

unfoldable pub encode_log_entry : LogEntry → List ℕ
unfolding encode_command
encode_log_entry e =
    let command = encode_command e.command in
    log_entry_v3_magic
    ++ (write_u64 e.shard_id
        ++ (write_u64 e.term
            ++ (write_u64 e.index
                ++ (write_u64 e.origin_server_id
                    ++ (write_u64 e.config_version
                        ++ (write_u64 e.timestamp.physical_ms
                            ++ (write_u32 e.timestamp.logical
                                ++ (write_u32 (as_u32 (length command)) ++ command))))))))

abbrev pub decoded : Result StorageError Command → Reader Command
decoded r input = (r, input)

-- the command of so many bytes, to the end of the input
unfoldable pub read_framed : Reader Command
unfolding read_u32 read_exact finish decode_command
read_framed = do
  command_len ← read_u32
  bytes ← read_exact command_len
  command ← decoded (decode_command bytes)
  finish
  pure command

unfoldable pub read_entry_v3 : Reader LogEntry
unfolding read_u64 read_u32 read_framed
read_entry_v3 = do
  shard_id ← read_u64
  term ← read_u64
  index ← read_u64
  origin_server_id ← read_u64
  config_version ← read_u64
  physical_ms ← read_u64
  logical ← read_u32
  command ← read_framed
  pure (record {
    shard_id = shard_id;
    term = term;
    index = index;
    origin_server_id = origin_server_id;
    config_version = config_version;
    timestamp = stamp physical_ms logical;
    command = command;
  })

unfoldable pub read_entry_v2 : Reader LogEntry
unfolding read_u64 read_u32 read_framed
read_entry_v2 = do
  shard_id ← read_u64
  term ← read_u64
  index ← read_u64
  physical_ms ← read_u64
  logical ← read_u32
  command ← read_framed
  pure (record (new_entry shard_id term index command) { timestamp = stamp physical_ms logical })

unfoldable pub read_entry_v1 : Reader LogEntry
unfolding read_u64 read_framed
read_entry_v1 = do
  shard_id ← read_u64
  term ← read_u64
  index ← read_u64
  command ← read_framed
  pure (new_entry shard_id term index command)

-- `strip_prefix`
unfoldable pub strip_prefix : List ℕ → List ℕ → Option (List ℕ)
strip_prefix [] input = some input
strip_prefix (p ∷ prefix) [] = none
strip_prefix (p ∷ prefix) (b ∷ input) = if b == p then strip_prefix prefix input else none

unfoldable pub decode_log_entry : List ℕ → Result StorageError LogEntry
unfolding strip_prefix read_entry_v1 read_entry_v2 read_entry_v3
decode_log_entry input = elim (strip_prefix log_entry_v3_magic input) [
  | some payload ↦ (read_entry_v3 payload).0
  | none ↦ elim (strip_prefix log_entry_v2_magic input) [
    | some payload ↦ (read_entry_v2 payload).0
    | none ↦ (read_entry_v1 input).0
  ]
]
