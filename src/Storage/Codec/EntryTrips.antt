-- ===== src/Storage/Codec/EntryTrips.antt =====
-- crates/neo4r-storage/src/codec.rs: log entries come back from their bytes, also from those of the
-- two older formats.
use neo4r.Core.Clock.{HybridTimestamp, stamp}
use neo4r.Core.Command.{Command, LogEntry, new_entry}
use neo4r.Storage.Errors.{StorageError}
use neo4r.Storage.Codec.Bytes.{Reader, as_u32, write_u32, write_u64, read_exact, read_u32, read_u64}
use neo4r.Storage.Codec.Commands.{encode_command, decode_command, finish}
use neo4r.Storage.Codec.Entries.{
  log_entry_v2_magic, log_entry_v3_magic, encode_log_entry, decoded, read_framed, read_entry_v1,
  read_entry_v2, read_entry_v3, strip_prefix, decode_log_entry,
}
use neo4r.Storage.Codec.Trips.{count-Reads, read_exact-Reads, write_u32-Reads, write_u64-Reads}
use neo4r.Storage.Codec.CommandTrips.{IsU64, FitsCommand, canonical_command}
use neo4r.Storage.Codec.RoundTrip.{decode-encode_command}
use mathlib.Core.List.{append-nil}
use neo4r.Prelude.BigEndian.{to_be_bytes}
use neo4r.Prelude.{
  List, [], and_then, ap, arith, false, length, none, ok, pure, refl, sym, ℕ, ◌%◌, ◌++◌, ◌/◌, ◌<◌,
  ◌==◌, ◌>>=◌, ◌>>◌, ◌^◌, ◌∙◌, ◌≡◌,
}

abbrev pub FitsFrame : Command → Type 0
FitsFrame c = FitsCommand c × (length (encode_command c) < 2 ^ 32)

-- An entry of which every part has a size that the format can hold.
abbrev pub FitsEntry : LogEntry → Type 0
FitsEntry e =
    IsU64 e.shard_id
    × IsU64 e.term
    × IsU64 e.index
    × IsU64 e.origin_server_id
    × IsU64 e.config_version
    × IsU64 e.timestamp.physical_ms
    × (e.timestamp.logical < 2 ^ 32)
    × FitsFrame e.command

pub frame : Command → List ℕ
frame c = let bytes = encode_command c in write_u32 (as_u32 (length bytes)) ++ bytes

step_u64 :
    {A : Type 0} (f : ℕ → Reader A) (x : ℕ) (tail : List ℕ)
    → IsU64 x
    → (read_u64 >>= f) (write_u64 x ++ tail) ≡ f x tail
step_u64 f x tail h = ap (λ o. and_then o f) (write_u64-Reads x h tail)

step_u32 :
    {A : Type 0} (f : ℕ → Reader A) (x : ℕ) (tail : List ℕ)
    → x < 2 ^ 32
    → (read_u32 >>= f) (write_u32 x ++ tail) ≡ f x tail
step_u32 f x tail h = ap (λ o. and_then o f) (write_u32-Reads x h tail)

read_exact_all : (bytes : List ℕ) → read_exact (length bytes) bytes ≡ (ok bytes, [])
read_exact_all bytes =
    ap (read_exact (length bytes)) (sym (append-nil bytes))
    ∙ read_exact-Reads (length bytes) bytes refl []

frame_read : (c : Command) → FitsFrame c → read_framed (frame c) ≡ (ok (canonical_command c), [])
unfolding read_framed finish frame
frame_read c h =
    let bytes = encode_command c in
    let rest = λ (command : Command). finish >> pure {E = StorageError} {S = List ℕ} command in
    let body = λ (b : List ℕ). decoded (decode_command b) >>= rest in
    ap (λ o. and_then o (λ n. read_exact n >>= body)) (count-Reads (length bytes) h.1 bytes)
    ∙ ap (λ o. and_then o body) (read_exact_all bytes)
    ∙ ap (λ r. and_then (decoded r []) rest) (decode-encode_command c h.0)

-- The bytes of a log entry of which every part has a size that the format can hold decode to the
-- entry, with the maps of its command in the order of the keys.
pub decode-encode_log_entry :
    (e : LogEntry)
    → FitsEntry e
    → decode_log_entry (encode_log_entry e)
      ≡ ok (record e { command = canonical_command e.command })
unfolding decode_log_entry encode_log_entry read_entry_v3 frame
decode-encode_log_entry e h =
    ap (λ o. o.0)
      (step_u64 _ e.shard_id _ h.0
        ∙ step_u64 _ e.term _ h.1
        ∙ step_u64 _ e.index _ h.2
        ∙ step_u64 _ e.origin_server_id _ h.3
        ∙ step_u64 _ e.config_version _ h.4
        ∙ step_u64 _ e.timestamp.physical_ms _ h.5
        ∙ step_u32 _ e.timestamp.logical _ h.6
        ∙ ap (λ o. and_then o (λ c. pure (record e { command = c }))) (frame_read e.command h.7))

-- What servers wrote before the replication metadata and, still earlier, the timestamp came in.
pub entry_v2 : ℕ → ℕ → ℕ → HybridTimestamp → Command → List ℕ
entry_v2 shard term index time command =
    log_entry_v2_magic
    ++ (write_u64 shard
        ++ (write_u64 term
            ++ (write_u64 index
                ++ (write_u64 time.physical_ms ++ (write_u32 time.logical ++ frame command)))))

pub entry_v1 : ℕ → ℕ → ℕ → Command → List ℕ
entry_v1 shard term index command =
    write_u64 shard ++ (write_u64 term ++ (write_u64 index ++ frame command))

small_head :
    (x : ℕ) → x < 2 ^ 56 → (x / 256 / 256 / 256 / 256 / 256 / 256 / 256 % 256 == b'N') ≡ false
small_head x h = ground arith

no_magic :
    (shard : ℕ) (tail : List ℕ)
    → shard < 2 ^ 56
    → (strip_prefix log_entry_v3_magic (write_u64 shard ++ tail) ≡ none)
      × (strip_prefix log_entry_v2_magic (write_u64 shard ++ tail) ≡ none)
unfolding strip_prefix to_be_bytes
no_magic shard tail h = (rw (small_head shard h) refl, rw (small_head shard h) refl)

entry_v1_decodes :
    (shard term index : ℕ) (c : Command)
    → shard < 2 ^ 56
    → IsU64 term
    → IsU64 index
    → FitsFrame c
    → decode_log_entry (entry_v1 shard term index c)
      ≡ ok (new_entry shard term index (canonical_command c))
unfolding decode_log_entry read_entry_v1 entry_v1
entry_v1_decodes shard term index c s t i f =
    let tail = write_u64 term ++ (write_u64 index ++ frame c) in
    let (not_v3, not_v2) = no_magic shard tail s in
    rw (decode_log_entry, not_v3, not_v2)
      (ap (λ o. o.0)
        (step_u64 _ shard tail (omega arith)
          ∙ step_u64 _ term _ t
          ∙ step_u64 _ index _ i
          ∙ ap (λ o. and_then o (λ x. pure (new_entry shard term index x))) (frame_read c f)))

pub data OlderFormat : Type 0 where
  v1 v2 : OlderFormat

abbrev pub older_entry : OlderFormat → ℕ → ℕ → ℕ → HybridTimestamp → Command → List ℕ
older_entry v1 shard term index time command = entry_v1 shard term index command
older_entry v2 shard term index time command = entry_v2 shard term index time command

-- the first bytes of an entry in the oldest format are its shard, which must not look like a mark
abbrev pub shard_limit : OlderFormat → ℕ
shard_limit v1 = 2 ^ 56
shard_limit v2 = 2 ^ 64

abbrev pub kept_time : OlderFormat → HybridTimestamp → HybridTimestamp
kept_time v1 time = stamp 0 0
kept_time v2 time = time

-- An entry in one of the two older formats, of which every part has a size that the format can hold,
-- decodes to the entry, with the metadata that the format lacks zero and the maps of its command in
-- the order of the keys. In the oldest format, which has no mark, the shard must be below 2^56.
pub older_entries_decode :
    (format : OlderFormat) (shard term index : ℕ) (time : HybridTimestamp) (c : Command)
    → shard < shard_limit format
    → IsU64 term
    → IsU64 index
    → IsU64 (kept_time format time).physical_ms × ((kept_time format time).logical < 2 ^ 32)
    → FitsFrame c
    → decode_log_entry (older_entry format shard term index time c)
      ≡ ok (record (new_entry shard term index (canonical_command c)) {
        timestamp = kept_time format time;
      })
unfolding decode_log_entry read_entry_v2 entry_v2
older_entries_decode v1 shard term index time c s t i m f =
    entry_v1_decodes shard term index c s t i f
older_entries_decode v2 shard term index time c s t i m f =
    ap (λ o. o.0)
      (step_u64 _ shard _ s
        ∙ step_u64 _ term _ t
        ∙ step_u64 _ index _ i
        ∙ step_u64 _ time.physical_ms _ m.0
        ∙ step_u32 _ time.logical _ m.1
        ∙ ap
            (λ o.
              and_then o (λ x. pure (record (new_entry shard term index x) { timestamp = time })))
            (frame_read c f))
