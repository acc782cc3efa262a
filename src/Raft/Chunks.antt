-- ===== src/Raft/Chunks.antt =====
-- crates/neo4r-db/src/raft/snapshot_chunks.rs, `InstallSnapshotRequest::chunks` of raft.rs, and the
-- function of replication/tcp_requests.rs that sends a snapshot through both. The offsets are sums of
-- lengths of payloads in memory, which do not overflow. A loop that may run for ever takes fuel, and
-- `none` is a run that the fuel did not suffice for.
pub mod Layout
pub mod Transfer
pub mod RoundTrip
pub mod Reassembly
pub mod Answers
mod Tests
use neo4r.Raft.Errors.{DatabaseError, replication}
use neo4r.Raft.Messages.{RaftSnapshotMetadata, InstallSnapshotRequest, InstallSnapshotChunk}
use neo4r.Prelude.IdMap
use neo4r.Prelude.IdMap.{IdMap}
use neo4r.Prelude.{
  Bool, List, Option, Result, [], err, false, if◌then◌else◌, leb, length, ltb, max, none, not, ok,
  some, suc, true, zero, ℕ, ◌&&◌, ◌*◌, ◌++◌, ◌+◌, ◌-◌, ◌==◌, ◌||◌, ◌∷◌,
}

pub record SnapshotChunkAssembler : Type 0 where
  pub metadata : RaftSnapshotMetadata
  pub term : ℕ
  pub leader_id : ℕ
  pub next_offset : ℕ
  pub chunks : IdMap (List ℕ)
  pub done_offset : Option ℕ

-- `slice::chunks`, with the elements of the chunk that is being filled and the room left in it
pub split_loop : ℕ → ℕ → List ℕ → List ℕ → List (List ℕ)
split_loop size room chunk [] = chunk ∷ []
split_loop size zero chunk (x ∷ xs) = chunk ∷ split_loop size (size - 1) (x ∷ []) xs
split_loop size (suc room) chunk (x ∷ xs) = split_loop size room (chunk ++ x ∷ []) xs

unfoldable pub split : ℕ → List ℕ → List (List ℕ)
unfolding split_loop
split size [] = []
split size (x ∷ xs) = split_loop size (size - 1) (x ∷ []) xs

-- the `map` over the enumerated chunks, from an index on
unfoldable pub number_chunks :
    InstallSnapshotRequest → ℕ → ℕ → List (List ℕ) → List InstallSnapshotChunk
number_chunks request size index [] = []
number_chunks request size index (piece ∷ pieces) =
    record {
      request = record request { payload = piece };
      offset = index * size;
      done = leb (length request.payload) (index * size + length piece);
    }
    ∷ number_chunks request size (suc index) pieces

abbrev pub whole : InstallSnapshotRequest → InstallSnapshotChunk
whole request = record { request = request; offset = 0; done = true }

-- `chunks`, by whether the payload is empty
abbrev pub chunks_by : InstallSnapshotRequest → ℕ → List ℕ → List InstallSnapshotChunk
chunks_by request size [] = whole request ∷ []
chunks_by request size (x ∷ xs) = number_chunks request size 0 (split size (x ∷ xs))

unfoldable pub chunks_of : InstallSnapshotRequest → ℕ → List InstallSnapshotChunk
chunks_of request max_payload_bytes = chunks_by request (max max_payload_bytes 1) request.payload

-- the loop of `contiguous_len`, from an offset on
unfoldable pub contiguous_len : ℕ → IdMap (List ℕ) → ℕ → Option ℕ
contiguous_len zero chunks offset = none
contiguous_len (suc fuel) chunks offset = elim (IdMap.get chunks offset) [
  | none ↦ some offset
  | some chunk ↦ contiguous_len fuel chunks (offset + length chunk)
]

abbrev same_metadata : RaftSnapshotMetadata → RaftSnapshotMetadata → Bool
same_metadata a b =
    a.shard_id == b.shard_id
    && a.last_included_term == b.last_included_term
    && a.last_included_index == b.last_included_index

unfoldable pub validate :
    SnapshotChunkAssembler → InstallSnapshotChunk → Result DatabaseError (Unit {0})
validate a chunk =
    if not (chunk.request.term == a.term)
      || not (chunk.request.leader_id == a.leader_id)
      || not (same_metadata chunk.request.metadata a.metadata)
    then err replication
    else if ltb a.next_offset chunk.offset
    then err replication
    else ok tt

abbrev pub Assembling : Type 0
Assembling = Option (Result DatabaseError (Option InstallSnapshotRequest) × SnapshotChunkAssembler)

-- the `while` loop of `try_finish` and what follows it
unfoldable pub collect : ℕ → ℕ → ℕ → List ℕ → SnapshotChunkAssembler → Assembling
collect zero done_offset offset payload a = none
collect (suc fuel) done_offset offset payload a =
    if ltb offset done_offset
    then elim (IdMap.get a.chunks offset) [
      | none ↦ some (ok none, record a { next_offset = offset })
      | some chunk ↦
          collect fuel done_offset (offset + length chunk) (payload ++ chunk)
            (record a { chunks = IdMap.remove offset a.chunks })
    ]
    else some (
      ok (
          some (record {
            term = a.term;
            leader_id = a.leader_id;
            metadata = a.metadata;
            payload = payload;
          })),
      record a { next_offset = done_offset },
    )

-- `try_finish`, by whether the end of the payload is known
abbrev pub finish_at : ℕ → Option ℕ → SnapshotChunkAssembler → Assembling
finish_at fuel none a = elim (contiguous_len fuel a.chunks 0) [
  | none ↦ none
  | some end ↦ some (ok none, record a { next_offset = end })
]
finish_at fuel (some done_offset) a = collect fuel done_offset 0 [] a

unfoldable pub try_finish : ℕ → SnapshotChunkAssembler → Assembling
try_finish fuel a = finish_at fuel a.done_offset a

-- the writes of `push`
unfoldable pub insert_chunk : InstallSnapshotChunk → SnapshotChunkAssembler → SnapshotChunkAssembler
insert_chunk chunk a = record a {
  chunks = IdMap.insert chunk.offset chunk.request.payload a.chunks;
  done_offset =
      if chunk.done then some (chunk.offset + length chunk.request.payload) else a.done_offset;
}

unfoldable pub push_chunk : ℕ → InstallSnapshotChunk → SnapshotChunkAssembler → Assembling
push_chunk fuel chunk a = elim (validate a chunk) [
  | err e ↦ some (err e, a)
  | ok _ ↦ try_finish fuel (insert_chunk chunk a)
]

abbrev pub empty_assembler : InstallSnapshotChunk → SnapshotChunkAssembler
empty_assembler first = record {
  metadata = first.request.metadata;
  term = first.request.term;
  leader_id = first.request.leader_id;
  next_offset = 0;
  chunks = [];
  done_offset = none;
}

-- `SnapshotChunkAssembler::new`
unfoldable pub open_assembler :
    ℕ → InstallSnapshotChunk → Option (Result DatabaseError SnapshotChunkAssembler)
open_assembler fuel first = elim (push_chunk fuel first (empty_assembler first)) [
  | none ↦ none
  | some (ok _, a) ↦ some (ok a)
  | some (err e, a) ↦ some (err e)
]

-- the `for` loop over the chunks behind the first, which gives `otherwise` at its end
unfoldable pub push_rest :
    ℕ
    → InstallSnapshotRequest
    → List InstallSnapshotChunk
    → SnapshotChunkAssembler
    → Option (Result DatabaseError InstallSnapshotRequest)
push_rest fuel otherwise [] a = some (ok otherwise)
push_rest fuel otherwise (chunk ∷ chunks) a =
    let rest = push_rest fuel otherwise chunks in
    elim (push_chunk fuel chunk a) [
      | none ↦ none
      | some (err e, a') ↦ some (err e)
      | some (ok (some assembled), a') ↦ some (ok assembled)
      | some (ok none, a') ↦ rest a'
    ]

-- the loop behind `SnapshotChunkAssembler::new(first)?`
abbrev pub continue_with :
    ℕ
    → InstallSnapshotRequest
    → List InstallSnapshotChunk
    → Option (Result DatabaseError SnapshotChunkAssembler)
    → Option (Result DatabaseError InstallSnapshotRequest)
continue_with fuel request rest none = none
continue_with fuel request rest (some (err e)) = some (err e)
continue_with fuel request rest (some (ok a)) = push_rest fuel request rest a

abbrev pub assemble :
    ℕ
    → InstallSnapshotRequest
    → List InstallSnapshotChunk
    → Option (Result DatabaseError InstallSnapshotRequest)
assemble fuel request [] = some (ok request)
assemble fuel request (first ∷ rest) = continue_with fuel request rest (open_assembler fuel first)

-- `validate_snapshot_chunks_for_tcp`, for any chunk size
unfoldable pub reassemble :
    ℕ → ℕ → InstallSnapshotRequest → Option (Result DatabaseError InstallSnapshotRequest)
reassemble fuel size request = assemble fuel request (chunks_of request size)

-- the chunk size of `validate_snapshot_chunks_for_tcp`
abbrev pub tcp_chunk_size : ℕ
tcp_chunk_size = 64 * 1024

unfoldable pub validate_snapshot_chunks_for_tcp :
    ℕ → InstallSnapshotRequest → Option (Result DatabaseError InstallSnapshotRequest)
validate_snapshot_chunks_for_tcp fuel = reassemble fuel tcp_chunk_size

pub record SnapshotResumeToken : Type 0 where
  pub shard_id : ℕ
  pub snapshot_index : ℕ
  pub snapshot_term : ℕ
  pub next_offset : ℕ
  pub completed : Bool

unfoldable pub resume_token : SnapshotChunkAssembler → SnapshotResumeToken
resume_token a = record {
  shard_id = a.metadata.shard_id;
  snapshot_index = a.metadata.last_included_index;
  snapshot_term = a.metadata.last_included_term;
  next_offset = a.next_offset;
  completed = elim a.done_offset [ none ↦ false | some d ↦ d == a.next_offset ];
}
