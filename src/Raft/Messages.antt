-- ===== src/Raft/Messages.antt =====
-- crates/neo4r-db/src/raft.rs: the requests and responses of the Raft protocol.
use neo4r.Core.Command.{LogEntry}
use neo4r.Prelude.{Bool, List, Option, ℕ}

pub record RequestVoteRequest : Type 0 where
  pub term : ℕ
  pub candidate_id : ℕ
  pub last_log_index : ℕ
  pub last_log_term : ℕ

pub record RequestVoteResponse : Type 0 where
  pub term : ℕ
  pub vote_granted : Bool

pub record PreVoteRequest : Type 0 where
  pub next_term : ℕ
  pub candidate_id : ℕ
  pub last_log_index : ℕ
  pub last_log_term : ℕ

pub record PreVoteResponse : Type 0 where
  pub term : ℕ
  pub vote_granted : Bool

pub record AppendEntriesRequest : Type 0 where
  pub term : ℕ
  pub leader_id : ℕ
  pub prev_log_index : ℕ
  pub prev_log_term : ℕ
  pub entries : List LogEntry
  pub leader_commit : ℕ

pub record AppendEntriesResponse : Type 0 where
  pub term : ℕ
  pub success : Bool
  pub durable : Bool
  pub match_index : ℕ
  pub conflict_index : Option ℕ
  pub conflict_term : Option ℕ

pub record RaftSnapshotMetadata : Type 0 where
  pub shard_id : ℕ
  pub last_included_term : ℕ
  pub last_included_index : ℕ

pub record InstallSnapshotRequest : Type 0 where
  pub term : ℕ
  pub leader_id : ℕ
  pub metadata : RaftSnapshotMetadata
  pub payload : List ℕ

pub record InstallSnapshotChunk : Type 0 where
  pub request : InstallSnapshotRequest
  pub offset : ℕ
  pub done : Bool

pub record InstallSnapshotResponse : Type 0 where
  pub term : ℕ
  pub success : Bool
  pub last_included_index : ℕ
