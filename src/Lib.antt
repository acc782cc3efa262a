-- ===== src/Lib.antt =====
-- A model of neo4r, a sharded graph database: its core data, its replication by Raft, the bytes it
-- stores and sends, and the sessions of its native protocol.
--
-- Parts and files:
-- Prelude passes on the names that the other files share: Boolean tests, lists, sorting, sets and
--   maps of ids (Rust's BTreeSet and BTreeMap) and methods that may fail.
-- Core models crates/neo4r-core/src. Core/Model is model.rs (Value, ValueKey, Node, Relationship),
--   Core/Command is command.rs and LogEntry of shard.rs, Core/Errors is error.rs, Core/Clock is
--   clock.rs (HybridClock::tick and observe), Core/Shard is shard.rs (ShardMap,
--   ShardRoutingTable). Core/Index holds the indexes of graph.rs and Core/Graph its GraphState
--   with a function for each command, Core/Graph/Reads its reads, which read.rs passes on. The
--   functions are named for what they do to the graph where the command has the source's name:
--   create is create_node, relate create_relationship, detach delete_relationship, delete
--   delete_node.
-- Raft models crates/neo4r-db/src/raft.rs and its folder. Raft/Membership is raft/membership.rs,
--   Raft/State holds raft/persistent.rs and the state of RaftCore with its small methods,
--   Raft/State/Open its constructors, Raft/State/Text the text of the state file, Raft/Votes
--   elections and votes, Raft/Append append_entries, Raft/Leader what a leader does (local
--   entries, replication matches, the commit index, reads, leases, membership changes),
--   Raft/Snapshot installing and compacting snapshots. Raft/Chunks is raft/snapshot_chunks.rs with
--   InstallSnapshotRequest::chunks and validate_snapshot_chunks_for_tcp of
--   replication/tcp_requests.rs. Raft/Messages has the requests and responses, Raft/Errors the
--   DatabaseError of error.rs.
-- Consensus models crates/neo4r-db/src/consensus.rs, replication from a static primary, with the
--   replicator as a parameter.
-- Storage/Codec models crates/neo4r-storage/src/codec.rs: Bytes has the reader and the numbers and
--   strings, Values the properties, Commands and Entries the rest. Canonical says which values the
--   format can hold, the modules named Trips prove that what is written is read.
-- Protocol models crates/neo4r-protocol/src/lib.rs: Frame has the frames on a stream of bytes, Hex
--   hexadecimal and escaped texts, Values the text of values, properties and labels, Rows that of
--   query rows, Batch that of a batch of writes, Responses the client's parsers of the responses
--   with rows and the server's formats of them. Query has the rows of
--   crates/neo4r-query/src/result.rs, Query/Cursor the cursors of its engine.rs. Server models
--   crates/neo4r-server/src/backend/native_worker.rs: Cursors the CursorStore, whose cursors
--   are those of any QueryCursor, and Pending the PendingRequestStore; Quota is TenantQuota of
--   backend/state.rs, with evaluate_resource_admission of production_primitives.rs. A text is its
--   UTF-8 bytes, in Prelude/Split, Prelude/Decimal and Prelude/Utf8 with what Rust's strings and
--   numbers do with it.
-- The child modules hold the proofs, named for what they prove. Raft/Invariant is the invariant of
--   the log and that every method keeps it, Raft/Trace a run of calls on one core in any order,
--   Raft/Cluster the cores of a shard and the votes they grant. Its network may lose, repeat and
--   reorder messages and every request is any, but an answer that grants a vote reaches only the
--   candidate that asked; restarts, changes
--   of the configuration and direct calls of become_leader are not among its steps.
-- The modules named Tests run the definitions at concrete states.
--
-- How the state corresponds. A method of RaftCore is a function from the core to its result and
-- the core it leaves; after a `?` that fails, the core keeps what was written before. Every field
-- of the Rust struct is a field of the record RaftCore. A database holds one core for each shard
-- and the log entries carry the Commands of Core.
--
-- A HashMap is an association list and a HashSet a sorted list, so the order in which the source
-- iterates over one is fixed here to one order of many; no theorem depends on it.
--
-- Numbers are natural numbers; a u64 or u32 addition that saturates does so here, at u64_max and
-- u32_max. Instant and Duration are nanoseconds, and the reading of a clock is an argument, so a
-- later reading may be smaller only where a caller passes one. A float and a vector component is
-- its bit pattern. Message texts of errors are left out. The file of the persistent state is what
-- a read of it gives, with a list of faults: each one says whether the next read or write fails. A
-- write that fails leaves the file, as the source writes a temporary file and renames it. Every
-- loop is structural recursion on the list the source iterates over, except the two loops of the
-- snapshot assembler, which follow offsets through a map. They take fuel, and a run that the fuel
-- does not suffice for gives none. The fuel that is enough is one more than the number of chunks,
-- and so the length of the payload and two.
--
-- The reader of the codec recurs on nested maps with the length of the input as fuel, which is
-- enough as each nested map stands behind a tag of its own.
--
-- The decoder of values on the wire likewise takes the length of the text as fuel, as a map inside
-- is shorter than the text it stands in.
--
-- The loop that fetches from a cursor to its end takes fuel, and one more than the number of rows
-- is enough.
--
-- Not modelled: the stores, the parameters of a query on the wire (their floats are decimal text),
-- queries, the database above the core, the rest of the server, and the clients. Networks, threads
-- and the RocksDB binding are input and output.
pub mod Prelude
pub mod Core
pub mod Raft
pub mod Consensus
pub mod Storage
pub mod Protocol
pub mod Query
pub mod Server
