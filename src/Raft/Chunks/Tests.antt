-- ===== src/Raft/Chunks/Tests.antt =====
-- Snapshots in transfer at concrete payloads.
use neo4r.Raft.Messages.{InstallSnapshotRequest, InstallSnapshotChunk}
use neo4r.Raft.Chunks.{
  reassemble, open_assembler, chunks_of, split, number_chunks, whole, empty_assembler,
}
use neo4r.Raft.Chunks.Reassembly.{empty_chunk_hangs}
use neo4r.Raft.Chunks.Answers.{push_all, chunks_complete}
use neo4r.Prelude.{List, [], arith, false, map, none, ok, refl, some, ℕ, ◌∷◌, ◌≡◌}

abbrev sent : List ℕ → InstallSnapshotRequest
sent payload = record {
  term = 4;
  leader_id = 1;
  metadata = record { shard_id = 0; last_included_term = 4; last_included_index = 9 };
  payload = payload;
}

abbrev six : List ℕ
six = 97 ∷ 98 ∷ 99 ∷ 100 ∷ 101 ∷ 102 ∷ []

cut_in_three : map (λ c. c.offset) (chunks_of (sent six) 2) ≡ 0 ∷ 2 ∷ 4 ∷ []
unfolding chunks_of split number_chunks
cut_in_three = refl

chunks_complete_example :
    (push_all 8 (chunks_of (sent six) 2) (empty_assembler (whole (sent six)))
      ≡ some (ok none ∷ ok none ∷ ok (some (sent six)) ∷ []))
    × (reassemble 8 2 (sent six) ≡ some (ok (sent six)))
unfolding chunks_of split number_chunks
chunks_complete_example = chunks_complete 8 2 (sent six) (omega arith)

abbrev empty_first : InstallSnapshotChunk
empty_first = record { request = sent []; offset = 0; done = false }

empty_chunk_hangs_example : open_assembler 1000 empty_first ≡ none
empty_chunk_hangs_example = empty_chunk_hangs 1000 empty_first refl refl refl
