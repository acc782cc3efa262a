-- ===== src/Raft/Chunks/Reassembly.antt =====
-- Sending a snapshot through chunks and assembler, and the chunk on which the assembler never returns.
use neo4r.Raft.Messages.{InstallSnapshotRequest, InstallSnapshotChunk}
use neo4r.Raft.Chunks.{
  SnapshotChunkAssembler, continue_with, number_chunks, open_assembler, push_rest, empty_assembler,
  assemble, chunks_by, reassemble, chunks_of, whole, split, split_loop, push_chunk, collect,
  contiguous_len, validate, try_finish, insert_chunk, finish_at,
}
use neo4r.Raft.Chunks.Layout.{Pieces, joined, length-joined}
use neo4r.Raft.Chunks.RoundTrip.{first_completes, length-le-total}
use neo4r.Raft.Chunks.Transfer.{Full, split_loop-Full, joined-split_loop, closes}
use neo4r.Prelude.IdMap
use neo4r.Prelude.IdMap.{IdMap}
use neo4r.Prelude.{
  List, [], ap, arith, false, inl, inr, length, ltb, max, none, ok, refl, some, suc, sym, zero, ℕ,
  ◌+◌, ◌-◌, ◌<◌, ◌∙◌, ◌∷◌, ◌≡◌, ◌⊎◌,
}

pub list_cases {ℓ} :
    {A : Type ℓ} (xs : List A) → (xs ≡ []) ⊎ ((y : A) × (ys : List A) × (xs ≡ y ∷ ys))
list_cases [] = inl refl
list_cases (y ∷ ys) = inr (y, ys, refl)

-- Its own first chunk is valid for an assembler.
pub first_valid :
    (first : InstallSnapshotChunk)
    → first.offset ≡ 0
    → validate (empty_assembler first) first ≡ ok tt
unfolding validate
first_valid first e = ground (arith, e)

empty_opens :
    (fuel : ℕ) (request : InstallSnapshotRequest)
    → 0 < fuel
    → length request.payload ≡ 0
    → (a : SnapshotChunkAssembler) × (open_assembler fuel (whole request) ≡ some (ok a))
unfolding open_assembler push_chunk collect insert_chunk
empty_opens zero request positive e = absurd (omega arith)
empty_opens (suc fuel) request positive e = (
  record (insert_chunk (whole request) (empty_assembler (whole request))) {
    next_offset = 0 + length request.payload;
  },
  rw
      (
        open_assembler,
        push_chunk,
        first_valid (whole request) refl,
        closes (suc fuel) (insert_chunk (whole request) (empty_assembler (whole request)))
            (0 + length request.payload) refl,
        collect,
        closed,
      )
      refl,
)
  where
    closed : ltb 0 (0 + length request.payload) ≡ false
    closed = ground (arith, e)

-- A payload that is not empty goes through in pieces.
pieces_complete :
    (fuel size : ℕ) (request : InstallSnapshotRequest) (ps : Pieces)
    → 0 < size
    → 0 < length request.payload
    → Full size ps
    → joined ps ≡ request.payload
    → length request.payload + 1 < fuel
    → assemble fuel request (number_chunks request size 0 ps) ≡ some (ok request)
unfolding number_chunks
pieces_complete fuel size request [] sized positive f e enough = absurd (omega (arith, ap length e))
pieces_complete fuel size request (q ∷ qs) sized positive f e enough =
    first_completes request size fuel sized q qs f e
      (omega (arith, length-le-total size (q ∷ qs) sized f, ap length e, length-joined (q ∷ qs)))

-- The function that sends a snapshot through chunks and assembler returns it, for chunks of any size,
-- and all loops return, if the fuel exceeds the length of the payload by more than one.
pub reassemble_returns :
    (fuel max_payload_bytes : ℕ) (request : InstallSnapshotRequest)
    → length request.payload + 1 < fuel
    → reassemble fuel max_payload_bytes request ≡ some (ok request)
unfolding reassemble chunks_of split push_rest
reassemble_returns fuel m request enough = elim (list_cases request.payload) [
  | inl none_left ↦
      by_payload none_left
      ∙ ap (continue_with fuel request [])
          (empty_opens fuel request (omega arith) (ap length none_left)).1
  | inr (x, xs, e) ↦
      by_payload e
      ∙ pieces_complete fuel (max m 1) request (split_loop (max m 1) (max m 1 - 1) (x ∷ []) xs)
          (omega arith) (omega (arith, ap length e))
          (split_loop-Full (max m 1) (max m 1 - 1) (x ∷ []) xs (omega arith) (omega arith))
          (joined-split_loop (max m 1) (max m 1 - 1) (x ∷ []) xs ∙ sym e) enough
]
  where
    by_payload :
        {p : List ℕ}
        → request.payload ≡ p
        → reassemble fuel m request ≡ assemble fuel request (chunks_by request (max m 1) p)
    by_payload e = ap (λ p. assemble fuel request (chunks_by request (max m 1) p)) e

stuck :
    (fuel : ℕ) (m : IdMap (List ℕ)) (o : ℕ)
    → IdMap.get m o ≡ some []
    → contiguous_len fuel m o ≡ none
unfolding contiguous_len
stuck zero m o h = refl
stuck (suc fuel) m o h =
    rw (contiguous_len, h) (stuck fuel m (o + 0) (ap (IdMap.get m) (omega arith) ∙ h))

-- With an empty first chunk that is not the last one, opening the assembler never returns, whatever
-- the fuel.
pub empty_chunk_hangs :
    (fuel : ℕ) (first : InstallSnapshotChunk)
    → first.offset ≡ 0
    → first.request.payload ≡ []
    → first.done ≡ false
    → open_assembler fuel first ≡ none
unfolding open_assembler push_chunk try_finish insert_chunk
empty_chunk_hangs fuel first start nothing more =
    rw (open_assembler, push_chunk, first_valid first start, looping) refl
  where
    opened : SnapshotChunkAssembler
    opened = insert_chunk first (empty_assembler first)

    unknown_end : opened.done_offset ≡ none
    unknown_end = rw more refl

    looping : try_finish fuel opened ≡ none
    looping =
        ap (λ d. finish_at fuel d opened) unknown_end
        ∙ rw (finish_at, stuck fuel opened.chunks 0 (rw (start, nothing) refl)) refl
