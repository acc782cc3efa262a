-- ===== src/Raft/Chunks/Answers.antt =====
-- What `SnapshotChunkAssembler::push` answers to the chunks of a snapshot, one after another.
use mathlib.Core.List.{append_assoc}
use native.Mathlib.Nat.{suc-mul}
use neo4r.Raft.Errors.{DatabaseError}
use neo4r.Raft.Messages.{InstallSnapshotRequest, InstallSnapshotChunk}
use neo4r.Raft.Chunks.{
  number_chunks, push_chunk, chunks_by, chunks_of, whole, split, split_loop, empty_assembler,
  SnapshotChunkAssembler, insert_chunk, collect, reassemble,
}
use neo4r.Raft.Chunks.Layout.{Pieces, total, joined, total-append, length-joined}
use neo4r.Raft.Chunks.Transfer.{
  Full, Ready, taken, taken-Ready, takes, finishes, closes, split_loop-Full, joined-split_loop,
}
use neo4r.Raft.Chunks.RoundTrip.{payload_length, begins, length-le-total}
use neo4r.Raft.Chunks.Reassembly.{list_cases, first_valid, reassemble_returns}
use neo4r.Prelude.{
  List, Option, Result, [], ap, arith, false, inl, inr, leb, length, length-append, le→leb, ltb,
  lt→leb_false, max, none, ok, refl, some, subst, suc, sym, zero, ℕ, ◌*◌, ◌++◌, ◌+◌, ◌-◌, ◌<◌, ◌∙◌,
  ◌∷◌, ◌≡◌,
}

abbrev pub Answers : Type 0
Answers = List (Result DatabaseError (Option InstallSnapshotRequest))

abbrev pub answer_first :
    Result DatabaseError (Option InstallSnapshotRequest) → Option Answers → Option Answers
answer_first x none = none
answer_first x (some xs) = some (x ∷ xs)

-- The answers to all chunks; none if one of the calls does not return.
unfoldable pub push_all : ℕ → List InstallSnapshotChunk → SnapshotChunkAssembler → Option Answers
push_all fuel [] a = some []
push_all fuel (chunk ∷ chunks) a =
    let rest = push_all fuel chunks in
    elim (push_chunk fuel chunk a) [ none ↦ none | some (out, a') ↦ answer_first out (rest a') ]

-- Nothing until the last chunk, and to that one the request.
abbrev pub at_end : InstallSnapshotRequest → List InstallSnapshotChunk → Answers
at_end request [] = ok (some request) ∷ []
at_end request (c ∷ []) = ok (some request) ∷ []
at_end request (c ∷ d ∷ cs) = ok none ∷ at_end request (d ∷ cs)

module _ (request : InstallSnapshotRequest) (size fuel : ℕ) (sized : 0 < size) where
  pieces_answered :
      (i : ℕ) (ps : Pieces) (q : List ℕ) (qs : Pieces) (a : SnapshotChunkAssembler)
      → Ready request ps a
      → i * size ≡ total ps
      → Full size (q ∷ qs)
      → joined (ps ++ q ∷ qs) ≡ request.payload
      → length ps + length (q ∷ qs) + 1 < fuel
      → push_all fuel (number_chunks request size i (q ∷ qs)) a
        ≡ some (at_end request (number_chunks request size i (q ∷ qs)))
  unfolding push_all number_chunks
  pieces_answered i ps q [] a v at f e enough =
      rw
        (
          push_all,
          (finishes request ps q a (i * size) fuel v at f (omega arith)
              (le→leb _ _ (omega (arith, payload_length request size fuel sized ps (q ∷ []) e, at)))
              e).1,
        )
        refl
  pieces_answered i ps q (p ∷ qs) a v at f e enough =
      rw (push_all, takes request ps q a (i * size) fuel v at positive (omega arith) short)
        (ap (answer_first (ok none)) (
          pieces_answered (suc i) (ps ++ q ∷ []) p qs
            (taken request ps q a (i * size) fuel v at positive (omega arith))
            (taken-Ready request ps q a (i * size) fuel v at positive (omega arith) short)
            (omega (arith, suc-mul i size, total-append ps q, f.0, at)) f.1
            (ap joined (append_assoc ps (q ∷ []) (p ∷ qs)) ∙ e)
            (omega (arith, length-append ps (q ∷ [])))))
    where
      positive : 0 < length q
      positive = omega (arith, f.0)

      short : leb (length request.payload) (i * size + length q) ≡ false
      short = lt→leb_false _ _ (
          omega (
            arith,
            payload_length request size fuel sized ps (q ∷ p ∷ qs) e,
            at,
            length-le-total size (p ∷ qs) sized f.1,
          ))

empty_answered :
    (fuel : ℕ) (request : InstallSnapshotRequest)
    → 0 < fuel
    → request.payload ≡ []
    → push_all fuel (whole request ∷ []) (empty_assembler (whole request))
      ≡ some (ok (some request) ∷ [])
unfolding push_all push_chunk insert_chunk collect
empty_answered zero request positive e = absurd (omega arith)
empty_answered (suc fuel) request positive e =
    rw
      (
        push_all,
        push_chunk,
        first_valid (whole request) refl,
        closes (suc fuel) (insert_chunk (whole request) (empty_assembler (whole request)))
            (0 + length request.payload) refl,
        collect,
        closed,
      )
      (ap (λ r. some (ok (some r) ∷ [])) same)
  where
    closed : ltb 0 (0 + length request.payload) ≡ false
    closed = ground (arith, ap length e)

    same : record request { payload = [] } ≡ request
    same = λ i. record request { payload = sym e i }

-- Cut into chunks of any size, a snapshot goes through the assembler: to every chunk but the last it
-- answers that the snapshot is not complete, and to the last one with the snapshot as it was; the
-- function that sends a snapshot through both returns it too. All loops return, if the fuel exceeds
-- the length of the payload by more than one.
pub chunks_complete :
    (fuel max_payload_bytes : ℕ) (request : InstallSnapshotRequest)
    → length request.payload + 1 < fuel
    → (push_all fuel (chunks_of request max_payload_bytes) (empty_assembler (whole request))
        ≡ some (at_end request (chunks_of request max_payload_bytes)))
      × (reassemble fuel max_payload_bytes request ≡ some (ok request))
unfolding chunks_of split
chunks_complete fuel m request enough = (
  elim (list_cases request.payload) [
    | inl none_left ↦ by_payload none_left (empty_answered fuel request (omega arith) none_left)
    | inr (x, xs, e) ↦ by_payload e (
        pieces e (split_loop (max m 1) (max m 1 - 1) (x ∷ []) xs)
          (split_loop-Full (max m 1) (max m 1 - 1) (x ∷ []) xs (omega arith) (omega arith))
          (joined-split_loop (max m 1) (max m 1 - 1) (x ∷ []) xs ∙ sym e))
  ],
  reassemble_returns fuel m request enough,
)
  where
    Answered : List InstallSnapshotChunk → Type 0
    Answered cs = push_all fuel cs (empty_assembler (whole request)) ≡ some (at_end request cs)

    by_payload :
        {p : List ℕ}
        → request.payload ≡ p
        → Answered (chunks_by request (max m 1) p)
        → Answered (chunks_by request (max m 1) request.payload)
    by_payload e = subst (λ p. Answered (chunks_by request (max m 1) p)) (sym e)

    pieces :
        {x : ℕ} {xs : List ℕ}
        → request.payload ≡ x ∷ xs
        → (ps : Pieces) → Full (max m 1) ps
        → joined ps ≡ request.payload
        → Answered (number_chunks request (max m 1) 0 ps)
    pieces e [] f j = absurd (omega (arith, ap length e, ap length j))
    pieces e (q ∷ qs) f j =
        pieces_answered request (max m 1) fuel (omega arith) 0 [] q qs
          (empty_assembler (whole request)) (begins request (max m 1) fuel (omega arith) q)
          (omega arith) f j
          (omega (
            arith,
            length-le-total (max m 1) (q ∷ qs) (omega arith) f,
            ap length j,
            length-joined (q ∷ qs),
          ))
