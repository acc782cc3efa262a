-- ===== src/Raft/Chunks/Transfer.antt =====
-- One chunk of a snapshot: what the assembler makes of it, and how a payload is cut.
use mathlib.Core.List.{append_assoc}
use neo4r.Raft.Messages.{InstallSnapshotRequest, InstallSnapshotChunk}
use neo4r.Raft.Chunks.{
  finish_at, SnapshotChunkAssembler, split_loop, contiguous_len, validate, collect, try_finish,
  insert_chunk, push_chunk, finish_at,
}
use neo4r.Raft.Chunks.Layout.{
  Pieces, total, joined, Holds, EmptyFrom, total-append, insert_next-Holds, insert_next-EmptyFrom,
  contiguous_len_start, result_of, Finishes, collect-Holds,
}
use neo4r.Prelude.IdMap
use neo4r.Prelude.{
  List, [], ap, arith, false, leb, length, length-append, none, ok, refl, some, subst, suc, sym,
  true, zero, ℕ, ◌++◌, ◌+◌, ◌-◌, ◌<◌, ◌∙◌, ◌∷◌, ◌≡◌,
}

-- Every piece but the last has the size, and the last is not empty.
abbrev pub Full : ℕ → Pieces → Type 0
Full size [] = Unit
Full size (p ∷ []) = 0 < length p
Full size (p ∷ q ∷ ps) = (length p ≡ size) × Full size (q ∷ ps)

cons-Full :
    (size : ℕ) (p : List ℕ) (ps : Pieces)
    → length p ≡ size
    → 0 < size
    → Full size ps
    → Full size (p ∷ ps)
cons-Full size p [] e s f = omega arith
cons-Full size p (q ∷ ps) e s f = (e, f)

pub split_loop-Full :
    (size room : ℕ) (chunk xs : List ℕ)
    → 0 < length chunk
    → length chunk + room ≡ size
    → Full size (split_loop size room chunk xs)
unfolding split_loop
split_loop-Full size room chunk [] some_length e = some_length
split_loop-Full size zero chunk (x ∷ xs) some_length e =
    cons-Full size chunk (split_loop size (size - 1) (x ∷ []) xs) (omega arith) (omega arith)
      (split_loop-Full size (size - 1) (x ∷ []) xs (omega arith) (omega arith))
split_loop-Full size (suc room) chunk (x ∷ xs) some_length e =
    split_loop-Full size room (chunk ++ x ∷ []) xs (omega (arith, length-append chunk (x ∷ [])))
      (omega (arith, length-append chunk (x ∷ [])))

pub joined-split_loop :
    (size room : ℕ) (chunk xs : List ℕ) → joined (split_loop size room chunk xs) ≡ chunk ++ xs
unfolding split_loop
joined-split_loop size room chunk [] = refl
joined-split_loop size zero chunk (x ∷ xs) =
    ap (λ ys. chunk ++ ys) (joined-split_loop size (size - 1) (x ∷ []) xs)
joined-split_loop size (suc room) chunk (x ∷ xs) =
    joined-split_loop size room (chunk ++ x ∷ []) xs ∙ append_assoc chunk (x ∷ []) xs

-- The assembler has taken the pieces of the request, and waits for the next.
pub record Ready (request : InstallSnapshotRequest) (ps : Pieces) (a : SnapshotChunkAssembler)
    : Type 0 where
  pub term : a.term ≡ request.term
  pub leader_id : a.leader_id ≡ request.leader_id
  pub metadata : a.metadata ≡ request.metadata
  pub held : Holds a.chunks 0 ps
  pub beyond : EmptyFrom a.chunks (total ps)
  pub next : a.next_offset ≡ total ps
  pub unfinished : a.done_offset ≡ none

-- Without the last chunk the assembler moves its next offset and waits.
pub waits :
    (fuel : ℕ) (a : SnapshotChunkAssembler) (end : ℕ)
    → a.done_offset ≡ none
    → contiguous_len fuel a.chunks 0 ≡ some end
    → try_finish fuel a ≡ some (ok none, record a { next_offset = end })
unfolding try_finish
waits fuel a end h k = ap (λ d. finish_at fuel d a) h ∙ rw (finish_at, k) refl

pub closes :
    (fuel : ℕ) (a : SnapshotChunkAssembler) (d : ℕ)
    → a.done_offset ≡ some d
    → try_finish fuel a ≡ collect fuel d 0 [] a
unfolding try_finish
closes fuel a d h = ap (λ x. finish_at fuel x a) h

-- the chunk that `chunks` makes of a piece
abbrev pub numbered : InstallSnapshotRequest → ℕ → List ℕ → InstallSnapshotChunk
numbered request o piece = record {
  request = record request { payload = piece };
  offset = o;
  done = leb (length request.payload) (o + length piece);
}

module _ (request : InstallSnapshotRequest) (ps : Pieces) (q : List ℕ) (a : SnapshotChunkAssembler)
    (o fuel : ℕ) (v : Ready request ps a) (here : o ≡ total ps) (positive : 0 < length q)
    (enough : length ps + 1 < fuel) where
  valid : validate a (numbered request o q) ≡ ok tt
  unfolding validate
  valid = ground (
    arith,
    v.term,
    v.leader_id,
    v.next,
    ap (λ m. m.shard_id) v.metadata,
    ap (λ m. m.last_included_term) v.metadata,
    ap (λ m. m.last_included_index) v.metadata,
  )

  held_next : Holds (IdMap.insert o q a.chunks) 0 (ps ++ q ∷ [])
  held_next =
      subst (λ k. Holds (IdMap.insert k q a.chunks) 0 (ps ++ q ∷ [])) (sym here)
        (insert_next-Holds a.chunks ps q positive v.held)

  beyond_next : EmptyFrom (IdMap.insert o q a.chunks) (total (ps ++ q ∷ []))
  beyond_next k le =
      insert_next-EmptyFrom a.chunks o q positive (λ j later. v.beyond j (omega (arith, here))) k
        (omega (arith, here, total-append ps q))

  long_enough : length (ps ++ q ∷ []) < fuel
  long_enough = omega (arith, length-append ps (q ∷ []))

  abbrev pub taken : SnapshotChunkAssembler
  taken = record (insert_chunk (numbered request o q) a) { next_offset = total (ps ++ q ∷ []) }

  pub taken-Ready :
      leb (length request.payload) (o + length q) ≡ false → Ready request (ps ++ q ∷ []) taken
  unfolding insert_chunk
  taken-Ready more = record {
    term = v.term;
    leader_id = v.leader_id;
    metadata = v.metadata;
    held = held_next;
    beyond = beyond_next;
    next = refl;
    unfinished = rw more v.unfinished;
  }

  -- A chunk that is not the last is kept.
  pub takes :
      leb (length request.payload) (o + length q) ≡ false
      → push_chunk fuel (numbered request o q) a ≡ some (ok none, taken)
  unfolding push_chunk insert_chunk
  takes more =
      rw (push_chunk, valid)
        (waits fuel (insert_chunk (numbered request o q) a) (total (ps ++ q ∷ []))
          (rw more v.unfinished)
          (contiguous_len_start fuel (IdMap.insert o q a.chunks) (ps ++ q ∷ []) long_enough
            held_next beyond_next))

  -- The last one completes the request.
  pub finishes :
      leb (length request.payload) (o + length q) ≡ true
      → joined (ps ++ q ∷ []) ≡ request.payload
      → Finishes (push_chunk fuel (numbered request o q) a) request
  unfolding push_chunk try_finish insert_chunk
  finishes last_one whole_payload =
      let (b, collected) = subst (Finishes (collect fuel (o + length q) 0 [] finished)) same (
        collect-Holds fuel (o + length q) 0 [] (ps ++ q ∷ []) finished long_enough
          (omega (arith, here, total-append ps q)) held_next) in
      (b, pushed ∙ closes fuel finished (o + length q) (rw last_one refl) ∙ collected)
    where
      finished : SnapshotChunkAssembler
      finished = insert_chunk (numbered request o q) a

      pushed : push_chunk fuel (numbered request o q) a ≡ try_finish fuel finished
      pushed = rw (push_chunk, valid) refl

      same : result_of finished (joined (ps ++ q ∷ [])) ≡ request
      same = λ i. record {
        term = v.term i;
        leader_id = v.leader_id i;
        metadata = v.metadata i;
        payload = whole_payload i;
      }
