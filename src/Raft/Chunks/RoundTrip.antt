-- ===== src/Raft/Chunks/RoundTrip.antt =====
-- A snapshot that is cut into chunks comes out of the assembler as it went in.
use mathlib.Core.List.{append_assoc}
use native.Mathlib.Nat.{suc-mul}
use neo4r.Raft.Messages.{InstallSnapshotRequest}
use neo4r.Raft.Chunks.{
  continue_with, number_chunks, open_assembler, push_rest, empty_assembler, SnapshotChunkAssembler,
}
use neo4r.Raft.Chunks.Layout.{Pieces, total, joined, total-append, length-joined}
use neo4r.Raft.Chunks.Transfer.{Full, Ready, taken, taken-Ready, takes, finishes, numbered}
use neo4r.Prelude.{
  List, [], ap, arith, false, leb, length, length-append, le→leb, lt→leb_false, ok, refl, some, suc,
  sym, ℕ, ◌*◌, ◌++◌, ◌+◌, ◌<◌, ◌∙◌, ◌∷◌, ◌≡◌, ◌≤◌,
}

positive_of_Full :
    (size : ℕ) (q : List ℕ) (qs : Pieces) → 0 < size → Full size (q ∷ qs) → 0 < length q
positive_of_Full size q [] s f = f
positive_of_Full size q (p ∷ ps) s f = omega (arith, f.0)

pub length-le-total : (size : ℕ) (qs : Pieces) → 0 < size → Full size qs → length qs ≤ total qs
length-le-total size [] s f = omega arith
length-le-total size (q ∷ []) s f = omega (arith, f)
length-le-total size (q ∷ p ∷ ps) s f = omega (arith, f.0, length-le-total size (p ∷ ps) s f.1)

joined-append : (ps qs : Pieces) → joined (ps ++ qs) ≡ joined ps ++ joined qs
joined-append [] qs = refl
joined-append (p ∷ ps) qs =
    ap (λ x. p ++ x) (joined-append ps qs) ∙ sym (append_assoc p (joined ps) (joined qs))

module _ (request : InstallSnapshotRequest) (size fuel : ℕ) (sized : 0 < size) where
  -- The payload has the length of the pieces that are taken and of those that are left.
  pub payload_length :
      (ps qs : Pieces)
      → joined (ps ++ qs) ≡ request.payload
      → length request.payload ≡ total ps + total qs
  payload_length ps qs e =
      ap length (sym e)
      ∙ ap length (joined-append ps qs)
      ∙ omega (arith, length-append (joined ps) (joined qs), length-joined ps, length-joined qs)

  -- The loop over the chunks behind a piece gives the request.
  rest_completes :
      (i : ℕ) (ps qs : Pieces) (a : SnapshotChunkAssembler)
      → Ready request ps a
      → i * size ≡ total ps
      → Full size qs
      → joined (ps ++ qs) ≡ request.payload
      → length ps + length qs + 1 < fuel
      → push_rest fuel request (number_chunks request size i qs) a ≡ some (ok request)
  unfolding push_rest number_chunks
  rest_completes i ps [] a v at f e enough = refl
  rest_completes i ps (q ∷ []) a v at f e enough =
      rw
        (
          push_rest,
          (finishes request ps q a (i * size) fuel v at f (omega arith)
              (le→leb _ _ (omega (arith, payload_length ps (q ∷ []) e, at))) e).1,
        )
        refl
  rest_completes i ps (q ∷ p ∷ qs) a v at f e enough =
      rw (push_rest, takes request ps q a (i * size) fuel v at positive (omega arith) short)
        (rest_completes (suc i) (ps ++ q ∷ []) (p ∷ qs)
          (taken request ps q a (i * size) fuel v at positive (omega arith))
          (taken-Ready request ps q a (i * size) fuel v at positive (omega arith) short)
          (omega (arith, suc-mul i size, total-append ps q, f.0, at)) f.1
          (ap joined (append_assoc ps (q ∷ []) (p ∷ qs)) ∙ e)
          (omega (arith, length-append ps (q ∷ []))))
    where
      positive : 0 < length q
      positive = omega (arith, f.0)

      short : leb (length request.payload) (i * size + length q) ≡ false
      short = lt→leb_false _ _ (
          omega
            (arith, payload_length ps (q ∷ p ∷ qs) e, at, length-le-total size (p ∷ qs) sized f.1))

  pub begins : (q : List ℕ) → Ready request [] (empty_assembler (numbered request (0 * size) q))
  begins q = record {
    term = refl;
    leader_id = refl;
    metadata = refl;
    held = tt;
    beyond = λ k le. refl;
    next = refl;
    unfinished = refl;
  }

  -- The first chunk opens the assembler.
  pub first_completes :
      (q : List ℕ) (qs : Pieces)
      → Full size (q ∷ qs)
      → joined (q ∷ qs) ≡ request.payload
      → length (q ∷ qs) + 1 < fuel
      → continue_with fuel request
          (number_chunks request size 1 qs)
          (open_assembler fuel (numbered request (0 * size) q))
        ≡ some (ok request)
  unfolding open_assembler push_rest number_chunks
  first_completes q [] f e enough =
      rw
        (
          open_assembler,
          (finishes request [] q (empty_assembler (numbered request (0 * size) q)) (0 * size) fuel
              (begins q) (omega arith) f (omega arith)
              (le→leb _ _ (omega (arith, payload_length [] (q ∷ []) e))) e).1,
        )
        refl
  first_completes q (p ∷ qs) f e enough =
      rw
        (
          open_assembler,
          takes request [] q (empty_assembler (numbered request (0 * size) q)) (0 * size) fuel
              (begins q) (omega arith) positive (omega arith) short,
        )
        (rest_completes 1 (q ∷ []) (p ∷ qs)
          (taken request [] q (empty_assembler (numbered request (0 * size) q)) (0 * size) fuel
            (begins q) (omega arith) positive (omega arith))
          (taken-Ready request [] q (empty_assembler (numbered request (0 * size) q)) (0 * size)
            fuel (begins q) (omega arith) positive (omega arith) short)
          (omega (arith, f.0)) f.1 e (omega arith))
    where
      positive : 0 < length q
      positive = omega (arith, f.0)

      short : leb (length request.payload) (0 * size + length q) ≡ false
      short =
          lt→leb_false _ _ (
            omega
              (arith, payload_length [] (q ∷ p ∷ qs) e, length-le-total size (p ∷ qs) sized f.1))
