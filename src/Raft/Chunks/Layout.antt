-- ===== src/Raft/Chunks/Layout.antt =====
-- Pieces of a payload that stand in the assembler's map one behind the other.
use mathlib.Core.List.{append-nil, append_assoc}
use neo4r.Raft.Messages.{InstallSnapshotRequest}
use neo4r.Raft.Chunks.{SnapshotChunkAssembler, Assembling, contiguous_len, collect}
use neo4r.Prelude.IdMap
use neo4r.Prelude.IdMap.{IdMap}
use neo4r.Prelude.{
  List, [], ap, arith, false, length, length-append, ltb, none, ok, refl, some, subst, suc, sym,
  true, zero, ℕ, ◌++◌, ◌+◌, ◌<◌, ◌∙◌, ◌∷◌, ◌≡◌, ◌≤◌,
}

abbrev pub Pieces : Type 0
Pieces = List (List ℕ)

abbrev pub total : Pieces → ℕ
total [] = 0
total (p ∷ ps) = length p + total ps

abbrev pub joined : Pieces → List ℕ
joined [] = []
joined (p ∷ ps) = p ++ joined ps

-- From an offset on the map holds the pieces, none of them empty.
abbrev pub Holds : IdMap (List ℕ) → ℕ → Pieces → Type 0
Holds m o [] = Unit
Holds m o (p ∷ ps) = (IdMap.get m o ≡ some p) × (0 < length p) × Holds m (o + length p) ps

abbrev pub EmptyFrom : IdMap (List ℕ) → ℕ → Type 0
EmptyFrom m e = (k : ℕ) → e ≤ k → IdMap.get m k ≡ none

pub total-append : (ps : Pieces) (q : List ℕ) → total (ps ++ q ∷ []) ≡ total ps + length q
total-append [] q = omega arith
total-append (p ∷ ps) q = omega (arith, total-append ps q)

pub length-joined : (ps : Pieces) → length (joined ps) ≡ total ps
length-joined [] = refl
length-joined (p ∷ ps) = omega (arith, length-append p (joined ps), length-joined ps)

insert-Holds :
    (m : IdMap (List ℕ)) (o e : ℕ) (q : List ℕ) (ps : Pieces)
    → o + total ps ≤ e
    → Holds m o ps
    → Holds (IdMap.insert e q m) o ps
insert-Holds m o e q [] le h = tt
insert-Holds m o e q (p ∷ ps) le (at, some_length, rest) = (
  ground (arith, IdMap.get-insert e o q m),
  some_length,
  insert-Holds m (o + length p) e q ps (omega arith) rest,
)

pub remove-Holds :
    (m : IdMap (List ℕ)) (o k : ℕ) (ps : Pieces)
    → k < o
    → Holds m o ps
    → Holds (IdMap.remove k m) o ps
remove-Holds m o k [] lt h = tt
remove-Holds m o k (p ∷ ps) lt (at, some_length, rest) = (
  ground (arith, IdMap.get-remove k o m),
  some_length,
  remove-Holds m (o + length p) k ps (omega arith) rest,
)

extend-Holds :
    (m : IdMap (List ℕ)) (o : ℕ) (ps : Pieces) (q : List ℕ)
    → IdMap.get m (o + total ps) ≡ some q
    → 0 < length q
    → Holds m o ps
    → Holds m o (ps ++ q ∷ [])
extend-Holds m o [] q at some_length h = (ap (IdMap.get m) (omega arith) ∙ at, some_length, tt)
extend-Holds m o (p ∷ ps) q at some_length (here, positive, rest) = (
  here,
  positive,
  extend-Holds m (o + length p) ps q (ap (IdMap.get m) (omega arith) ∙ at) some_length rest,
)

-- A piece that is inserted behind the last one extends them.
pub insert_next-Holds :
    (m : IdMap (List ℕ)) (ps : Pieces) (q : List ℕ)
    → 0 < length q
    → Holds m 0 ps
    → Holds (IdMap.insert (total ps) q m) 0 (ps ++ q ∷ [])
insert_next-Holds m ps q some_length h =
    extend-Holds (IdMap.insert (total ps) q m) 0 ps q
      (ground (arith, IdMap.get-insert (total ps) (total ps) q m)) some_length
      (insert-Holds m 0 (total ps) q ps (omega arith) h)

pub insert_next-EmptyFrom :
    (m : IdMap (List ℕ)) (e : ℕ) (q : List ℕ)
    → 0 < length q
    → EmptyFrom m e
    → EmptyFrom (IdMap.insert e q m) (e + length q)
insert_next-EmptyFrom m e q some_length h k le =
    ground (arith, IdMap.get-insert e k q m, h k (omega arith))

-- The first loop returns, with the end of the pieces, if its fuel exceeds their number.
contiguous_len-Holds :
    (fuel : ℕ) (m : IdMap (List ℕ)) (o : ℕ) (ps : Pieces)
    → length ps < fuel
    → Holds m o ps
    → EmptyFrom m (o + total ps)
    → contiguous_len fuel m o ≡ some (o + total ps)
unfolding contiguous_len
contiguous_len-Holds zero m o ps lt h e = absurd (omega arith)
contiguous_len-Holds (suc fuel) m o [] lt h e =
    rw (contiguous_len, e o (omega arith)) (ap some (omega arith))
contiguous_len-Holds (suc fuel) m o (p ∷ ps) lt (at, some_length, rest) e =
    rw (contiguous_len, at)
      (contiguous_len-Holds fuel m (o + length p) ps (omega arith) rest (λ k le. e k (omega arith))
        ∙ ap some (omega arith))

pub contiguous_len_start :
    (fuel : ℕ) (m : IdMap (List ℕ)) (ps : Pieces)
    → length ps < fuel
    → Holds m 0 ps
    → EmptyFrom m (total ps)
    → contiguous_len fuel m 0 ≡ some (total ps)
contiguous_len_start fuel m ps lt h e =
    contiguous_len-Holds fuel m 0 ps lt h (λ k le. e k (omega arith)) ∙ ap some (omega arith)

abbrev pub result_of : SnapshotChunkAssembler → List ℕ → InstallSnapshotRequest
result_of a payload = record {
  term = a.term;
  leader_id = a.leader_id;
  metadata = a.metadata;
  payload = payload;
}

abbrev pub Finishes : Assembling → InstallSnapshotRequest → Type 0
Finishes out request = (a : SnapshotChunkAssembler) × (out ≡ some (ok (some request), a))

-- So does the second, with the payload that the pieces make up.
pub collect-Holds :
    (fuel done o : ℕ) (acc : List ℕ) (ps : Pieces) (a : SnapshotChunkAssembler)
    → length ps < fuel
    → done ≡ o + total ps
    → Holds a.chunks o ps
    → Finishes (collect fuel done o acc a) (result_of a (acc ++ joined ps))
unfolding collect
collect-Holds zero done o acc ps a lt end h = absurd (omega arith)
collect-Holds (suc fuel) done o acc [] a lt end h =
    rw (collect, closed)
      (
        record a { next_offset = done },
        ap (λ x. some (ok (some (result_of a x)), record a { next_offset = done }))
            (sym (append-nil acc)),
      )
  where
    closed : ltb o done ≡ false
    closed = ground arith
collect-Holds (suc fuel) done o acc (p ∷ ps) a lt end (at, some_length, rest) =
    rw (collect, inside, at)
      (subst
        (λ x.
          Finishes
            (collect fuel done (o + length p) (acc ++ p)
              (record a { chunks = IdMap.remove o a.chunks }))
            (result_of a x))
        (append_assoc acc p (joined ps))
        (collect-Holds fuel done (o + length p) (acc ++ p) ps
          (record a { chunks = IdMap.remove o a.chunks }) (omega arith) (omega arith)
          (remove-Holds a.chunks (o + length p) o ps (omega arith) rest)))
  where
    inside : ltb o done ≡ true
    inside = ground arith
