-- ===== src/Core/Graph/Adjacency.antt =====
-- crates/neo4r-core/src/graph.rs: the loop of `delete_node`, and every command on the adjacency lists.
use neo4r.Core.Model.{Relationship}
use neo4r.Core.Index.Members.{member}
use neo4r.Core.Graph.{
  GraphState, ensure_node_exists, detach, detach_all, attached, ids_of, drop_node, delete,
}
use neo4r.Core.Graph.Edges.{Edges, related, from_node, to_node, detach-Edges, drop_node-Edges}
use neo4r.Prelude.Distinct.{
  Strict, dedup-sort-Strict, contains-dedup, contains-sort, contains-append, All-of_contains,
}
use neo4r.Prelude.Equality.{nat_eq, string_eq}
use neo4r.Prelude.HashMap
use neo4r.Prelude.HashMap.{HashMap}
use neo4r.Prelude.IdSet
use neo4r.Prelude.{
  ==_iff, All, All-both, Bool, Bool-cases, List, Option-cases, [], and_then_ok, and_then_state, ap,
  arith, false, if◌then◌else◌, inl, inr, none, ok, refl, sort_ids, sym, true, ℕ, ◌++◌, ◌<◌, ◌==◌,
  ◌||◌, ◌∙◌, ◌∷◌, ◌≡◌,
}

abbrev Present : GraphState → ℕ → Type 0
Present g i = HashMap.contains_key g.relationships i ≡ true

detach-Present : (id : ℕ) (g : GraphState) → Present g id → (detach id g).0 ≡ ok tt
unfolding detach
detach-Present id g there = elim (Option-cases (HashMap.get g.relationships id)) [
  | inl missing ↦ absurd (ground (arith, missing))
  | inr (r, found) ↦ rw (detach, found) refl
]

detach_gets :
    (id i : ℕ) (g : GraphState)
    → HashMap.get (detach id g).1.relationships i
      ≡ (if id == i then none else HashMap.get g.relationships i)
unfolding detach
detach_gets id i g = elim (Option-cases (HashMap.get g.relationships id)) [
  | inl missing ↦ rw (detach, missing) (ground (arith, absent missing))
  | inr (r, found) ↦ rw (detach, found) (HashMap.get-remove id i g.relationships)
]
  where
    absent :
        HashMap.get g.relationships id ≡ none
        → (id == i) ≡ true
        → HashMap.get g.relationships i ≡ none
    absent missing equal = ap (HashMap.get g.relationships) (sym ((==_iff id i).0 equal)) ∙ missing

still-Present : (id : ℕ) (g : GraphState) (i : ℕ) → id < i → Present g i → Present (detach id g).1 i
still-Present id g i later there = ground (arith, detach_gets id i g)

detach_all-Edges : (ids : List ℕ) (g : GraphState) → Edges g → Edges (detach_all ids g).1
unfolding detach_all
detach_all-Edges [] g v = v
detach_all-Edges (id ∷ ids) g v =
    and_then_state Edges (detach id g) (λ _. detach_all ids) (detach-Edges g v id)
      (λ _. detach_all-Edges ids _ (detach-Edges g v id))

-- The loop removes distinct relationships that are there, all of them and no other.
detach_all_removes :
    (ids : List ℕ) (g : GraphState)
    → Strict ids
    → All (Present g) ids
    → ((detach_all ids g).0 ≡ ok tt)
      × ((i : ℕ)
          → HashMap.get (detach_all ids g).1.relationships i
            ≡ (if IdSet.contains ids i then none else HashMap.get g.relationships i))
unfolding detach_all
detach_all_removes [] g s p = (refl, λ i. refl)
detach_all_removes (id ∷ ids) g s p =
    let (done, gets) = detach_all_removes ids (detach id g).1 s.1 later in
    let first = and_then_ok (detach id g) (λ _. detach_all ids) (detach-Present id g p.0) in
    (
      ap (λ o. o.0) first ∙ done,
      λ i.
          ap (λ o. HashMap.get o.1.relationships i) first
          ∙ ground (arith, gets i, detach_gets id i g),
    )
  where
    later : All (Present (detach id g).1) ids
    later =
        All-both (λ i. id < i) (Present g) (Present (detach id g).1) (still-Present id g) ids s.0
          p.1

contains-ids_of : (m : HashMap ℕ (List ℕ)) (f i : ℕ) → IdSet.contains (ids_of m f) i ≡ member m f i
contains-ids_of m f i = elim (Option-cases (HashMap.get m f)) [
  | inl missing ↦ rw (ids_of, missing) refl
  | inr (ids, found) ↦ rw (ids_of, found) refl
]

contains-attached :
    (id i : ℕ) (g : GraphState)
    → IdSet.contains (attached id g) i ≡ (member g.outgoing id i || member g.incoming id i)
unfolding attached
contains-attached id i g = ground (
  arith,
  contains-dedup (sort_ids (ids_of g.outgoing id ++ ids_of g.incoming id)) i,
  contains-sort (ids_of g.outgoing id ++ ids_of g.incoming id) i,
  contains-append (ids_of g.outgoing id) (ids_of g.incoming id) i,
  contains-ids_of g.outgoing id i,
  contains-ids_of g.incoming id i,
)

related-Present :
    (p : Relationship → Bool) (g : GraphState) (i : ℕ)
    → related p (HashMap.get g.relationships i) ≡ true
    → Present g i
related-Present p g i h = elim (Option-cases (HashMap.get g.relationships i)) [
  | inl missing ↦ absurd (ground (arith, missing))
  | inr (r, found) ↦ rw (HashMap.contains_key, found) refl
]

module _ (g : GraphState) (v : Edges g) (id : ℕ) where
  attached-Present : All (Present g) (attached id g)
  attached-Present = All-of_contains (Present g) (attached id g) (λ i there.
      elim (Bool-cases (member g.outgoing id i)) [
        | inl out ↦ related-Present (from_node id) g i (sym (v.out id i) ∙ out)
        | inr none_out ↦
            related-Present (to_node id) g i (v.inc id i (ground (arith, contains-attached id i g)))
      ])

  detached :
      ((detach_all (attached id g) g).0 ≡ ok tt)
      × ((i : ℕ)
          → HashMap.get (detach_all (attached id g) g).1.relationships i
            ≡ (if IdSet.contains (attached id g) i then none else HashMap.get g.relationships i))
  unfolding attached
  detached =
      detach_all_removes (attached id g) g
        (dedup-sort-Strict (ids_of g.outgoing id ++ ids_of g.incoming id)) attached-Present

  -- No relationship starts at the node any more.
  pub detached_alone :
      (i : ℕ)
      → related (from_node id) (HashMap.get (detach_all (attached id g) g).1.relationships i)
        ≡ false
  detached_alone i =
      ap (related (from_node id)) (detached.1 i)
      ∙ ground (arith, contains-attached id i g, v.out id i)

  pub delete-Edges : Edges (delete id g).1
  unfolding delete
  delete-Edges =
      and_then_state Edges (ensure_node_exists id g, g) _ v
        (λ _.
          and_then_state Edges (detach_all (attached id g) g) _
            (detach_all-Edges (attached id g) g v)
            (λ _. drop_node-Edges _ (detach_all-Edges (attached id g) g v) id detached_alone))

  pub delete_succeeds :
      HashMap.contains_key g.nodes id ≡ true
      → delete id g ≡ (ok tt, drop_node id (detach_all (attached id g) g).1)
  unfolding delete ensure_node_exists
  delete_succeeds there =
      and_then_ok (ensure_node_exists id g, g) _ exists
      ∙ and_then_ok (detach_all (attached id g) g) _ detached.0
    where
      exists : ensure_node_exists id g ≡ ok tt
      exists = rw (ensure_node_exists, there) refl
