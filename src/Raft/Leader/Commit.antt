-- ===== src/Raft/Leader/Commit.antt =====
-- What a leader commits: the highest index that a quorum has matched, if its entry is of the
-- leader's term; and what a read index promises.
use neo4r.Prelude.Descending.{Descending, sort-Descending, contains-sort_descending, le_of_contains}
use neo4r.Prelude.IdSet
use neo4r.Prelude.IdSet.{IdSet}
use neo4r.Prelude.IdMap
use neo4r.Raft.Membership
use neo4r.Raft.Membership.{has_quorum, has_majority}
use neo4r.Raft.Membership.Quorums.{quorums_meet}
use neo4r.Raft.State.{RaftCore, is_leader}
use neo4r.Raft.Votes.{matched_voters}
use neo4r.Raft.Leader.{
  match_of, voters_at, first_quorum, quorum_index, in_current_term, advance_leader_commit_index,
  read_index,
}
use neo4r.Prelude.{
  ==_iff, All, Bool, Bool-cases, List, Option-cases, [], arith, false, inl, inr, leb, leb→le, ltb,
  map, ok, refl, retain, some, sort_descending, subst, sym, true, ℕ, ◌&&◌, ◌<◌, ◌==◌, ◌∷◌, ◌≡◌, ◌≤◌,
  ◌⊎◌,
}

module _ (r : RaftCore) where
  abbrev is_quorum_at : ℕ → Bool
  is_quorum_at k = has_quorum r.membership (voters_at r k)

  -- The loop stops at an index that a quorum has matched, or at none.
  first_quorum_found :
      (ks : List ℕ) → 0 < first_quorum r ks → is_quorum_at (first_quorum r ks) ≡ true
  unfolding first_quorum
  first_quorum_found [] h = absurd (omega arith)
  first_quorum_found (k ∷ ks) h = elim (Bool-cases (is_quorum_at k)) [
    | inl found ↦ rw found found
    | inr next ↦ rw next (first_quorum_found ks (rw next at h))
  ]

  first_quorum_best :
      (k : ℕ) (ks : List ℕ)
      → Descending ks
      → IdSet.contains ks k ≡ true
      → is_quorum_at k ≡ true
      → k ≤ first_quorum r ks
  unfolding first_quorum
  first_quorum_best k [] d h q = ground arith
  first_quorum_best k (j ∷ ks) d h q = elim (Bool-cases (j == k)) [
    | inl same ↦ rw ((==_iff j k).0 same, q) (omega arith)
    | inr other ↦
        let below : k ≤ j = ground (arith, le_of_contains k j ks d.0) in
        let later : k ≤ first_quorum r ks = first_quorum_best k ks d.1 (rw other at h) q in
        elim (Bool-cases (is_quorum_at j)) [ inl found ↦ rw found below | inr next ↦ rw next later ]
  ]

-- Either no voter of the list has matched `k`, or some voter's match index is the least of those
-- from `k` on.
abbrev NoneAt : RaftCore → ℕ → List ℕ → Type 0
NoneAt r k = All (λ s. match_of r s < k)

abbrev NoneBetween : RaftCore → ℕ → ℕ → List ℕ → Type 0
NoneBetween r k j = All (λ s. k ≤ match_of r s → j ≤ match_of r s)

abbrev Least : RaftCore → ℕ → List ℕ → Type 0
Least r k vs =
    NoneAt r k vs
    ⊎ ((j : ℕ) × (k ≤ j) × (IdSet.contains (map (match_of r) vs) j ≡ true) × NoneBetween r k j vs)

module _ (r : RaftCore) (k : ℕ) where
  NoneBetween-of_NoneAt : (j : ℕ) (vs : List ℕ) → NoneAt r k vs → NoneBetween r k j vs
  NoneBetween-of_NoneAt j [] a = tt
  NoneBetween-of_NoneAt j (v ∷ vs) a = (λ h. absurd (omega arith), NoneBetween-of_NoneAt j vs a.1)

  NoneBetween-mono : (i j : ℕ) (vs : List ℕ) → i ≤ j → NoneBetween r k j vs → NoneBetween r k i vs
  NoneBetween-mono i j [] h a = tt
  NoneBetween-mono i j (v ∷ vs) h a = (λ g. omega (arith, a.0 g), NoneBetween-mono i j vs h a.1)

  Least-with : (v : ℕ) (vs : List ℕ) → Least r k vs → Least r k (v ∷ vs)
  Least-with v vs (inl low) = elim (Bool-cases (leb k (match_of r v))) [
    | inl high ↦ inr (
      match_of r v,
      leb→le _ _ high,
      ground arith,
      (λ _. omega arith, NoneBetween-of_NoneAt _ vs low),
    )
    | inr below ↦ inl (ground arith, low)
  ]
  Least-with v vs (inr (j, above, held, gap)) =
      elim (Bool-cases (leb k (match_of r v) && ltb (match_of r v) j)) [
        | inl between ↦ inr (
          match_of r v,
          ground arith,
          ground arith,
          (λ _. omega arith, NoneBetween-mono (match_of r v) j vs (ground arith) gap),
        )
        | inr outside ↦ inr (j, above, ground arith, (λ g. ground arith, gap))
      ]

  least : (vs : List ℕ) → Least r k vs
  least [] = inl tt
  least (v ∷ vs) = Least-with v vs (least vs)

  retain-NoneBetween :
      (j : ℕ) (vs : List ℕ)
      → k ≤ j
      → NoneBetween r k j vs
      → retain (λ s. leb j (match_of r s)) vs ≡ retain (λ s. leb k (match_of r s)) vs
  retain-NoneBetween j [] h a = refl
  retain-NoneBetween j (v ∷ vs) h a = ground (arith, a.0, retain-NoneBetween j vs h a.1)

  retain-NoneAt : (vs : List ℕ) → NoneAt r k vs → retain (λ s. leb k (match_of r s)) vs ≡ []
  retain-NoneAt [] a = refl
  retain-NoneAt (v ∷ vs) a = ground (arith, retain-NoneAt vs a.1)

intersection_nil : (vs : IdSet) → IdSet.intersection [] vs ≡ []
intersection_nil [] = refl
intersection_nil (v ∷ vs) = intersection_nil vs

quorum_nil : (m : Membership.RaftMembership) → has_quorum m [] ≡ false
unfolding has_quorum has_majority
quorum_nil m = rw (intersection_nil m.voters) (ground arith)

-- Whatever index a quorum of the voters has matched, the quorum index is at least that.
quorum_index_best : (r : RaftCore) (k : ℕ) → is_quorum_at r k ≡ true → k ≤ quorum_index r
unfolding quorum_index voters_at
quorum_index_best r k q = elim (least r k (Membership.all_voters r.membership)) [
  | inl low ↦ absurd (cc (quorum_nil r.membership, retain-NoneAt r k _ low))
  | inr (j, above, held, gap) ↦ omega (
    arith,
    first_quorum_best r j _
        (sort-Descending (map (match_of r) (Membership.all_voters r.membership)))
        (contains-sort_descending j _ held) (rw (retain-NoneBetween r k j _ above gap) q),
  )
]

-- `k` is past the commit index of a leader, a quorum has matched it, and its entry is of the leader's
-- term.
abbrev pub Commits : RaftCore → ℕ → Type 0
Commits r k =
    (r.commit_index < k)
    × (is_leader r.role ≡ true)
    × (has_quorum r.membership (voters_at r k) ≡ true)
    × (in_current_term r k ≡ true)

quorum_index-Commits :
    (r : RaftCore) → r.commit_index < quorum_index r → is_quorum_at r (quorum_index r) ≡ true
unfolding quorum_index
quorum_index-Commits r later =
    first_quorum_found r (sort_descending (map (match_of r) (Membership.all_voters r.membership)))
      (omega arith)

-- The rule by which a commit index advances: it stays, or it moves to a later index of a leader that a
-- quorum of the voters has matched and whose entry is of the leader's term.
pub commit_rule :
    (r : RaftCore)
    → ((advance_leader_commit_index r).commit_index ≡ r.commit_index)
      ⊎ Commits r (advance_leader_commit_index r).commit_index
unfolding advance_leader_commit_index
commit_rule r = elim (Bool-cases (is_leader r.role)) [
  | inr other ↦ rw other (inl refl)
  | inl role ↦ elim (Bool-cases (leb (quorum_index r) r.commit_index)) [
    | inl old ↦ rw (role, old) (inl refl)
    | inr new ↦ elim (Bool-cases (in_current_term r (quorum_index r))) [
      | inl current ↦
          rw (role, new, current)
            (inr (ground arith, refl, quorum_index-Commits r (ground arith), current))
      | inr foreign ↦ rw (role, new, foreign) (inl refl)
    ]
  ]
]

-- Where the highest index that a quorum has matched has an entry of the leader's term, the leader
-- commits every index that a quorum of the voters has matched.
pub commit_is_complete :
    (r : RaftCore) (k : ℕ)
    → is_leader r.role ≡ true
    → in_current_term r (quorum_index r) ≡ true
    → has_quorum r.membership (voters_at r k) ≡ true
    → k ≤ (advance_leader_commit_index r).commit_index
unfolding advance_leader_commit_index
commit_is_complete r k role current q = elim (Bool-cases (leb (quorum_index r) r.commit_index)) [
  | inl old ↦ rw (role, old) (omega (arith, leb→le _ _ old, quorum_index_best r k q))
  | inr new ↦ rw (role, new, current) (quorum_index_best r k q)
]

contains-retain :
    (p : ℕ → Bool) (vs : IdSet) (s : ℕ) → IdSet.contains (retain p vs) s ≡ true → p s ≡ true
contains-retain p [] s h = ground arith
contains-retain p (v ∷ vs) s h = ground (arith, contains-retain p vs s)

-- The voter's recorded match index is at least `k`.
abbrev pub MatchedBy : RaftCore → ℕ → ℕ → Type 0
MatchedBy r k s = (m : ℕ) × (IdMap.get r.match_indexes s ≡ some m) × (k ≤ m)

matched_voters-MatchedBy :
    (r : RaftCore) (k s : ℕ) → IdSet.contains (matched_voters r k) s ≡ true → MatchedBy r k s
unfolding matched_voters
matched_voters-MatchedBy r k s h = elim (Option-cases (IdMap.get r.match_indexes s)) [
  | inl absent ↦ absurd (ground (arith, contains-retain _ (Membership.all_voters r.membership) s h))
  | inr (m, found) ↦
      (m, found, ground (arith, contains-retain _ (Membership.all_voters r.membership) s h))
]

read_index_tests :
    (r : RaftCore) (k : ℕ)
    → read_index r ≡ ok k
    → (k ≡ r.commit_index)
      × (is_leader r.role ≡ true)
      × (has_quorum r.membership (matched_voters r r.commit_index) ≡ true)
unfolding read_index
read_index_tests r k h = ground arith

-- A read index that a leader gives is its commit index, and every quorum has a voter that the leader
-- knows to have matched it.
pub read_index_quorum :
    (r : RaftCore) (k : ℕ) (quorum : IdSet)
    → read_index r ≡ ok k
    → has_quorum r.membership quorum ≡ true
    → (k ≡ r.commit_index)
      × (is_leader r.role ≡ true)
      × ((s : ℕ) × (IdSet.contains quorum s ≡ true) × MatchedBy r k s)
read_index_quorum r k quorum h q =
    let (same, role, confirmed) = read_index_tests r k h in
    let (s, _, known, in_quorum) =
      quorums_meet r.membership (matched_voters r r.commit_index) quorum confirmed q in
    (
      same,
      role,
      (
        s,
        in_quorum,
        subst (λ i. MatchedBy r i s) (sym same) (matched_voters-MatchedBy r r.commit_index s known),
      ),
    )
