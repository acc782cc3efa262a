-- ===== src/Raft/Membership/Quorums.antt =====
-- Any two quorums of a configuration share a voter, also across the two halves of a joint one.
use neo4r.Prelude.IdSet
use neo4r.Prelude.IdSet.{IdSet}
use neo4r.Raft.Membership.{RaftMembership, has_majority, has_quorum, enter_joint, finalize_joint}
use neo4r.Prelude.{
  Option, Option-cases, [], and_parts, arith, if◌then◌else◌, inl, inr, length, none, refl, some,
  true, ℕ, ◌&&◌, ◌+◌, ◌∷◌, ◌≡◌, ◌≢◌, ◌≤◌,
}

-- A server of `voters` that both sets hold.
abbrev pub Shared : IdSet → IdSet → IdSet → Type 0
Shared voters a b =
    (s : ℕ) × (IdSet.contains voters s ≡ true)
    × (IdSet.contains a s ≡ true)
    × (IdSet.contains b s ≡ true)

common : IdSet → IdSet → IdSet → Option ℕ
common a b [] = none
common a b (v ∷ vs) = if IdSet.contains a v && IdSet.contains b v then some v else common a b vs

common-Shared :
    (a b vs : IdSet) (s : ℕ)
    → common a b vs ≡ some s
    → (IdSet.contains vs s ≡ true) × (IdSet.contains a s ≡ true) × (IdSet.contains b s ≡ true)
unfolding common
common-Shared a b [] s h = ground arith
common-Shared a b (v ∷ vs) s h = ground (arith, common-Shared a b vs s)

-- Two parts of a list with no element in common are together no longer than it.
common-none :
    (a b vs : IdSet)
    → common a b vs ≡ none
    → length (IdSet.intersection a vs) + length (IdSet.intersection b vs) ≤ length vs
unfolding common
common-none a b [] h = omega arith
common-none a b (v ∷ vs) h = ground (arith, common-none a b vs)

-- Two majorities of one set of voters share a voter.
pub majorities_meet :
    (voters a b : IdSet)
    → has_majority voters a ≡ true
    → has_majority voters b ≡ true
    → Shared voters a b
unfolding has_majority
majorities_meet voters a b h k = elim (Option-cases (common a b voters)) [
  | inl e ↦ absurd (ground (arith, common-none a b voters e))
  | inr (s, e) ↦ let (v, in_a, in_b) = common-Shared a b voters s e in (s, v, in_a, in_b)
]

-- Any two quorums of a configuration, joint or not, share one of its voters.
pub quorums_meet :
    (m : RaftMembership) (a b : IdSet)
    → has_quorum m a ≡ true
    → has_quorum m b ≡ true
    → Shared m.voters a b
unfolding has_quorum
quorums_meet m a b h k = majorities_meet m.voters a b (and_parts _ _ h).0 (and_parts _ _ k).0

-- While a configuration that was not joint moves to the voters `next`, a quorum of the joint
-- configuration shares an old voter with every quorum from before the change.
pub joint_quorum_meets_old :
    (m : RaftMembership) (next a b : IdSet)
    → m.outgoing_voters ≡ none
    → next ≢ []
    → has_quorum (enter_joint next m).1 a ≡ true
    → has_quorum m b ≡ true
    → Shared m.voters a b
unfolding has_quorum enter_joint
joint_quorum_meets_old m [] a b e ne h k = absurd (ne refl)
joint_quorum_meets_old m (x ∷ xs) a b e ne h k =
    majorities_meet m.voters a b (and_parts _ _ h).1 (and_parts _ _ k).0

-- And it shares a new voter with every quorum from after the change.
pub joint_quorum_meets_new :
    (m : RaftMembership) (next a b : IdSet)
    → next ≢ []
    → has_quorum (enter_joint next m).1 a ≡ true
    → has_quorum (finalize_joint (enter_joint next m).1) b ≡ true
    → Shared next a b
unfolding has_quorum enter_joint finalize_joint
joint_quorum_meets_new m [] a b ne h k = absurd (ne refl)
joint_quorum_meets_new m (x ∷ xs) a b ne h k =
    majorities_meet (x ∷ xs) a b (and_parts _ _ h).0 (and_parts _ _ k).0
