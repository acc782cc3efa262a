-- ===== src/Raft/Membership.antt =====
-- crates/neo4r-db/src/raft/membership.rs: voters, the outgoing voters of a joint configuration, and
-- learners.
pub mod Quorums
use neo4r.Prelude.IdSet
use neo4r.Prelude.IdSet.{IdSet}
use neo4r.Raft.Errors.{DatabaseError, invalid_config}
use neo4r.Prelude.{
  Bool, List, Method, Option, Result, [], err, false, if◌then◌else◌, leb, length, none, ok, some,
  true, ℕ, ◌&&◌, ◌+◌, ◌/◌, ◌==◌, ◌||◌, ◌∷◌,
}

pub record RaftMembership : Type 0 where
  pub voters : IdSet
  pub outgoing_voters : Option IdSet
  pub learners : IdSet

pub data RaftMembershipChange : Type 0 where
  add_learner_change promote_learner_change add_voter_change remove_voter_change :
      ℕ → RaftMembershipChange

abbrev is_empty : IdSet → Bool
is_empty [] = true
is_empty (x ∷ xs) = false

unfoldable pub new : List ℕ → Result DatabaseError RaftMembership
new servers =
    let voters = IdSet.from_list servers in
    if is_empty voters
    then err invalid_config
    else ok (record { voters = voters; outgoing_voters = none; learners = [] })

abbrev pub is_joint : RaftMembership → Bool
is_joint m = elim m.outgoing_voters [ none ↦ false | some _ ↦ true ]

pub quorum_size : RaftMembership → ℕ
quorum_size m = length m.voters / 2 + 1

unfoldable pub contains : RaftMembership → ℕ → Bool
contains m server =
    IdSet.contains m.voters server
    || elim m.outgoing_voters [ none ↦ false | some old ↦ IdSet.contains old server ]

unfoldable pub is_member : RaftMembership → ℕ → Bool
unfolding contains
is_member m server = contains m server || IdSet.contains m.learners server

unfoldable pub has_majority : IdSet → IdSet → Bool
has_majority voters matched =
    leb (length voters / 2 + 1) (length (IdSet.intersection matched voters))

unfoldable pub has_quorum : RaftMembership → IdSet → Bool
has_quorum m matched =
    has_majority m.voters matched
    && elim m.outgoing_voters [ none ↦ true | some old ↦ has_majority old matched ]

unfoldable pub all_voters : RaftMembership → IdSet
all_voters m = elim m.outgoing_voters [ none ↦ m.voters | some old ↦ IdSet.union m.voters old ]

abbrev pub Change : Type 0
Change = Method DatabaseError RaftMembership (Unit {0})

unfoldable pub enter_joint : IdSet → Change
enter_joint next m =
    if is_empty next
    then (err invalid_config, m)
    else (ok tt, record m { voters = next; outgoing_voters = some m.voters })

unfoldable pub finalize_joint : RaftMembership → RaftMembership
finalize_joint m = record m { outgoing_voters = none }

unfoldable pub add_voter : ℕ → RaftMembership → RaftMembership
add_voter server m = record m {
  voters = IdSet.insert server m.voters;
  learners = IdSet.remove server m.learners;
}

unfoldable pub add_learner : ℕ → Change
unfolding contains
add_learner server m =
    if contains m server
    then (err invalid_config, m)
    else (ok tt, record m { learners = IdSet.insert server m.learners })

-- `learners.remove` says whether the server was a learner
unfoldable pub promote_learner : ℕ → Change
promote_learner server m =
    if IdSet.contains m.learners server
    then (
      ok tt,
      record m { voters = IdSet.insert server m.voters; learners = IdSet.remove server m.learners },
    )
    else (err invalid_config, m)

unfoldable pub remove_voter : ℕ → Change
remove_voter server m =
    if length m.voters == 1 && IdSet.contains m.voters server then (err invalid_config, m) else (
      ok tt,
      record m { voters = IdSet.remove server m.voters; learners = IdSet.remove server m.learners },
    )
