-- ===== src/Raft/Leader.antt =====
-- crates/neo4r-db/src/raft.rs: the leader's side of log replication, reads, and membership changes.
pub mod Commit
use neo4r.Prelude.IdSet
use neo4r.Prelude.IdMap
use neo4r.Core.Command.{Command, LogEntry, new_entry}
use neo4r.Raft.Errors.{
  DatabaseError, invalid_config, replication, unexpected_log_index, log_conflict,
}
use neo4r.Raft.Membership
use neo4r.Raft.Membership.{
  RaftMembershipChange, add_learner_change, promote_learner_change, add_voter_change,
  remove_voter_change,
}
use neo4r.Raft.State.{RaftCore, Raft, follower, is_leader, entry_at, last_log_index}
use neo4r.Raft.Votes.{matched_voters, refresh_leader_lease_if_quorum}
use neo4r.Prelude.{
  Bool, List, Result, [], and_then, err, false, if◌then◌else◌, leb, map, none, not, ok, retain,
  saturating_add, some, sort_descending, u64_max, ℕ, ◌%◌, ◌&&◌, ◌*◌, ◌++◌, ◌+◌, ◌-◌, ◌/◌, ◌==◌, ◌^◌,
  ◌∷◌,
}

abbrev pub match_of : RaftCore → ℕ → ℕ
match_of r server = elim (IdMap.get r.match_indexes server) [ none ↦ 0 | some k ↦ k ]

-- The voters whose match index, 0 where none is recorded, is at least `index`.
unfoldable pub voters_at : RaftCore → ℕ → List ℕ
voters_at r index = retain (λ s. leb index (match_of r s)) (Membership.all_voters r.membership)

-- the loop over the candidates, with its `break`
unfoldable pub first_quorum : RaftCore → List ℕ → ℕ
first_quorum r [] = 0
first_quorum r (k ∷ ks) =
    let rest = first_quorum r ks in
    if Membership.has_quorum r.membership (voters_at r k) then k else rest

unfoldable pub quorum_index : RaftCore → ℕ
quorum_index r =
    first_quorum r (sort_descending (map (match_of r) (Membership.all_voters r.membership)))

unfoldable pub in_current_term : RaftCore → ℕ → Bool
in_current_term r index = elim (entry_at r index) [
  | none ↦ false
  | some e ↦ e.term == r.current_term
]

unfoldable pub advance_leader_commit_index : RaftCore → RaftCore
advance_leader_commit_index r =
    if not (is_leader r.role)
    then r
    else if leb (quorum_index r) r.commit_index
    then r
    else if in_current_term r (quorum_index r)
    then record r { commit_index = quorum_index r }
    else r

-- `match_indexes.insert(..)`
abbrev pub set_match : ℕ → ℕ → RaftCore → RaftCore
set_match server index r = record r { match_indexes = IdMap.insert server index r.match_indexes }

-- the leader's own entry goes on the log and counts as matched by the leader
unfoldable pub append_own : LogEntry → Raft LogEntry
append_own e r = (
  ok e,
  advance_leader_commit_index (set_match r.server_id e.index (record r { log = r.log ++ e ∷ [] })),
)

unfoldable pub append_local_entry : Command → Raft LogEntry
append_local_entry command r =
    if not (is_leader r.role)
    then (err replication, r)
    else append_own
        (new_entry r.shard_id r.current_term (saturating_add u64_max (last_log_index r) 1) command)
        r

unfoldable pub append_existing_local_entry : LogEntry → Raft LogEntry
append_existing_local_entry e r =
    if not (is_leader r.role)
    then (err replication, r)
    else if not (e.shard_id == r.shard_id)
    then (err invalid_config, r)
    else if not (e.index == saturating_add u64_max (last_log_index r) 1)
    then (
      err (unexpected_log_index e.shard_id (saturating_add u64_max (last_log_index r) 1) e.index),
      r,
    )
    else if not (e.term == r.current_term)
    then (err (log_conflict e.shard_id e.index), r)
    else append_own e r

unfoldable pub record_replication_match : ℕ → ℕ → ℕ → Raft ℕ
record_replication_match now server index r =
    if not (is_leader r.role)
    then (err replication, r)
    else if not (Membership.is_member r.membership server)
    then (err invalid_config, r)
    else (let r' =
          refresh_leader_lease_if_quorum now
            (advance_leader_commit_index (set_match server index r)) in
        (ok r'.commit_index, r'))

unfoldable pub read_index : RaftCore → Result DatabaseError ℕ
read_index r =
    if not (is_leader r.role)
    then err replication
    else if not (Membership.has_quorum r.membership (matched_voters r r.commit_index))
    then err replication
    else ok r.commit_index

-- `Duration::MAX`, in nanoseconds
abbrev pub duration_max : ℕ
duration_max = u64_max * 1_000_000_000 + 999_999_999

-- the lease is not longer than the bounds on clock drift and message delay that are configured
abbrev pub lease_too_short : RaftCore → Bool
lease_too_short r =
    let required =
      saturating_add duration_max r.lease_clock_drift_bound r.lease_message_delay_bound in
    not (required == 0) && leb r.lease_duration required

abbrev pub lease_holds : ℕ → RaftCore → Bool
lease_holds now r = elim r.lease_deadline [ none ↦ false | some deadline ↦ leb now deadline ]

unfoldable pub leader_lease_read_index : ℕ → RaftCore → Result DatabaseError ℕ
leader_lease_read_index now r =
    if not (is_leader r.role)
    then err replication
    else if lease_too_short r
    then err replication
    else if lease_holds now r
    then ok r.commit_index
    else read_index r

-- `as_millis() as u64` of what is left, 0 past the deadline
unfoldable pub leader_lease_remaining_millis : ℕ → RaftCore → ℕ
leader_lease_remaining_millis now r = elim r.lease_deadline [
  | none ↦ 0
  | some deadline ↦ (if leb now deadline then (deadline - now) / 1_000_000 % 2 ^ 64 else 0)
]

unfoldable pub with_lease_duration : ℕ → RaftCore → RaftCore
with_lease_duration d r = record r { lease_duration = d }

unfoldable pub with_lease_clock_bounds : ℕ → ℕ → RaftCore → RaftCore
with_lease_clock_bounds drift delay r = record r {
  lease_clock_drift_bound = drift;
  lease_message_delay_bound = delay;
}

-- A change of the membership, as a method of the core.
abbrev pub on_membership : Membership.Change → Raft (Unit {0})
on_membership change r = let (out, m) = change r.membership in (out, record r { membership = m })

unfoldable pub begin_joint_consensus : List ℕ → Raft (Unit {0})
begin_joint_consensus voters r =
    if Membership.is_joint r.membership
    then (err invalid_config, r)
    else on_membership (Membership.enter_joint (IdSet.from_list voters)) r

unfoldable pub finalize_joint_consensus : RaftCore → RaftCore
finalize_joint_consensus r = record r { membership = Membership.finalize_joint r.membership }

-- what `RemoveVoter` does to the core once the membership has changed
abbrev forget_voter : ℕ → RaftCore → RaftCore
forget_voter server r =
    let r' = record r { match_indexes = IdMap.remove server r.match_indexes } in
    if server == r.server_id then record r' { role = follower; leader_id = none } else r'

unfoldable pub apply_committed_membership_change : RaftMembershipChange → Raft (Unit {0})
apply_committed_membership_change (add_learner_change s) r =
    on_membership (Membership.add_learner s) r
apply_committed_membership_change (promote_learner_change s) r =
    on_membership (Membership.promote_learner s) r
apply_committed_membership_change (add_voter_change s) r =
    (ok tt, record r { membership = Membership.add_voter s r.membership })
apply_committed_membership_change (remove_voter_change s) r =
    and_then (on_membership (Membership.remove_voter s) r) (λ _ r'. (ok tt, forget_voter s r'))
