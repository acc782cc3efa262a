-- ===== src/Raft/Invariant/Leading.antt =====
-- The leader's operations keep the invariant and never lower the commit index.
use neo4r.Core.Command.{Command, LogEntry}
use neo4r.Raft.Membership.{is_member}
use neo4r.Raft.State.{RaftCore, is_leader, entry_at, last_log_index}
use neo4r.Raft.Append.{push}
use neo4r.Raft.Votes.{refresh_leader_lease_if_quorum}
use neo4r.Raft.Leader.{
  quorum_index, in_current_term, advance_leader_commit_index, set_match, append_own,
  append_local_entry, append_existing_local_entry, record_replication_match,
}
use neo4r.Raft.SameLog.{SameLog}
use neo4r.Raft.Invariant.{
  Inv-of_SameLog, Inv, Advances, end_of, push-Inv, last_log_index-end_of, entry_at-some_bounds,
}
use neo4r.Prelude.{
  Bool-cases, Option-cases, arith, inl, inr, leb, refl, saturating_add, saturating_add_one, subst,
  suc, sym, true, u64_max, ℕ, ◌<◌, ◌∙◌, ◌≡◌, ◌≤◌, ◌⊎◌,
}

in_current_term-bounds : (r : RaftCore) (i : ℕ) → Inv r → in_current_term r i ≡ true → i ≤ end_of r
unfolding in_current_term
in_current_term-bounds r i v h = elim (Option-cases (entry_at r i)) [
  | inl absent ↦ absurd (ground arith)
  | inr (e, found) ↦ (entry_at-some_bounds r i e v found).1
]

pub advance-Advances : (r : RaftCore) → Inv r → Advances r (advance_leader_commit_index r)
unfolding advance_leader_commit_index
advance-Advances r v = elim (Bool-cases (is_leader r.role)) [
  | inr other ↦ rw other same
  | inl role ↦ elim (Bool-cases (leb (quorum_index r) r.commit_index)) [
    | inl old ↦ rw (role, old) same
    | inr new ↦ elim (Bool-cases (in_current_term r (quorum_index r))) [
      | inr foreign ↦ rw (role, new, foreign) same
      | inl current ↦
          rw (role, new, current)
            (record {
              inv = record {
                gapless = v.gapless;
                own = v.own;
                covered = ground (arith, v.covered);
                bounded = in_current_term-bounds r (quorum_index r) v current;
              };
              commit = ground arith;
            })
    ]
  ]
]
  where
    same : Advances r r
    same = record { inv = v; commit = omega arith }

-- The same for a state that differs in fields which the invariant does not read.
set_match-Inv : (server index : ℕ) (r : RaftCore) → Inv r → Inv (set_match server index r)
set_match-Inv server index r v = record {
  gapless = v.gapless;
  own = v.own;
  covered = v.covered;
  bounded = v.bounded;
}

append_own-Advances :
    (e : LogEntry) (r : RaftCore)
    → Inv r
    → e.index ≡ suc (end_of r)
    → e.shard_id ≡ r.shard_id
    → Advances r (append_own e r).1
unfolding append_own
append_own-Advances e r v h own =
    let a =
      advance-Advances _ (set_match-Inv r.server_id e.index (push e r) (push-Inv e r h own v)) in
    record { inv = a.inv; commit = a.commit }

next_index :
    (r : RaftCore)
    → Inv r
    → end_of r < u64_max
    → saturating_add u64_max (last_log_index r) 1 ≡ suc (end_of r)
next_index r v h = rw (last_log_index-end_of r v) (saturating_add_one u64_max (end_of r) h)

-- While an index is left, a leader that appends a command keeps the invariant and does not lower its
-- commit index; a server that does not lead changes nothing.
pub append_local_entry-Advances :
    (command : Command) (r : RaftCore)
    → Inv r
    → end_of r < u64_max
    → Advances r (append_local_entry command r).1
unfolding append_local_entry
append_local_entry-Advances command r v h = elim (Bool-cases (is_leader r.role)) [
  | inr other ↦ rw other (record { inv = v; commit = omega arith })
  | inl role ↦ rw role (append_own-Advances _ r v (next_index r v h) refl)
]

existing_cases :
    (e : LogEntry) (r : RaftCore)
    → ((append_existing_local_entry e r).1 ≡ r)
      ⊎ ((e.index ≡ saturating_add u64_max (last_log_index r) 1)
          × (e.shard_id ≡ r.shard_id)
          × ((append_existing_local_entry e r).1 ≡ (append_own e r).1))
unfolding append_existing_local_entry
existing_cases e r = ground arith

-- The same for an entry that the caller made: it is refused unless it is the next one.
pub append_existing_local_entry-Advances :
    (e : LogEntry) (r : RaftCore)
    → Inv r
    → end_of r < u64_max
    → Advances r (append_existing_local_entry e r).1
append_existing_local_entry-Advances e r v h = elim (existing_cases e r) [
  | inl same ↦ subst (Advances r) (sym same) (record { inv = v; commit = omega arith })
  | inr (index, own, taken) ↦
      subst (Advances r) (sym taken) (append_own-Advances e r v (index ∙ next_index r v h) own)
]

refresh-SameLog : (now : ℕ) (r : RaftCore) → SameLog r (refresh_leader_lease_if_quorum now r)
unfolding refresh_leader_lease_if_quorum
refresh-SameLog now r = ground arith

Advances-then_same : (a b c : RaftCore) → Advances a b → SameLog b c → Advances a c
Advances-then_same a b c k same = record {
  inv = Inv-of_SameLog b c same k.inv;
  commit = omega (arith, k.commit, same.commit);
}

-- Whatever match index a leader records for a member, the invariant holds after and the commit index
-- does not fall.
pub record_replication_match-Advances :
    (now server index : ℕ) (r : RaftCore)
    → Inv r
    → Advances r (record_replication_match now server index r).1
unfolding record_replication_match
record_replication_match-Advances now server index r v = elim (Bool-cases (is_leader r.role)) [
  | inr other ↦ rw other (record { inv = v; commit = omega arith })
  | inl role ↦ elim (Bool-cases (is_member r.membership server)) [
    | inr stranger ↦ rw (role, stranger) (record { inv = v; commit = omega arith })
    | inl member ↦
        rw (role, member)
          (let a = advance-Advances (set_match server index r) (set_match-Inv server index r v) in
            Advances-then_same r (advance_leader_commit_index (set_match server index r)) _
              (record { inv = a.inv; commit = a.commit }) (refresh-SameLog now _))
  ]
]
