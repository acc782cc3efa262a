-- ===== src/Consensus/Proposals.antt =====
-- crates/neo4r-db/src/consensus.rs: the outcome of a proposal that no other thread interrupts.
use neo4r.Core.Clock.{tick}
use neo4r.Core.Command.{LogEntry}
use neo4r.Raft.Errors.{DatabaseError}
use neo4r.Consensus.{
  StaticPrimaryShardReplication, InProcessShardState, ProposedCommand, ShardCommitState,
  shard_state, set_shard, ensure_local_primary, entry_for, advance, allocate_entry, rolled_back,
  rollback_proposal, committed, mark_committed, commit_state, propose,
}
use neo4r.Consensus.Progress.{Behind, shard_state-set_shard}
use neo4r.Prelude.IdMap
use neo4r.Prelude.{
  Result, ap, arith, err, ltb, ok, refl, saturating_add, saturating_add_one, some, true, u64_max, ℕ,
  ◌&&◌, ◌-◌, ◌<◌, ◌==◌, ◌∙◌, ◌≡◌,
}

-- The entry that a proposal publishes.
abbrev pub proposal : ℕ → ProposedCommand → StaticPrimaryShardReplication → LogEntry
proposal physical proposed s = entry_for proposed (tick physical s.clock).0 s

-- what `commit_state` makes of the shard's state
abbrev commit_state_of : ℕ → InProcessShardState → ShardCommitState
commit_state_of k x = record {
  shard_id = k;
  term = x.current_term;
  commit_index = x.commit_index;
  last_log_index = x.next_index - 1;
}

set_self :
    (k : ℕ) (x : InProcessShardState) (s : StaticPrimaryShardReplication)
    → shard_state (set_shard k x s) k ≡ x
set_self k x s = shard_state-set_shard k k x s ∙ ground arith

-- Taking the index of an entry back undoes its allocation.
undone :
    (e : LogEntry) (x : InProcessShardState)
    → e.index ≡ x.next_index
    → e.term ≡ x.current_term
    → x.commit_index < x.next_index
    → rolled_back e (record x { next_index = saturating_add u64_max x.next_index 1 })
      ≡ record x { next_index = e.index }
unfolding rolled_back
undone e x index term behind = rw (matches) refl
  where
    matches :
        (saturating_add u64_max x.next_index 1 == saturating_add u64_max e.index 1
          && ltb x.commit_index e.index
          && x.current_term == e.term)
        ≡ true
    matches = rw (index, term) (ground arith)

module _ (publish : LogEntry → Result DatabaseError (Unit {0})) (physical : ℕ)
    (proposed : ProposedCommand) (s : StaticPrimaryShardReplication)
    (primary : ensure_local_primary proposed.shard_id s ≡ ok tt)
    (v : Behind (shard_state s proposed.shard_id))
    (room : (shard_state s proposed.shard_id).next_index < u64_max) where
  allocated :
      allocate_entry physical proposed s
      ≡ (ok (proposal physical proposed s), advance physical proposed.shard_id s)
  unfolding allocate_entry
  allocated = rw (allocate_entry, primary) refl

  -- If the server is the shard's primary, the shard's commit index is behind its next index and the next
  -- index is below the last one, a proposal that the replicator publishes gives the entry at the shard's
  -- next index, and the shard's commit index is then that index, as is the last index of its log.
  pub propose_published :
      publish (proposal physical proposed s) ≡ ok tt
      → ((propose publish physical proposed s).0 ≡ ok (proposal physical proposed s))
        × ((commit_state (propose publish physical proposed s).1 proposed.shard_id).commit_index
            ≡ (shard_state s proposed.shard_id).next_index)
        × ((commit_state (propose publish physical proposed s).1 proposed.shard_id).last_log_index
            ≡ (shard_state s proposed.shard_id).next_index)
  unfolding propose mark_committed commit_state advance entry_for committed
  propose_published done = (
    ap (λ o. o.0) outcome,
    ap (λ x. x.commit_index) final ∙ ground arith,
    ap (λ x. x.next_index - 1) final ∙ ground (arith, saturating_add_one u64_max x.next_index room),
  )
    where
      x : InProcessShardState
      x = shard_state s proposed.shard_id

      outcome : propose publish physical proposed s ≡ (
        ok (proposal physical proposed s),
        mark_committed (proposal physical proposed s) (advance physical proposed.shard_id s),
      )
      outcome = rw (propose, allocated, done) refl

      final :
          shard_state (propose publish physical proposed s).1 proposed.shard_id
          ≡ committed
              (proposal physical proposed s)
              (record x { next_index = saturating_add u64_max x.next_index 1 })
      final =
          ap (λ o. shard_state o.1 proposed.shard_id) outcome
          ∙ set_self proposed.shard_id _ (advance physical proposed.shard_id s)
          ∙ ap (committed (proposal physical proposed s)) (set_self proposed.shard_id _ _)

  -- If the server is the shard's primary, the shard's commit index is behind its next index and the next
  -- index is below the last one, a proposal that the replicator refuses gives the error, and the shard's
  -- commit state is what it was before.
  pub propose_refused :
      (x : DatabaseError)
      → publish (proposal physical proposed s) ≡ err x
      → ((propose publish physical proposed s).0 ≡ err x)
        × (commit_state (propose publish physical proposed s).1 proposed.shard_id
            ≡ commit_state s proposed.shard_id)
  unfolding propose rollback_proposal commit_state advance entry_for set_shard
  propose_refused x failed = (
    ap (λ o. o.0) outcome,
    ap (λ z. commit_state_of proposed.shard_id z)
        (ap (λ o. shard_state o.1 proposed.shard_id) outcome
          ∙ ap (λ r. shard_state r proposed.shard_id) rolled
          ∙ set_self proposed.shard_id _ (advance physical proposed.shard_id s)
          ∙ undone (proposal physical proposed s) y refl refl v.0),
  )
    where
      y : InProcessShardState
      y = shard_state s proposed.shard_id

      outcome : propose publish physical proposed s ≡ (
        err x,
        rollback_proposal (proposal physical proposed s) (advance physical proposed.shard_id s),
      )
      outcome = rw (propose, allocated, failed) refl

      y' : InProcessShardState
      y' = record y { next_index = saturating_add u64_max y.next_index 1 }

      found : IdMap.get (advance physical proposed.shard_id s).states proposed.shard_id ≡ some y'
      found = IdMap.get-insert proposed.shard_id proposed.shard_id y' s.states ∙ ground arith

      rolled :
          rollback_proposal (proposal physical proposed s) (advance physical proposed.shard_id s)
          ≡ set_shard proposed.shard_id
              (rolled_back (proposal physical proposed s) y')
              (advance physical proposed.shard_id s)
      rolled = rw (rollback_proposal, found) refl
