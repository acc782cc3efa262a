-- ===== src/Raft/SameLog.antt =====
-- What stepping down and saving leave alone: the log, the snapshot and the commit index.
use neo4r.Raft.State.{RaftCore, save_state, step_down}
use neo4r.Prelude.{Bool, arith, false, if◌then◌else◌, ok, refl, true, ℕ, ◌∙◌, ◌≡◌}

pub record SameLog (before after : RaftCore) : Type 0 where
  pub log : after.log ≡ before.log
  pub snapshot : after.snapshot ≡ before.snapshot
  pub commit : after.commit_index ≡ before.commit_index
  pub shard : after.shard_id ≡ before.shard_id

pub SameLog-refl : (r : RaftCore) → SameLog r r
SameLog-refl r = record { log = refl; snapshot = refl; commit = refl; shard = refl }

pub SameLog-trans : (a b c : RaftCore) → SameLog a b → SameLog b c → SameLog a c
SameLog-trans a b c k l = record {
  log = l.log ∙ k.log;
  snapshot = l.snapshot ∙ k.snapshot;
  commit = l.commit ∙ k.commit;
  shard = l.shard ∙ k.shard;
}

pub save_state-SameLog : (r : RaftCore) → SameLog r (save_state r).1
unfolding save_state
save_state-SameLog r = ground arith

pub step_down-SameLog : (term : ℕ) (r : RaftCore) → SameLog r (step_down term r).1
unfolding step_down
step_down-SameLog term r = ground arith

-- the guarded call `if … { self.step_down(term)?; }`
pub if_step_down-SameLog :
    (b : Bool) (term : ℕ) (r : RaftCore) → SameLog r (if b then step_down term r else (ok tt, r)).1
if_step_down-SameLog true term r = step_down-SameLog term r
if_step_down-SameLog false term r = SameLog-refl r
