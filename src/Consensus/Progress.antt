-- ===== src/Consensus/Progress.antt =====
-- crates/neo4r-db/src/consensus.rs: what calls in any order, from any threads, leave of the indexes,
-- and what a proposal does.
use neo4r.Core.Command.{LogEntry}
use neo4r.Core.Clock.{tick}
use neo4r.Core.Clock.{tick}
use neo4r.Raft.Errors.{DatabaseError}
use neo4r.Core.Shard.{ShardPlacement, ShardRoutingTable}
use neo4r.Consensus.{
  fresh_states, fresh_shard, new_primary, StaticPrimaryShardReplication, InProcessShardState,
  ProposedCommand, or_fresh, shard_state, set_shard, ensure_local_primary, advance, allocate_entry,
  rolled_back, rollback_proposal, committed, mark_committed, append_to, append_entry,
}
use neo4r.Prelude.IdMap
use neo4r.Prelude.{
  ==_iff, All, Bool, Bool-cases, List, Option-cases, Result, [], and_then_state, ap, arith, err,
  false, if◌then◌else◌, inl, inr, ok, refl, saturating_add, some, subst, sym, true, u64_max, ℕ, ◌<◌,
  ◌==◌, ◌∙◌, ◌∷◌, ◌≡◌, ◌≤◌,
}

-- The steps that take the lock: a proposal is an allocation, and later a commit or a rollback of its
-- entry, with the steps of other threads in between.
pub data Event : Type 0 where
  allocates : ℕ → ProposedCommand → Event
  rolls_back : LogEntry → Event
  commits : LogEntry → Event
  appends : LogEntry → Event

unfoldable pub step : Event → StaticPrimaryShardReplication → StaticPrimaryShardReplication
step (allocates physical proposed) s = (allocate_entry physical proposed s).1
step (rolls_back e) s = rollback_proposal e s
step (commits e) s = mark_committed e s
step (appends e) s = (append_entry e s).1

unfoldable pub run : List Event → StaticPrimaryShardReplication → StaticPrimaryShardReplication
run [] s = s
run (e ∷ es) s = run es (step e s)

-- Indexes below the last one, after which the next index cannot grow.
abbrev pub Below : Event → Type 0
Below (allocates physical proposed) = Unit
Below (rolls_back e) = e.index < u64_max
Below (commits e) = e.index < u64_max
Below (appends e) = e.index < u64_max

-- The commit index stays behind the next index, which fits its type.
abbrev pub Behind : InProcessShardState → Type 0
Behind x = (x.commit_index < x.next_index) × (x.next_index ≤ u64_max)

abbrev pub AllBehind : StaticPrimaryShardReplication → Type 0
AllBehind s = (shard : ℕ) → Behind (shard_state s shard)

-- A shard's commit index stays or grows, and stays behind the next index.
pub record Moves (x y : InProcessShardState) : Type 0 where
  pub grows : x.commit_index ≤ y.commit_index
  pub behind : Behind y

abbrev pub Progress : StaticPrimaryShardReplication → StaticPrimaryShardReplication → Type 0
Progress s t = (shard : ℕ) → Moves (shard_state s shard) (shard_state t shard)

Moves-stay : (x : InProcessShardState) → Behind x → Moves x x
Moves-stay x v = record { grows = omega arith; behind = v }

pub shard_state-set_shard :
    (k j : ℕ) (x : InProcessShardState) (s : StaticPrimaryShardReplication)
    → shard_state (set_shard k x s) j ≡ (if k == j then x else shard_state s j)
unfolding shard_state set_shard
shard_state-set_shard k j x s = ap or_fresh (IdMap.get-insert k j x s.states) ∙ lifted (k == j)
  where
    lifted :
        (b : Bool)
        → or_fresh (if b then some x else IdMap.get s.states j)
          ≡ (if b then x else or_fresh (IdMap.get s.states j))
    lifted true = refl
    lifted false = refl

set_shard-Progress :
    (k : ℕ) (x : InProcessShardState) (s : StaticPrimaryShardReplication)
    → AllBehind s
    → Moves (shard_state s k) x
    → Progress s (set_shard k x s)
set_shard-Progress k x s v m j = elim (Bool-cases (k == j)) [
  | inl same ↦
      rw (shard_state-set_shard k j x s, same)
        (subst (λ i. Moves (shard_state s i) x) ((==_iff k j).0 same) m)
  | inr apart ↦ rw (shard_state-set_shard k j x s, apart) (Moves-stay _ (v j))
]

allocated-Moves :
    (x : InProcessShardState)
    → Behind x
    → Moves x (record x { next_index = saturating_add u64_max x.next_index 1 })
unfolding saturating_add
allocated-Moves x v = record { grows = omega arith; behind = (ground arith, ground arith) }

rolled_back-Moves :
    (e : LogEntry) (x : InProcessShardState)
    → e.index < u64_max
    → Behind x
    → Moves x (rolled_back e x)
unfolding rolled_back
rolled_back-Moves e x b v = record { grows = ground arith; behind = (ground arith, ground arith) }

committed-Moves :
    (e : LogEntry) (x : InProcessShardState)
    → e.index < u64_max
    → Behind x
    → Moves x (committed e x)
unfolding committed saturating_add
committed-Moves e x b v = record { grows = omega arith; behind = (ground arith, ground arith) }

append_to-Moves :
    (e : LogEntry) (x y : InProcessShardState)
    → e.index < u64_max
    → Behind x
    → append_to e x ≡ ok y
    → Moves x y
unfolding append_to saturating_add
append_to-Moves e x y b v h = record { grows = ground arith; behind = (ground arith, ground arith) }

step-Progress :
    (e : Event) (s : StaticPrimaryShardReplication) → Below e → AllBehind s → Progress s (step e s)
unfolding step allocate_entry advance shard_state mark_committed rollback_proposal append_entry
step-Progress (allocates physical proposed) s b v =
    and_then_state (Progress s) (ensure_local_primary proposed.shard_id s, s) _
      (λ j. Moves-stay _ (v j))
      (λ _.
        set_shard-Progress proposed.shard_id _ (record s { clock = (tick physical s.clock).1 }) v
          (allocated-Moves _ (v proposed.shard_id)))
step-Progress (rolls_back e) s b v = elim (Option-cases (IdMap.get s.states e.shard_id)) [
  | inl missing ↦ rw (rollback_proposal, missing) (λ j. Moves-stay _ (v j))
  | inr (x, found) ↦
      rw (rollback_proposal, found)
        (set_shard-Progress e.shard_id (rolled_back e x) s v (moves x found))
]
  where
    at :
        (x : InProcessShardState)
        → IdMap.get s.states e.shard_id ≡ some x
        → shard_state s e.shard_id ≡ x
    at x found = rw (shard_state, found) refl

    moves :
        (x : InProcessShardState)
        → IdMap.get s.states e.shard_id ≡ some x
        → Moves (shard_state s e.shard_id) (rolled_back e x)
    moves x found =
        subst (λ y. Moves y (rolled_back e x)) (sym (at x found))
          (rolled_back-Moves e x b (subst Behind (at x found) (v e.shard_id)))
step-Progress (commits e) s b v =
    set_shard-Progress e.shard_id _ s v (committed-Moves e _ b (v e.shard_id))
step-Progress (appends e) s b v = by_result (append_to e (shard_state s e.shard_id)) refl
  where
    by_result :
        (o : Result DatabaseError InProcessShardState)
        → append_to e (shard_state s e.shard_id) ≡ o
        → Progress s (append_entry e s).1
    by_result (ok x) h =
        rw (append_entry, h)
          (set_shard-Progress e.shard_id x s v (append_to-Moves e _ x b (v e.shard_id) h))
    by_result (err x) h =
        rw (append_entry, h) (set_shard-Progress e.shard_id _ s v (Moves-stay _ (v e.shard_id)))

-- Calls in any order, also with those of other threads between the steps of a proposal, whose entries
-- have indexes below the last one: a commit index never falls, and it stays behind the next index.
pub run-Progress :
    (es : List Event) (s : StaticPrimaryShardReplication)
    → All Below es
    → AllBehind s
    → Progress s (run es s)
unfolding run
run-Progress [] s b v = λ j. Moves-stay _ (v j)
run-Progress (e ∷ es) s b v =
    let first = step-Progress e s b.0 v in
    let later = run-Progress es (step e s) b.1 (λ j. (first j).behind) in
    λ j. record {
      grows = omega (arith, (first j).grows, (later j).grows);
      behind = (later j).behind;
    }

fresh_states-at :
    (ps : List ShardPlacement) (j : ℕ) → or_fresh (IdMap.get (fresh_states ps) j) ≡ fresh_shard
fresh_states-at [] j = refl
fresh_states-at (p ∷ ps) j = elim (Bool-cases (p.shard_id == j)) [
  | inl same ↦ rw (IdMap.get-insert p.shard_id j fresh_shard (fresh_states ps), same) refl
  | inr apart ↦
      rw (IdMap.get-insert p.shard_id j fresh_shard (fresh_states ps), apart) (fresh_states-at ps j)
]

-- A new primary meets what the runs ask.
pub new_primary-AllBehind :
    (server : ℕ) (table : ShardRoutingTable) → AllBehind (new_primary server table)
unfolding shard_state
new_primary-AllBehind server table j =
    subst Behind (sym (fresh_states-at table.placements j)) (omega arith, omega arith)
