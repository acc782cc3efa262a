-- ===== src/Raft/Cluster.antt =====
-- crates/neo4r-db/src/raft.rs: the servers of a shard, each with its `RaftCore`, and the votes that
-- they grant to one another. The network may lose, repeat and reorder messages, and the requests are
-- any; only an answer that grants a vote is one that a server gave. A server restarts, changes its
-- configuration or is made leader without an election in none of these steps.
pub mod Calm
pub mod Quiet
pub mod Elections
pub mod Standing
pub mod Counting
pub mod Safety
pub mod Tests
use neo4r.Raft.Errors.{DatabaseError}
use neo4r.Raft.Messages.{RequestVoteRequest, RequestVoteResponse}
use neo4r.Raft.State.{RaftCore}
use neo4r.Raft.Votes.{start_election, request_vote, record_vote_response}
use neo4r.Raft.Trace.{
  Event, votes, counts, follows, installs, compacts, writes, takes, matches, joins, finalizes,
  changes, step,
}
use neo4r.Prelude.{
  List, Result, [], err, if◌then◌else◌, ok, true, u64_max, ℕ, ◌<◌, ◌==◌, ◌∷◌, ◌≡◌, ◌⊎◌,
}

pub record Vote : Type 0 where
  pub voter : ℕ
  pub term : ℕ
  pub candidate : ℕ

pub record Cluster : Type 0 where
  pub core : ℕ → RaftCore
  -- the votes that were granted so far, those of candidates for themselves included
  pub cast : List Vote

unfoldable pub put_core : ℕ → RaftCore → (ℕ → RaftCore) → ℕ → RaftCore
put_core i r core j = if i == j then r else core j

abbrev pub IsCast : Vote → List Vote → Type 0
IsCast v [] = ⊥
IsCast v (w ∷ ws) = (v ≡ w) ⊎ IsCast v ws

abbrev pub vote : ℕ → ℕ → ℕ → Vote
vote voter term candidate = record { voter = voter; term = term; candidate = candidate }

unfoldable pub answered : ℕ → ℕ → Result DatabaseError RequestVoteResponse → List Vote → List Vote
answered voter candidate (ok a) cast =
    if a.vote_granted then vote voter a.term candidate ∷ cast else cast
answered voter candidate (err e) cast = cast

-- A call that has no part in an election, makes no leader and changes no configuration.
abbrev pub IsQuiet : Event → Type 0
IsQuiet (follows _) = Unit
IsQuiet (installs _) = Unit
IsQuiet (compacts _) = Unit
IsQuiet (writes _) = Unit
IsQuiet (takes _) = Unit
IsQuiet (matches _ _ _) = Unit
IsQuiet _ = ⊥

-- The calls of all servers, in any order, but for changes of the configuration and a direct
-- `become_leader`. Elections stay below the last term.
pub data Step : Cluster → Cluster → Type 0 where
  elect :
      (i : ℕ) (c : Cluster)
      → (c.core i).current_term < u64_max
      → Step c (record {
        core = put_core i (start_election (c.core i)).1 c.core;
        cast = vote i (start_election (c.core i)).1.current_term i ∷ c.cast;
      })
  ask :
      (i : ℕ) (q : RequestVoteRequest) (c : Cluster)
      → Step c (record {
        core = put_core i (request_vote q (c.core i)).1 c.core;
        cast = answered i q.candidate_id (request_vote q (c.core i)).0 c.cast;
      })
  count :
      (i now voter : ℕ) (response : RequestVoteResponse) (c : Cluster)
      → (response.vote_granted ≡ true → IsCast (vote voter response.term i) c.cast)
      → Step c (record c {
        core = put_core i (record_vote_response now voter response (c.core i)).1 c.core;
      })
  other :
      (i : ℕ) (e : Event) (c : Cluster)
      → IsQuiet e
      → Step c (record c { core = put_core i (step e (c.core i)) c.core })

pub data Reach (c : Cluster) : Cluster → Type 0 where
  here : Reach c c
  next : {d e : Cluster} → Reach c d → Step d e → Reach c e
