-- ===== src/Raft/Cluster/Safety.antt =====
-- crates/neo4r-db/src/raft.rs: a term has one leader, while no server restarts or is made leader without
-- an election, and the configuration stays.
use neo4r.Raft.Membership.{RaftMembership}
use neo4r.Raft.Membership.Quorums.{quorums_meet}
use neo4r.Raft.State.{RaftCore, is_candidate, is_leader, follower}
use neo4r.Raft.Votes.{request_vote}
use neo4r.Raft.Trace.{
  elects, leads, votes, counts, follows, installs, compacts, writes, takes, matches, joins,
  finalizes, changes, Event, step, TermLeft,
}
use neo4r.Raft.Trace.Votes.{step-Binding}
use neo4r.Raft.Cluster.{Cluster, IsCast, IsQuiet, Step, elect, ask, count, other, Reach, here, next}
use neo4r.Raft.Cluster.Quiet.{quiet-Calm}
use neo4r.Raft.Cluster.Standing.{elect-Fair}
use neo4r.Raft.Cluster.Counting.{asked_Fair, counted-Fair}
use neo4r.Raft.Cluster.Elections.{Fair, Calm-step}
use neo4r.Prelude.{[], ap, refl, subst, true, ℕ, ◌≡◌}

quiet-TermLeft : (e : Event) (r : RaftCore) → IsQuiet e → TermLeft e r
quiet-TermLeft elects r h = absurd h
quiet-TermLeft (leads now) r h = absurd h
quiet-TermLeft (votes q) r h = tt
quiet-TermLeft (counts now voter response) r h = tt
quiet-TermLeft (follows q) r h = tt
quiet-TermLeft (installs q) r h = tt
quiet-TermLeft (compacts s) r h = tt
quiet-TermLeft (writes command) r h = tt
quiet-TermLeft (takes e) r h = tt
quiet-TermLeft (matches now server index) r h = tt
quiet-TermLeft (joins voters) r h = tt
quiet-TermLeft finalizes r h = tt
quiet-TermLeft (changes change) r h = tt

step-Fair : (m : RaftMembership) {c d : Cluster} → Step c d → Fair m c → Fair m d
step-Fair m (elect i c h) f = elect-Fair m c f i h
step-Fair m (ask i q c) f = asked_Fair m c f i q (request_vote q (c.core i)).0 refl
step-Fair m (count i now voter response c h) f = counted-Fair m c f i now voter response h
step-Fair m (other i e c h) f =
    Calm-step m c f i (step e (c.core i))
      (step-Binding e (c.core i) (quiet-TermLeft e (c.core i) h)) (quiet-Calm e (c.core i) h)

Reach-Fair : (m : RaftMembership) {c d : Cluster} → Reach c d → Fair m c → Fair m d
Reach-Fair m here f = f
Reach-Fair m (next r s) f = step-Fair m s (Reach-Fair m r f)

-- Every server follows, under its own id and with the same configuration, and votes are counted from
-- here on. The terms and the votes that the servers have stored are any.
pub record Starts (m : RaftMembership) (c : Cluster) : Type 0 where
  pub server : (i : ℕ) → (c.core i).server_id ≡ i
  pub members : (i : ℕ) → (c.core i).membership ≡ m
  pub follows : (i : ℕ) → (c.core i).role ≡ follower
  pub none_cast : c.cast ≡ []

start-Fair : (m : RaftMembership) (c : Cluster) → Starts m c → Fair m c
start-Fair m c s = record {
  claims = λ i. record {
    server = s.server i;
    members = s.members i;
    standing = λ role. cc (ap is_candidate (s.follows i), role);
    leading = λ role. cc (ap is_leader (s.follows i), role);
  };
  stands = λ v e. absurd (subst (IsCast v) s.none_cast e);
  once = λ v w e. absurd (subst (IsCast v) s.none_cast e);
}

-- Servers that start as followers with one configuration have at most one leader in a term, whatever
-- calls they get in whatever order, if they do not restart and their configuration stays, none is made
-- leader by a direct call of `become_leader`, only those answers grant a candidate votes that servers
-- gave it, and no election starts in the last term.
pub election_safety :
    (m : RaftMembership) (c d : Cluster) (i j : ℕ)
    → Starts m c
    → Reach c d
    → is_leader (d.core i).role ≡ true
    → is_leader (d.core j).role ≡ true
    → (d.core i).current_term ≡ (d.core j).current_term
    → i ≡ j
election_safety m c d i j s r leads_i leads_j terms =
    let f = Reach-Fair m r (start-Fair m c s) in
    let (p, quorum_p, backed_p) = (f.claims i).leading leads_i in
    let (q, quorum_q, backed_q) = (f.claims j).leading leads_j in
    let (voter, _, in_p, in_q) = quorums_meet m p q quorum_p quorum_q in
    f.once _ _ (backed_p voter in_p) (backed_q voter in_q) refl terms
