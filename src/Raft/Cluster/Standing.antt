-- ===== src/Raft/Cluster/Standing.antt =====
-- crates/neo4r-db/src/raft.rs: an election keeps the votes and claims of the servers fair.
use neo4r.Raft.Membership.{RaftMembership}
use neo4r.Raft.State.{RaftCore, follower, save_state}
use neo4r.Raft.Votes.{start_election, stand}
use neo4r.Raft.Votes.Binding.{Binding, Binding-trans, Binding-of_same, start_election-Binding}
use neo4r.Raft.Cluster.{vote, Cluster, put_core}
use neo4r.Raft.Cluster.Elections.{Claims, Fair, put-Fair, Calm-step, vote-Fair}
use mathlib.Core.Path.{fun_ext}
use neo4r.Prelude.{
  ==_iff, Bool-cases, and_then_state, ap, arith, inl, inr, refl, some, subst, sym, u64_max, ℕ, ◌<◌,
  ◌==◌, ◌∙◌, ◌∷◌, ◌≡◌,
}

pub put_core_same : (i : ℕ) (r : RaftCore) (f : ℕ → RaftCore) → put_core i r f i ≡ r
unfolding put_core
put_core_same i r f = rw ((==_iff i i).1 refl) refl

put_core_twice :
    (i : ℕ) (r s : RaftCore) (f : ℕ → RaftCore) → put_core i s (put_core i r f) ≡ put_core i s f
unfolding put_core
put_core_twice i r s f =
    fun_ext
      (λ j. elim (Bool-cases (i == j)) [ inl same ↦ rw same refl | inr differ ↦ rw differ refl ])

start_election_state : (r : RaftCore) → (start_election r).1 ≡ (save_state (stand r)).1
unfolding start_election
start_election_state r =
    and_then_state (λ s. s ≡ (save_state (stand r)).1) (save_state (stand r)) _ refl (λ _. refl)

module _ (m : RaftMembership) (c : Cluster) (f : Fair m c) (i : ℕ) where
  elected : RaftCore
  elected = (save_state (stand (c.core i))).1

  -- The server before it stands, in its new term.
  resting : RaftCore
  resting = record elected { role = follower }

  voted : Cluster
  voted = record { core = put_core i resting c.core; cast = vote i elected.current_term i ∷ c.cast }

  elected-Binding : (c.core i).current_term < u64_max → Binding (c.core i) elected
  unfolding elected
  elected-Binding h =
      subst (Binding (c.core i)) (start_election_state (c.core i))
        (start_election-Binding (c.core i) h)

  voted-Fair : (c.core i).current_term < u64_max → Fair m voted
  unfolding voted resting elected stand save_state
  voted-Fair h =
      vote-Fair m _ (vote i elected.current_term i)
        (Calm-step m c f i resting
          (Binding-trans (c.core i) elected resting (elected-Binding h)
            (Binding-of_same elected resting refl))
          (record { server = refl; members = refl; office = inl refl }))
        (ap (λ r. r.current_term) (put_core_same i resting c.core))
        (ap (λ r. r.voted_for) (put_core_same i resting c.core) ∙ ap some (f.claims i).server)

  elected-Claims : Claims m voted.cast i elected
  unfolding voted elected stand save_state
  elected-Claims = record {
    server = (f.claims i).server;
    members = (f.claims i).members;
    standing = λ role s e. inl (
        ap (λ k. vote k elected.current_term i)
          (sym ((==_iff _ s).0 (ground arith)) ∙ (f.claims i).server));
    leading = λ role. cc role;
  }

  pub elect-Fair :
      (c.core i).current_term < u64_max
      → Fair m (record {
        core = put_core i (start_election (c.core i)).1 c.core;
        cast = vote i (start_election (c.core i)).1.current_term i ∷ c.cast;
      })
  unfolding voted resting save_state elected
  elect-Fair h =
      subst
        (λ r.
          Fair m (record { core = put_core i r c.core; cast = vote i r.current_term i ∷ c.cast }))
        (sym (start_election_state (c.core i)))
        (subst (λ g. Fair m (record { core = g; cast = voted.cast }))
          (put_core_twice i resting elected c.core)
          (put-Fair m voted (voted-Fair h) i elected
            (Binding-of_same _ elected
              (ap (λ r. r.persistent) (sym (put_core_same i resting c.core))))
            elected-Claims))
