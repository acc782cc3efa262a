-- ===== src/Raft/Cluster/Elections.antt =====
-- crates/neo4r-db/src/raft.rs: what the votes of a cluster say of its servers, and what they may claim.
use neo4r.Raft.Membership.{RaftMembership, has_quorum}
use neo4r.Raft.State.{
  RaftCore, RaftRole, is_follower, is_candidate, is_leader, follower, candidate, leader,
}
use neo4r.Raft.Votes.Binding.{Binding}
use neo4r.Raft.Cluster.{Vote, vote, Cluster, put_core, IsCast}
use neo4r.Raft.Cluster.Calm.{Calm}
use neo4r.Prelude.IdSet
use neo4r.Prelude.IdSet.{IdSet}
use neo4r.Prelude.{
  ==_iff, Bool-cases, List, ap, arith, inl, inr, some, subst, sym, true, ℕ, ◌==◌, ◌∙◌, ◌∷◌, ◌≡◌,
  ◌≤◌, ◌⊎◌,
}

-- The voter's server still stands by the vote.
pub record Stands (v : Vote) (r : RaftCore) : Type 0 where
  pub term : v.term ≤ r.current_term
  pub vote : r.current_term ≡ v.term → r.voted_for ≡ some v.candidate

-- All of these servers voted for a candidate.
abbrev pub Backed : List Vote → ℕ → ℕ → IdSet → Type 0
Backed cast term chosen servers =
    (s : ℕ) → IdSet.contains servers s ≡ true → IsCast (vote s term chosen) cast

-- What a server may claim: as a candidate the votes it has received, as a leader those of a quorum.
pub record Claims (m : RaftMembership) (cast : List Vote) (i : ℕ) (r : RaftCore) : Type 0 where
  pub server : r.server_id ≡ i
  pub members : r.membership ≡ m
  pub standing : is_candidate r.role ≡ true → Backed cast r.current_term i r.votes_received
  pub leading :
      is_leader r.role ≡ true
      → (q : IdSet) × (has_quorum m q ≡ true) × Backed cast r.current_term i q

pub record Fair (m : RaftMembership) (c : Cluster) : Type 0 where
  pub claims : (i : ℕ) → Claims m c.cast i (c.core i)
  pub stands : (v : Vote) → IsCast v c.cast → Stands v (c.core v.voter)
  pub once :
      (v w : Vote)
      → IsCast v c.cast
      → IsCast w c.cast
      → v.voter ≡ w.voter
      → v.term ≡ w.term
      → v.candidate ≡ w.candidate

-- A vote stays binding.
still-Stands : (v : Vote) (r s : RaftCore) → Binding r s → Stands v r → Stands v s
still-Stands v r s b h = record {
  term = omega (arith, b.term, h.term);
  vote = λ e.
      b.vote (omega (arith, b.term, h.term)) v.candidate (h.vote (omega (arith, b.term, h.term)));
}

one_role :
    (o : RaftRole) → is_follower o ≡ true → (is_candidate o ≡ true) ⊎ (is_leader o ≡ true) → ⊥
one_role follower h (inl k) = cc k
one_role follower h (inr k) = cc k
one_role candidate h k = cc h
one_role leader h k = cc h

module _ (m : RaftMembership) (c : Cluster) (f : Fair m c) (i : ℕ) (r : RaftCore) where
  -- One server changes.
  pub put-Fair :
      Binding (c.core i) r → Claims m c.cast i r → Fair m (record c { core = put_core i r c.core })
  unfolding put_core
  put-Fair b h = record {
    claims = λ j. elim (Bool-cases (i == j)) [
      | inl same ↦ rw (same, sym ((==_iff i j).0 same)) h
      | inr differ ↦ rw differ (f.claims j)
    ];
    stands = λ v e. elim (Bool-cases (i == v.voter)) [
      | inl same ↦ rw same (
          still-Stands v (c.core v.voter) r
            (subst (λ k. Binding (c.core k) r) ((==_iff i v.voter).0 same) b) (f.stands v e))
      | inr differ ↦ rw differ (f.stands v e)
    ];
    once = f.once;
  }

  pub Calm-Claims : Calm (c.core i) r → Claims m c.cast i r
  Calm-Claims h = record {
    server = h.server ∙ (f.claims i).server;
    members = h.members ∙ (f.claims i).members;
    standing = λ role. elim h.office [
      | inl idle ↦ absurd (one_role r.role idle (inl role))
      | inr (roles, votes, terms) ↦
          rw (terms, votes) ((f.claims i).standing (ap is_candidate (sym roles) ∙ role))
    ];
    leading = λ role. elim h.office [
      | inl idle ↦ absurd (one_role r.role idle (inr role))
      | inr (roles, votes, terms) ↦
          rw terms ((f.claims i).leading (ap is_leader (sym roles) ∙ role))
    ];
  }

  pub Calm-step :
      Binding (c.core i) r → Calm (c.core i) r → Fair m (record c { core = put_core i r c.core })
  Calm-step b h = put-Fair b (Calm-Claims h)

-- More votes support what fewer do.
more-Claims :
    (m : RaftMembership) (v : Vote) (cast : List Vote) (i : ℕ) (r : RaftCore)
    → Claims m cast i r
    → Claims m (v ∷ cast) i r
more-Claims m v cast i r h = record {
  server = h.server;
  members = h.members;
  standing = λ role s e. inr (h.standing role s e);
  leading =
      λ role. let (q, quorum, backed) = h.leading role in (q, quorum, λ s e. inr (backed s e));
}

-- A vote that the voter's server stands by, in its own term, agrees with the votes before.
pub vote-Fair :
    (m : RaftMembership) (c : Cluster) (v : Vote)
    → Fair m c
    → (c.core v.voter).current_term ≡ v.term
    → (c.core v.voter).voted_for ≡ some v.candidate
    → Fair m (record c { cast = v ∷ c.cast })
vote-Fair m c v f now chosen = record {
  claims = λ i. more-Claims m v c.cast i (c.core i) (f.claims i);
  stands = λ w e. elim e [
    | inl same ↦ subst (λ u. Stands u (c.core u.voter)) (sym same) own
    | inr old ↦ f.stands w old
  ];
  once = agree;
}
  where
    own : Stands v (c.core v.voter)
    own = record { term = omega (arith, now); vote = λ _. chosen }

    with_new :
        (w : Vote)
        → IsCast w c.cast
        → v.voter ≡ w.voter
        → v.term ≡ w.term
        → v.candidate ≡ w.candidate
    with_new w old voters terms =
        let kept =
          (f.stands w old).vote (ap (λ k. (c.core k).current_term) (sym voters) ∙ now ∙ terms) in
        cc (sym chosen ∙ ap (λ k. (c.core k).voted_for) voters ∙ kept)

    agree :
        (u w : Vote)
        → IsCast u (v ∷ c.cast)
        → IsCast w (v ∷ c.cast)
        → u.voter ≡ w.voter
        → u.term ≡ w.term
        → u.candidate ≡ w.candidate
    agree u w (inl a) (inl b) voters terms = cc (a, b)
    agree u w (inl a) (inr b) voters terms =
        ap (λ x. x.candidate) a
        ∙ with_new w b (ap (λ x. x.voter) (sym a) ∙ voters) (ap (λ x. x.term) (sym a) ∙ terms)
    agree u w (inr a) (inl b) voters terms = sym (
        ap (λ x. x.candidate) b
        ∙ with_new u a (ap (λ x. x.voter) (sym b) ∙ sym voters)
            (ap (λ x. x.term) (sym b) ∙ sym terms))
    agree u w (inr a) (inr b) voters terms = f.once u w a b voters terms
