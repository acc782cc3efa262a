-- ===== src/Core/Shard/Diff.antt =====
-- crates/neo4r-core/src/shard.rs: what a routing diff lists, and the owners of a shard map.
use neo4r.Core.Shard.{
  ShardReplica, ShardPlacement, ShardRoutingTable, ShardRoutingDiff, placement, has_server,
  has_local_copy, missing_from, diff_placement, diff_loop, diff,
}
use neo4r.Prelude.{
  ==_iff, Bool, List, Option, Option-cases, [], any, ap, arith, false, find-test, inl, inr, map,
  none, not, refl, some, sym, true, ℕ, ◌&&◌, ◌++◌, ◌==◌, ◌||◌, ◌∙◌, ◌∷◌, ◌≡◌,
}

-- Whether a list of shards and servers has a pair.
abbrev pub listed : List (ℕ × ℕ) → ℕ → ℕ → Bool
listed xs shard server = any (λ x. x.0 == shard && x.1 == server) xs

listed-append :
    (xs ys : List (ℕ × ℕ)) (shard server : ℕ)
    → listed (xs ++ ys) shard server ≡ (listed xs shard server || listed ys shard server)
listed-append [] ys shard server = refl
listed-append (x ∷ xs) ys shard server = ground (arith, listed-append xs ys shard server)

module _ (shard server : ℕ) where
  listed-map :
      (s : ℕ) (rs : List ShardReplica)
      → listed (map (λ (r : ShardReplica). (s, r.server_id)) rs) shard server
        ≡ (s == shard && any (λ (r : ShardReplica). r.server_id == server) rs)
  listed-map s [] = ground arith
  listed-map s (r ∷ rs) = ground (arith, listed-map s rs)

  has_server_at :
      (p : ShardPlacement) (k : ℕ) → (k == server) ≡ true → has_server p k ≡ has_server p server
  has_server_at p k e = ap (has_server p) ((==_iff k server).0 e)

  listed-missing_from :
      (s : ℕ) (rs : List ShardReplica) (q : ShardPlacement)
      → listed (missing_from s rs q) shard server ≡ (
          s == shard
          && (any (λ (r : ShardReplica). r.server_id == server) rs && not (has_server q server)))
  unfolding missing_from
  listed-missing_from s [] q = ground arith
  listed-missing_from s (r ∷ rs) q =
      ground (arith, listed-missing_from s rs q, has_server_at q r.server_id)

  -- What the placement of the new table adds, and what it drops, with respect to the old one.
  abbrev pub gains : ShardRoutingTable → ShardPlacement → Bool
  gains t p = p.shard_id == shard && (has_server p server && not (has_local_copy t shard server))

  abbrev pub loses : ShardRoutingTable → ShardPlacement → Bool
  loses t p = p.shard_id == shard && (not (has_server p server) && has_local_copy t shard server)

  placement_at :
      (t : ShardRoutingTable) (p : ShardPlacement)
      → (p.shard_id == shard) ≡ true
      → placement t p.shard_id ≡ placement t shard
  placement_at t p e = ap (placement t) ((==_iff p.shard_id shard).0 e)

  placement_id :
      (t : ShardRoutingTable) (s : ℕ) (p : ShardPlacement) → placement t s ≡ some p → p.shard_id ≡ s
  unfolding placement
  placement_id t s p h =
      (==_iff p.shard_id s).0 (find-test (λ (q : ShardPlacement). q.shard_id == s) t.placements p h)

  abbrev held_by : Option ShardPlacement → Bool
  held_by none = false
  held_by (some p) = has_server p server

  local_at :
      (t : ShardRoutingTable) (p : ShardPlacement) (o : Option ShardPlacement)
      → placement t p.shard_id ≡ o
      → (p.shard_id == shard) ≡ true
      → has_local_copy t shard server ≡ held_by o
  unfolding has_local_copy
  local_at t p o h e =
      from_placement (placement t shard) ∙ ap held_by (sym (placement_at t p e) ∙ h)
    where
      from_placement :
          (o : Option ShardPlacement)
          → (elim o as (λ _. Bool) [ none ↦ false | some q ↦ has_server q server ]) ≡ held_by o
      from_placement none = refl
      from_placement (some q) = refl

  diff_placement-adds :
      (t : ShardRoutingTable) (p : ShardPlacement) (d : ShardRoutingDiff)
      → listed (diff_placement t p d).added_replicas shard server
        ≡ (listed d.added_replicas shard server || gains t p)
  unfolding diff_placement has_server
  diff_placement-adds t p d = elim (Option-cases (placement t p.shard_id)) [
    | inl absent ↦
        rw (diff_placement, absent)
          (ground (
            arith,
            listed-append d.added_replicas
                (map (λ (r : ShardReplica). (p.shard_id, r.server_id)) p.replicas) shard server,
            listed-map p.shard_id p.replicas,
            local_at t p none absent,
          ))
    | inr (current, found) ↦
        rw (diff_placement, found)
          (ground (
            arith,
            listed-append d.added_replicas (missing_from p.shard_id p.replicas current) shard
                server,
            listed-missing_from p.shard_id p.replicas current,
            local_at t p (some current) found,
          ))
  ]

  diff_placement-removes :
      (t : ShardRoutingTable) (p : ShardPlacement) (d : ShardRoutingDiff)
      → listed (diff_placement t p d).removed_replicas shard server
        ≡ (listed d.removed_replicas shard server || loses t p)
  unfolding diff_placement has_server
  diff_placement-removes t p d = elim (Option-cases (placement t p.shard_id)) [
    | inl absent ↦ rw (diff_placement, absent) (ground (arith, local_at t p none absent))
    | inr (current, found) ↦
        rw (diff_placement, found)
          (ground (
            arith,
            listed-append d.removed_replicas (missing_from current.shard_id current.replicas p)
                shard server,
            listed-missing_from current.shard_id current.replicas p,
            local_at t p (some current) found,
            placement_id t p.shard_id current found,
          ))
  ]

  diff_loop-adds :
      (t : ShardRoutingTable) (ps : List ShardPlacement) (d : ShardRoutingDiff)
      → listed (diff_loop t ps d).added_replicas shard server
        ≡ (listed d.added_replicas shard server || any (gains t) ps)
  unfolding diff_loop
  diff_loop-adds t [] d = ground arith
  diff_loop-adds t (p ∷ ps) d =
      ground (arith, diff_loop-adds t ps (diff_placement t p d), diff_placement-adds t p d)

  diff_loop-removes :
      (t : ShardRoutingTable) (ps : List ShardPlacement) (d : ShardRoutingDiff)
      → listed (diff_loop t ps d).removed_replicas shard server
        ≡ (listed d.removed_replicas shard server || any (loses t) ps)
  unfolding diff_loop
  diff_loop-removes t [] d = ground arith
  diff_loop-removes t (p ∷ ps) d =
      ground (arith, diff_loop-removes t ps (diff_placement t p d), diff_placement-removes t p d)

-- A diff lists a server as added to a shard exactly if a placement of the new table puts the shard on
-- the server and the old table has no copy there, and as removed exactly if a placement of the new
-- table for the shard leaves out a server that has a copy in the old one.
pub diff_lists_changes :
    (t next : ShardRoutingTable) (shard server : ℕ)
    → (listed (diff t next).added_replicas shard server
        ≡ any (gains shard server t) next.placements)
      × (listed (diff t next).removed_replicas shard server
          ≡ any (loses shard server t) next.placements)
unfolding diff
diff_lists_changes t next shard server = (
  diff_loop-adds shard server t next.placements _,
  diff_loop-removes shard server t next.placements _,
)
