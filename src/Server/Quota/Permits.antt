-- ===== src/Server/Quota/Permits.antt =====
-- crates/neo4r-server/src/backend/state.rs: the permits that are live, and the counters.
use neo4r.Server.Quota.{
  TenantQuota, AdmissionError, or_zero, active_of, set_active, acquire_query, drop_permit,
}
use neo4r.Prelude.Equality.{string_eq, same, same_left, differs}
use neo4r.Prelude.HashMap
use neo4r.Prelude.{
  Bool, Bool-cases, List, Option, Result, String, [], ap, arith, err, false, if◌then◌else◌, inl,
  inr, none, ok, refl, some, suc, true, zero, ℕ, ◌-◌, ◌∙◌, ◌∷◌, ◌≡◌, ◌≤◌,
}

-- How many permits are for a database.
abbrev pub times : String → List String → ℕ
times d [] = 0
times d (p ∷ ps) = if same p d then suc (times d ps) else times d ps

abbrev pub erase : String → List String → List String
erase d [] = []
erase d (p ∷ ps) = if same p d then ps else p ∷ erase d ps

-- The quota, and the permits that are not dropped yet.
pub record Tenants : Type 0 where
  pub quota : TenantQuota
  pub permits : List String

pub data Turn : Type 0 where
  acquires : String → Turn
  drops : String → Turn

unfoldable pub granted_to : Result AdmissionError String → List String → List String
granted_to (ok d) ps = d ∷ ps
granted_to (err e) ps = ps

-- A permit that is not live cannot be dropped.
unfoldable pub take_turn : Turn → Tenants → Tenants
unfolding granted_to
take_turn (acquires d) t = record {
  quota = (acquire_query d t.quota).1;
  permits = granted_to (acquire_query d t.quota).0 t.permits;
}
take_turn (drops d) t = elim (times d t.permits) [
  | zero ↦ t
  | suc n ↦ record { quota = drop_permit d t.quota; permits = erase d t.permits }
]

unfoldable pub take_turns : List Turn → Tenants → Tenants
unfolding take_turn
take_turns [] t = t
take_turns (x ∷ xs) t = take_turns xs (take_turn x t)

or_zero-if :
    (b : Bool) (x y : Option ℕ)
    → or_zero (if b then x else y) ≡ (if b then or_zero x else or_zero y)
or_zero-if true x y = refl
or_zero-if false x y = refl

pub active-set_active :
    (database d : String) (n : ℕ) (q : TenantQuota)
    → active_of (set_active database n q) d ≡ (if same database d then n else active_of q d)
active-set_active database d n q =
    ap or_zero (HashMap.get-insert database d n q.active_queries)
    ∙ or_zero-if (same database d) (some n) (HashMap.get q.active_queries d)

pub active-remove :
    (database d : String) (q : TenantQuota)
    → or_zero (HashMap.get (HashMap.remove database q.active_queries) d)
      ≡ (if same database d then 0 else active_of q d)
active-remove database d q =
    ap or_zero (HashMap.get-remove database d q.active_queries)
    ∙ or_zero-if (same database d) none (HashMap.get q.active_queries d)

times-cons :
    (d j : String) (ps : List String) → same d j ≡ true → times j (d ∷ ps) ≡ suc (times j ps)
times-cons d j ps h = rw h refl

pub times-erase :
    (d j : String) (ps : List String)
    → times j (erase d ps) ≡ (if same d j then times j ps - 1 else times j ps)
times-erase d j [] = elim (Bool-cases (same d j)) [
  | inl equal ↦ rw equal refl
  | inr differ ↦ rw differ refl
]
times-erase d j (p ∷ ps) = elim (Bool-cases (same p d)) [
  | inl first ↦ elim (Bool-cases (same d j)) [
    | inl equal ↦
        let found : same p j ≡ true = same_left p d j first ∙ equal in
        rw (first, equal, found) (omega arith)
    | inr differ ↦
        let other : same p j ≡ false = same_left p d j first ∙ differ in
        rw (first, differ, other) refl
  ]
  | inr behind ↦ elim (Bool-cases (same p j)) [
    | inl found ↦
        let differ = differs p d j behind found in
        rw (behind, found, differ) (ap suc (times-erase d j ps ∙ rw differ refl))
    | inr other ↦ rw (behind, other) (times-erase d j ps)
  ]
]

pub times-erase-le : (d j : String) (ps : List String) → times j (erase d ps) ≤ times j ps
times-erase-le d j ps = elim (Bool-cases (same d j)) [
  | inl equal ↦ omega (arith, rw equal at (times-erase d j ps))
  | inr differ ↦ omega (arith, rw differ at (times-erase d j ps))
]
