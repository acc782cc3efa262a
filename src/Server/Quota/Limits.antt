-- ===== src/Server/Quota/Limits.antt =====
-- crates/neo4r-server/src/backend/state.rs: permits that are live at once, under a limit that stays.
use neo4r.Server.Quota.{
  AdmissionError, evaluate_resource_admission, or_zero, active_of, admission, admitted,
  acquire_query, drop_permit,
}
use neo4r.Prelude.Equality.{string_eq, same, same_path}
use neo4r.Prelude.HashMap
use neo4r.Prelude.{
  ==_iff, Bool-cases, List, Option, Option-cases, Result, String, [], ap, arith, err, if◌then◌else◌,
  inl, inr, last, leb, ok, refl, some, suc, sym, zero, ℕ, ◌+◌, ◌-◌, ◌<◌, ◌==◌, ◌∙◌, ◌∷◌, ◌≡◌, ◌≤◌,
}
use neo4r.Server.Quota.Permits.{
  times, erase, Tenants, Turn, acquires, drops, granted_to, take_turn, take_turns,
  active-set_active, active-remove, times-erase, times-erase-le,
}

-- The counters count the live permits, and are within the limit.
record Counted (limit : ℕ) (t : Tenants) : Type 0 where
  limited : t.quota.limits.max_concurrent_queries ≡ some limit
  exact : (d : String) → active_of t.quota d ≡ times d t.permits
  within : (d : String) → times d t.permits ≤ limit

module _ (limit : ℕ) (d : String) (t : Tenants) (c : Counted limit t) where
  below : admission t.quota d limit ≡ ok tt → active_of t.quota d < limit
  unfolding evaluate_resource_admission
  below h = elim (Bool-cases (leb limit (active_of t.quota d))) [
    | inl full ↦ cc (rw full at h)
    | inr free ↦ ground arith
  ]

  acquired :
      (o : Result AdmissionError (Unit {0}))
      → admission t.quota d limit ≡ o
      → Counted limit (record {
        quota = (admitted o d t.quota).1;
        permits = granted_to (admitted o d t.quota).0 t.permits;
      })
  unfolding admitted granted_to
  acquired (ok u) e = record {
    limited = c.limited;
    exact = λ j.
        active-set_active d j (active_of t.quota d + 1) t.quota ∙ elim (Bool-cases (same d j)) [
          | inl equal ↦
              rw equal (omega (arith, c.exact j, ap (active_of t.quota) (same_path d j equal)))
          | inr differ ↦ rw differ (c.exact j)
        ];
    within = λ j. elim (Bool-cases (same d j)) [
      | inl equal ↦
          rw equal (omega (arith, below e, c.exact j, ap (active_of t.quota) (same_path d j equal)))
      | inr differ ↦ rw differ (c.within j)
    ];
  }
  acquired (err x) e = record {
    limited = c.limited;
    exact = λ j.
        active-set_active d j (active_of t.quota d) t.quota ∙ elim (Bool-cases (same d j)) [
          | inl equal ↦ rw equal (ap (active_of t.quota) (same_path d j equal) ∙ c.exact j)
          | inr differ ↦ rw differ (c.exact j)
        ];
    within = c.within;
  }

  active-drop_permit :
      (n : ℕ)
      → active_of t.quota d ≡ suc n
      → (j : String)
      → active_of (drop_permit d t.quota) j
        ≡ (if same d j then active_of t.quota j - 1 else active_of t.quota j)
  unfolding drop_permit
  active-drop_permit n h j = elim (Option-cases (HashMap.get t.quota.active_queries d)) [
    | inl absent ↦ absurd (omega (arith, h, ap or_zero absent))
    | inr (current, present) ↦
        let now : active_of t.quota d ≡ current = ap or_zero present in
        elim (Bool-cases (current - 1 == 0)) [
          | inl last ↦
              rw (drop_permit, present, last)
                (active-remove d j t.quota ∙ elim (Bool-cases (same d j)) [
                  | inl equal ↦ rw equal (
                      omega (
                        arith,
                        now,
                        (==_iff (current - 1) 0).0 last,
                        ap (active_of t.quota) (same_path d j equal),
                      ))
                  | inr differ ↦ rw differ refl
                ])
          | inr others ↦
              rw (drop_permit, present, others)
                (active-set_active d j (current - 1) t.quota ∙ elim (Bool-cases (same d j)) [
                  | inl equal ↦
                      rw equal (omega (arith, now, ap (active_of t.quota) (same_path d j equal)))
                  | inr differ ↦ rw differ refl
                ])
        ]
  ]

  kept_limits : (drop_permit d t.quota).limits ≡ t.quota.limits
  unfolding drop_permit
  kept_limits = elim (Option-cases (HashMap.get t.quota.active_queries d)) [
    | inl absent ↦ rw (drop_permit, absent) refl
    | inr (current, present) ↦ elim (Bool-cases (current - 1 == 0)) [
      | inl last ↦ rw (drop_permit, present, last) refl
      | inr others ↦ rw (drop_permit, present, others) refl
    ]
  ]

  dropped :
      (n : ℕ)
      → times d t.permits ≡ suc n
      → Counted limit (record { quota = drop_permit d t.quota; permits = erase d t.permits })
  dropped n h = record {
    limited = ap (λ l. l.max_concurrent_queries) kept_limits ∙ c.limited;
    exact = λ j.
        active-drop_permit n (c.exact d ∙ h) j
        ∙ ap (λ k. if same d j then k - 1 else k) (c.exact j)
        ∙ sym (times-erase d j t.permits);
    within = λ j. omega (arith, c.within j, times-erase-le d j t.permits);
  }

turn-Counted :
    (limit : ℕ) (x : Turn) (t : Tenants) → Counted limit t → Counted limit (take_turn x t)
unfolding take_turn acquire_query
turn-Counted limit (acquires d) t c =
    rw (acquire_query, c.limited) (acquired limit d t c (admission t.quota d limit) refl)
turn-Counted limit (drops d) t c = drop_turn (times d t.permits) refl
  where
    drop_turn : (n : ℕ) → times d t.permits ≡ n → Counted limit (take_turn (drops d) t)
    drop_turn zero e = rw (take_turn, e) c
    drop_turn (suc n) e = rw (take_turn, e) (dropped limit d t c n e)

turns-Counted :
    (limit : ℕ) (xs : List Turn) (t : Tenants) → Counted limit t → Counted limit (take_turns xs t)
unfolding take_turns
turns-Counted limit [] t c = c
turns-Counted limit (x ∷ xs) t c = turns-Counted limit xs (take_turn x t) (turn-Counted limit x t c)

-- From no permits, under a limit that stays, a database never has more live permits than the limit,
-- whatever queries come and whatever permits are dropped.
pub limit_is_kept :
    (limit : ℕ) (rows : Option ℕ) (xs : List Turn) (d : String)
    → times d
        (take_turns xs (record {
          quota = record {
            limits = record { max_concurrent_queries = some limit; max_result_rows = rows };
            active_queries = [];
          };
          permits = [];
        })).permits
      ≤ limit
limit_is_kept limit rows xs d =
    (turns-Counted limit xs _
        (record { limited = refl; exact = λ _. refl; within = λ _. omega arith })).within
      d
