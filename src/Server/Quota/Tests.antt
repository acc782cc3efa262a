-- ===== src/Server/Quota/Tests.antt =====
-- A permit from before there was a limit, dropped after, frees a place that it never took.
use neo4r.Server.Quota.Limits.{limit_is_kept}
use neo4r.Server.Quota.Permits.{Turn, acquires, drops, times, take_turns}
use neo4r.Server.Quota.{TenantQuota, configure_quota, acquire_query, drop_permit}
use neo4r.Prelude.Equality.{string_eq}
use neo4r.Prelude.{List, [], none, ok, refl, some, ◌∷◌, ◌≡◌, ◌≤◌}

abbrev fresh : TenantQuota
fresh = record {
  limits = record { max_concurrent_queries = none; max_result_rows = none };
  active_queries = [];
}

-- A first permit without a limit, the limit of one, and a second permit.
abbrev limited : TenantQuota
limited = (acquire_query "db" (configure_quota (some 1) none (acquire_query "db" fresh).1)).1

second_runs :
    (acquire_query "db" (configure_quota (some 1) none (acquire_query "db" fresh).1)).0 ≡ ok "db"
unfolding acquire_query configure_quota
second_runs = refl

third_runs_too : (acquire_query "db" (drop_permit "db" limited)).0 ≡ ok "db"
unfolding acquire_query configure_quota drop_permit
third_runs_too = refl

abbrev turns : List Turn
turns = acquires "db" ∷ acquires "db" ∷ acquires "db" ∷ drops "db" ∷ acquires "other" ∷ []

limit_is_kept_example :
    times "db"
      (take_turns turns (record {
        quota = record {
          limits = record { max_concurrent_queries = some 2; max_result_rows = none };
          active_queries = [];
        };
        permits = [];
      })).permits
    ≤ 2
limit_is_kept_example = limit_is_kept 2 none turns "db"
