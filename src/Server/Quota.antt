-- ===== src/Server/Quota.antt =====
-- crates/neo4r-server/src/backend/state.rs: how many queries of a database run at once, with
-- evaluate_resource_admission of production_primitives.rs. The locks are not poisoned; a permit is the
-- name of its database.
pub mod Permits
pub mod Limits
pub mod Tests
use neo4r.Prelude.Equality.{string_eq}
use neo4r.Prelude.HashMap
use neo4r.Prelude.HashMap.{HashMap}
use neo4r.Prelude.{
  Option, Result, String, err, if◌then◌else◌, leb, ltb, none, ok, some, u64_max, ℕ, ◌+◌, ◌-◌, ◌==◌,
}

pub data AdmissionError : Type 0 where
  too_many_queries : AdmissionError
  too_many_rows : AdmissionError
  too_much_memory : AdmissionError

pub record ResourceAdmissionPolicy : Type 0 where
  pub max_concurrent_queries : ℕ
  pub max_result_rows : ℕ
  pub max_memory_bytes : ℕ

pub record ResourceAdmissionRequest : Type 0 where
  pub active_queries : ℕ
  pub estimated_result_rows : ℕ
  pub estimated_memory_bytes : ℕ

unfoldable pub evaluate_resource_admission :
    ResourceAdmissionPolicy → ResourceAdmissionRequest → Result AdmissionError (Unit {0})
evaluate_resource_admission policy request =
    if leb policy.max_concurrent_queries request.active_queries
    then err too_many_queries
    else if ltb policy.max_result_rows request.estimated_result_rows
    then err too_many_rows
    else if ltb policy.max_memory_bytes request.estimated_memory_bytes
    then err too_much_memory
    else ok tt

pub record TenantQuotaLimits : Type 0 where
  pub max_concurrent_queries : Option ℕ
  pub max_result_rows : Option ℕ

pub record TenantQuota : Type 0 where
  pub limits : TenantQuotaLimits
  pub active_queries : HashMap String ℕ

unfoldable pub configure_quota : Option ℕ → Option ℕ → TenantQuota → TenantQuota
configure_quota queries rows q = record q {
  limits = record { max_concurrent_queries = queries; max_result_rows = rows };
}

abbrev pub unwrap_or_max : Option ℕ → ℕ
unwrap_or_max none = u64_max
unwrap_or_max (some n) = n

abbrev pub or_zero : Option ℕ → ℕ
or_zero none = 0
or_zero (some n) = n

-- the counter of a database
abbrev pub active_of : TenantQuota → String → ℕ
active_of q database = or_zero (HashMap.get q.active_queries database)

-- the counter that `entry(..).or_default()` leaves, and the one of a permit
abbrev pub set_active : String → ℕ → TenantQuota → TenantQuota
set_active database n q = record q { active_queries = HashMap.insert database n q.active_queries }

abbrev pub admission : TenantQuota → String → ℕ → Result AdmissionError (Unit {0})
admission q database limit =
    evaluate_resource_admission
      (record {
        max_concurrent_queries = limit;
        max_result_rows = unwrap_or_max q.limits.max_result_rows;
        max_memory_bytes = u64_max;
      })
      (record {
        active_queries = active_of q database;
        estimated_result_rows = 0;
        estimated_memory_bytes = 0;
      })

unfoldable pub admitted :
    Result AdmissionError (Unit {0})
    → String
    → TenantQuota
    → Result AdmissionError String × TenantQuota
admitted (ok _) database q = (ok database, set_active database (active_of q database + 1) q)
admitted (err e) database q = (err e, set_active database (active_of q database) q)

unfoldable pub acquire_query : String → TenantQuota → Result AdmissionError String × TenantQuota
unfolding admitted evaluate_resource_admission
acquire_query database q = elim q.limits.max_concurrent_queries [
  | none ↦ (ok database, q)
  | some limit ↦ admitted (admission q database limit) database q
]

-- `drop` of a permit
unfoldable pub drop_permit : String → TenantQuota → TenantQuota
drop_permit database q = elim (HashMap.get q.active_queries database) [
  | none ↦ q
  | some current ↦
      if current - 1 == 0
      then record q { active_queries = HashMap.remove database q.active_queries }
      else set_active database (current - 1) q
]

unfoldable pub validate_result_rows : ℕ → TenantQuota → Result AdmissionError (Unit {0})
unfolding evaluate_resource_admission
validate_result_rows rows q = elim q.limits.max_result_rows [
  | none ↦ ok tt
  | some limit ↦
      evaluate_resource_admission
        (record {
          max_concurrent_queries = u64_max;
          max_result_rows = limit;
          max_memory_bytes = u64_max;
        })
        (record { active_queries = 0; estimated_result_rows = rows; estimated_memory_bytes = 0 })
]
