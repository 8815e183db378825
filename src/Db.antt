-- ===== src/Db.antt =====
-- internal/model and the interfaces of internal/repository: the rows of MySQL and the statements on them.
-- The database behind the interfaces is a parameter; `D` is its state.
use mizuflow.Base.{ℕ, String, Bool, Option, List}
use mizuflow.Base.Int.{ℤ}

abbrev pub status_pending : ℕ
status_pending = 0

abbrev pub status_completed : ℕ
status_completed = 1

abbrev pub status_failed : ℕ
status_failed = 2

-- `type OutboxTask struct`, without the two times that the database keeps and no code reads.
pub record OutboxTask : Type 0 where
  pub id : ℕ
  pub key : String
  pub payload : String
  pub status : ℕ
  pub retry_count : ℕ
  pub trace_id : String

-- `type FeatureMaster struct`; a time is its number of nanoseconds.
pub record FeatureMaster : Type 0 where
  pub id : ℕ
  pub namespace : String
  pub env : String
  pub key : String
  pub type_name : String
  pub version : ℤ
  pub current_val : String
  pub updated_at : ℤ
  pub updated_by : String

-- `type FeatureAudit struct`
pub record FeatureAudit : Type 0 where
  pub id : ℕ
  pub namespace : String
  pub env : String
  pub key : String
  pub old_value : String
  pub new_value : String
  pub type_name : String
  pub operator : String
  pub trace_id : String
  pub ip : String
  pub created_at : ℤ

-- `type OutboxInterface interface`: `none` and `false` are errors, and `create` gives the new row's id.
pub record OutboxInterface (D : Type 0) : Type 0 where
  pub create : OutboxTask → D → Option ℕ × D
  pub fetch_pending : ℕ → D → Option (List OutboxTask) × D
  pub update_status : ℕ → ℕ → ℕ → D → Bool × D

-- What `type FeatureInterface interface` has and the services call.
pub record FeatureInterface (D : Type 0) : Type 0 where
  pub get_by_key : String → String → String → D → Option (Option FeatureMaster) × D
  pub list_by_page : ℕ → ℕ → D → Option (List FeatureMaster) × D
  pub save : FeatureMaster → D → Bool × D

-- What `type AuditInterface interface` has and the services call.
pub record AuditInterface (D : Type 0) : Type 0 where
  pub create : FeatureAudit → D → Bool × D
  pub find_by_id : ℕ → D → Option FeatureAudit × D
