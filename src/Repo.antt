-- ===== src/Repo.antt =====
-- internal/repository/feature.go, audit.go, outbox.go and sdk.go: the repositories of MySQL, as statements of gorm.
-- gorm and MySQL are a parameter, which a statement is given to.
pub mod Laws
pub mod Access
pub mod Lists
pub mod Restores
mod Tests
use Prim.Native.String.{◌++◌}
use mizuflow.Base.{
  ℕ, String, Bool, true, false, not, Option, none, some, List, [], ◌∷◌, str_eq, if◌then◌else◌,
}
use mizuflow.Base.Int.{ℤ, pos, inc_ℤ}
use mizuflow.Db.{
  OutboxTask, FeatureMaster, FeatureAudit, OutboxInterface, FeatureInterface, AuditInterface,
  status_pending,
}
use mizuflow.Http.{SdkRepository, Queries}

-- `SDKClient`
pub record SdkClient : Type 0 where
  pub id : ℕ
  pub app_id : String
  pub api_key : String
  pub env : String
  pub status : ℕ

-- A condition of a statement: a column that is a text, a number, or like a pattern.
pub data Where : Type 0 where
  text_is like : String → String → Where
  number_is : String → ℕ → Where

-- What `Where`, `Order`, `Offset` and `Limit` put together.
pub record Query : Type 0 where
  pub wheres : List Where
  pub order : String
  pub offset : Option ℕ
  pub limit : Option ℕ

abbrev pub where_all : List Where → Query
where_all wheres = record { wheres = wheres; order = ""; offset = none; limit = none }

-- gorm on a table of rows `A`; `none` and `false` are errors, and `first` gives `some none` for `ErrRecordNotFound`.
pub record Orm (D A : Type 0) : Type 0 where
  pub find : Query → D → Option (List A) × D
  pub first : Query → D → Option (Option A) × D
  pub count : D → Option ℕ × D
  pub create : A → D → Option ℕ × D
  pub save : A → D → Bool × D
  pub updates : Query → List (String × ℕ) → D → Bool × D

pub record Tables (D : Type 0) : Type 0 where
  pub masters : Orm D FeatureMaster
  pub audits : Orm D FeatureAudit
  pub tasks : Orm D OutboxTask
  pub clients : Orm D SdkClient
  pub ping : D → Bool × D

abbrev pub of_key : String → String → String → List Where
of_key namespace env key =
    text_is "namespace" namespace ∷ text_is "env" env ∷ text_is "key" key ∷ []

-- `query.Where(...)` where a filter is given.
unfoldable pub and_where : String → Where → List Where → List Where
and_where filter condition wheres = if str_eq filter "" then wheres else condition ∷ wheres

unfoldable pub list_wheres : String → String → String → List Where
unfolding and_where
list_wheres namespace env search =
    and_where namespace (text_is "namespace" namespace)
      (and_where env (text_is "env" env) (and_where search (like "key" ("%" ++ search ++ "%")) []))

abbrev pub is_some : {A : Type 0} → Option A → Bool
is_some none = false
is_some (some a) = true

-- `FindByID`, which has an error for a missing row.
abbrev pub or_error : {A : Type 0} → Option (Option A) → Option A
or_error none = none
or_error (some o) = o

abbrev pub is_known : {A : Type 0} → Option (Option A) → Option Bool
is_known none = none
is_known (some o) = some (is_some o)

-- The master record that `Rollback` writes, of the audit record and what was found.
unfoldable pub restored :
    String → String → String → FeatureAudit → Option FeatureMaster → FeatureMaster
restored namespace env key audit none = record {
  id = 0;
  namespace = namespace;
  env = env;
  key = key;
  type_name = audit.type_name;
  version = pos 1;
  current_val = audit.new_value;
  updated_at = pos 0;
  updated_by = "";
}
restored namespace env key audit (some master) = record master {
  type_name = audit.type_name;
  version = inc_ℤ master.version;
  current_val = audit.new_value;
}

module _ {D : Type 0} (db : Tables D) where
  unfoldable pub get_by_key : String → String → String → D → Option (Option FeatureMaster) × D
  get_by_key namespace env key d = db.masters.first (where_all (of_key namespace env key)) d

  unfoldable pub get_all : D → Option (List FeatureMaster) × D
  get_all d = db.masters.find (where_all []) d

  unfoldable pub list_by_page : ℕ → ℕ → D → Option (List FeatureMaster) × D
  list_by_page offset limit d =
      db.masters.find
        (record { wheres = []; order = "id ASC"; offset = some offset; limit = some limit }) d

  unfoldable pub list_masters : String → String → String → D → Option (List FeatureMaster) × D
  list_masters namespace env search d =
      db.masters.find
        (record (where_all (list_wheres namespace env search)) { order = "updated_at DESC" }) d

  unfoldable pub find_by_id : ℕ → D → Option (Option FeatureAudit) × D
  find_by_id id d = db.audits.first (where_all (number_is "id" id ∷ [])) d

  -- `Rollback` after the master record is read, and after the check of the key.
  unfoldable pub write_restored :
      String → String → String → FeatureAudit → Option FeatureMaster → D → Option FeatureMaster × D
  unfolding restored
  write_restored namespace env key audit found d =
      let master = restored namespace env key audit found in
      let (saved, d') = db.masters.save master d in (if saved then some master else none, d')

  unfoldable pub restore_from :
      String → String → String → FeatureAudit → D → Option FeatureMaster × D
  restore_from namespace env key audit d =
      let (r, d') = get_by_key namespace env key d in
      if not (str_eq audit.key key) then (none, d) else elim r [
        | none ↦ (none, d')
        | some found ↦ write_restored namespace env key audit found d'
      ]

  unfoldable pub rollback : String → String → String → ℕ → D → Option FeatureMaster × D
  rollback namespace env key version d =
      let (r, d') = find_by_id version d in
      elim (or_error r) [ none ↦ (none, d') | some audit ↦ restore_from namespace env key audit d' ]

  -- A page of the audit records and their number.
  unfoldable pub list_audits : ℕ → ℕ → D → Option (List FeatureAudit × ℕ) × D
  list_audits offset limit d =
      let (total, d1) = db.audits.count d in
      let (page, d2) =
        db.audits.find
          (record { wheres = []; order = "id DESC"; offset = some offset; limit = some limit })
          d1 in
      elim total [
        | none ↦ (none, d1)
        | some n ↦ (elim page [ none ↦ none | some audits ↦ some (audits, n) ], d2)
      ]

  unfoldable pub list_by_key : String → String → String → D → Option (List FeatureAudit) × D
  list_by_key namespace env key d =
      db.audits.find (record (where_all (of_key namespace env key)) { order = "created_at DESC" }) d

  unfoldable pub fetch_pending : ℕ → D → Option (List OutboxTask) × D
  fetch_pending limit d =
      db.tasks.find
        (record {
          wheres = number_is "status" status_pending ∷ [];
          order = "id ASC";
          offset = none;
          limit = some limit;
        })
        d

  unfoldable pub update_status : ℕ → ℕ → ℕ → D → Bool × D
  update_status id status retry_count d =
      db.tasks.updates (where_all (number_is "id" id ∷ []))
        (("status", status) ∷ ("retry_count", retry_count) ∷ []) d

  unfoldable pub validate_api_key : String → String → D → Option Bool × D
  validate_api_key api_key env d =
      let (r, d') =
        db.clients.first
          (where_all (text_is "api_key" api_key ∷ text_is "env" env ∷ number_is "status" 1 ∷ []))
          d in
      (is_known r, d')

  -- The repositories as the interfaces of the services.
  abbrev pub feature_repository : FeatureInterface D
  feature_repository = record {
    get_by_key = get_by_key;
    list_by_page = list_by_page;
    save = db.masters.save;
  }

  abbrev pub audit_repository : AuditInterface D
  audit_repository = record {
    create = λ audit d. (is_some (db.audits.create audit d).0, (db.audits.create audit d).1);
    find_by_id = λ id d. (or_error (find_by_id id d).0, (find_by_id id d).1);
  }

  abbrev pub outbox_repository : OutboxInterface D
  outbox_repository = record {
    create = db.tasks.create;
    fetch_pending = fetch_pending;
    update_status = update_status;
  }

  abbrev pub sdk_repository : SdkRepository D
  sdk_repository = record { validate_api_key = validate_api_key }

  abbrev pub repository_queries : (D → Bool × D) → Queries D
  repository_queries ping_etcd = record {
    list = list_masters;
    list_by_key = list_by_key;
    ping_mysql = db.ping;
    ping_etcd = ping_etcd;
  }
