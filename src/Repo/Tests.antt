-- ===== src/Repo/Tests.antt =====
-- Tables that are lists of rows, which a statement selects from.
use mizuflow.Base.{
  ℕ, String, Bool, true, false, ◌≡◌, ◌≢◌, ◌⊎◌, ◌↔◌, refl, sym, ap, ◌∙◌, inl, inr, Bool-cases,
  Option, none, some, List, [], ◌∷◌, str_eq, select, if◌then◌else◌,
}
use mathlib.Core.Option.{some-injective}
use mizuflow.Base.Int.{pos, inc_ℤ}
use mizuflow.Db.{FeatureMaster}
use mizuflow.Auth.{nil}
use mizuflow.RateLimit.{failed}
use mizuflow.Http.{
  FeatureProvider, ServiceState, fails, App, Readings, Server, GinContext, background, serve,
  stream, watch, dashboard, opens, trace_middleware, get_header, get_query,
}
use mizuflow.Repo.{
  SdkClient, Where, Query, Orm, Tables, list_masters, list_wheres, rollback, find_by_id,
  restore_from, write_restored, get_by_key, restored,
}
use mizuflow.Repo.Laws.{
  Collation, Columns, Occurs, Reads, meets_all, master_columns, client_columns, audit_columns,
}
use mizuflow.Repo.Access.{service_keys, HasClient, serve_opens-HasClient}
use mizuflow.Repo.Lists.{is_listed, list_masters_found}
use mizuflow.Samples.Rows.{master, audit_with}

abbrev head : {A : Type 0} → List A → Option A
head [] = none
head (x ∷ xs) = some x

-- The rows that meet the conditions.
abbrev met : {A : Type 0} → Collation → Columns A → List A → List Where → List A
met collation columns rows wheres = select (λ x. meets_all collation columns x wheres) rows

abbrev orm_of : {A : Type 0} → Collation → Columns A → List A → Orm ℕ A
orm_of collation columns rows = record {
  find = λ q d. (some (met collation columns rows q.wheres), d);
  first = λ q d. (some (head (met collation columns rows q.wheres)), d);
  count = λ d. (some 0, d);
  create = λ x d. (some 1, d);
  save = λ x d. (true, d);
  updates = λ q values d. (true, d);
}

selected :
    {A : Type 0} (test : A → Bool) (rows : List A) (x : A)
    → Occurs x (select test rows)
    → Occurs x rows × (test x ≡ true)
selected test [] x h = absurd h
selected test (y ∷ ys) x h = elim (Bool-cases (test y)) [
  | inl t ↦ elim (rw t at h) [
    | inl same ↦ (inl same, sym (ap test same) ∙ t)
    | inr later ↦ (inr (selected test ys x later).0, (selected test ys x later).1)
  ]
  | inr t ↦ let later = selected test ys x (rw t at h) in (inr later.0, later.1)
]

selects :
    {A : Type 0} (test : A → Bool) (rows : List A) (x : A)
    → Occurs x rows
    → test x ≡ true
    → Occurs x (select test rows)
selects test [] x h good = absurd h
selects test (y ∷ ys) x (inl same) good = rw (ap test same ∙ good) (inl same)
selects test (y ∷ ys) x (inr later) good = elim (Bool-cases (test y)) [
  | inl t ↦ rw t (inr (selects test ys x later good))
  | inr t ↦ rw t (selects test ys x later good)
]

head-Occurs : {A : Type 0} (xs : List A) (x : A) → head xs ≡ some x → Occurs x xs
head-Occurs [] x h = absurd (cc)
head-Occurs (y ∷ ys) x h = inl (some-injective _ _ h)

head_none : {A : Type 0} (xs : List A) (x : A) → head xs ≡ none → ¬ (Occurs x xs)
head_none [] x h o = o
head_none (y ∷ ys) x h o = absurd (cc)

missed :
    {A : Type 0} (test : A → Bool) (rows : List A) (x : A)
    → head (select test rows) ≡ none
    → Occurs x rows
    → test x ≡ false
missed test rows x h o = elim (Bool-cases (test x)) [
  | inl t ↦ absurd (head_none (select test rows) x h (selects test rows x o t))
  | inr t ↦ t
]

reads_of :
    {A : Type 0} (collation : Collation) (columns : Columns A) (rows : List A)
    → Reads collation columns (orm_of collation columns rows)
reads_of {A} collation columns rows = record {
  rows = λ d. rows;
  find_gives =
      λ wheres order d found h x o. selected (test wheres) rows x (rw (some-injective _ _ h) o);
  find_gives_all = λ wheres order d found h x o good.
      rw (sym (some-injective _ _ h)) (selects (test wheres) rows x o good);
  first_gives = λ wheres order d x h.
      selected (test wheres) rows x
        (head-Occurs (met collation columns rows wheres) x (some-injective _ _ h));
  first_misses = λ wheres order d h x o. missed (test wheres) rows x (some-injective _ _ h) o;
}
  where
    test : List Where → A → Bool
    test wheres x = meets_all collation columns x wheres

abbrev binary : Collation
binary = record { same = str_eq; is_like = λ s pattern. true }

abbrev client : SdkClient
client = record { id = 3; app_id = "web"; api_key = "k1"; env = "prod"; status = 1 }

abbrev disabled : SdkClient
disabled = record { id = 2; app_id = "web"; api_key = "k1"; env = "prod"; status = 0 }

abbrev other_master : FeatureMaster
other_master = record master { env = "dev" }

abbrev tables : Tables ℕ
tables = record {
  masters = orm_of binary master_columns (other_master ∷ master ∷ []);
  audits = orm_of binary audit_columns (audit_with "true" ∷ []);
  tasks = orm_of binary (record { text = λ t column. t.key; number = λ t column. t.status }) [];
  clients = orm_of binary client_columns (disabled ∷ client ∷ []);
  ping = λ d. (true, d);
}

lists : (list_masters tables "shop" "prod" "" 0).0 ≡ some (master ∷ [])
unfolding list_masters meets_all list_wheres
lists = refl

list_masters_found_example : Occurs master (master ∷ []) ↔ (
    Occurs master (other_master ∷ master ∷ []) × (is_listed binary "shop" "prod" "" master ≡ true))
unfolding reads_of
list_masters_found_example =
    list_masters_found binary tables (reads_of binary master_columns (other_master ∷ master ∷ []))
      "shop" "prod" "" 0 (master ∷ []) master lists

abbrev back : FeatureMaster
back = record master { version = pos 2 }

rolled_back : (rollback tables "shop" "prod" "dark" 7 0).0 ≡ some back
unfolding rollback find_by_id meets_all restore_from get_by_key write_restored inc_ℤ
rolled_back = refl

-- A service that answers nothing, and a server that asks the table of clients.
abbrev silent : FeatureProvider (ServiceState ℕ)
silent = record {
  save_feature = λ ctx flag operator s. (fails "", s);
  get_feature = λ ctx namespace env key s. (fails "", s);
  list_features = λ ctx namespace env search s. (fails "", s);
  get_feature_audits = λ ctx namespace env key s. (fails "", s);
  rollback_feature = λ ctx namespace env key id operator s. (fails "", s);
  health = λ ctx s. (none, s);
}

abbrev app : App (ServiceState ℕ) ℕ ℕ
app = record {
  features = silent;
  sdk = service_keys tables;
  jwt = record { sign = λ claims. none; parse = λ now token. none };
  sessions = record {
    get = λ key r. (nil, r);
    set = λ key value r. (false, r);
    del = λ key r. (false, r);
  };
  scripts = record { run_script = λ key rate capacity now requested r. (failed, r) };
  limiters = record {
    new_limiter = λ n burst. n;
    allow = λ now l. (false, l);
    tokens_left = λ now l. 0;
  };
  requests_per_second = pos 5;
  env = "prod";
  bind_error = "EOF";
}

abbrev readings : Readings
readings = record {
  time = record {
    now = pos 5;
    access_end = pos 9;
    refresh_end = pos 99;
    access_seconds = pos 4;
    new_id = "a";
  };
  micros = 7;
  trace_id = "t";
}

abbrev server : Server (ServiceState ℕ) ℕ ℕ
server = record {
  world = record { db = 0; spawned = [] };
  limits = record { redis = 0; locals = [] };
}

abbrev request : GinContext
request = record {
  headers = ("X-Mizu-Key", "k1") ∷ [];
  query = ("env", "prod") ∷ [];
  client_ip = "a";
  ctx = background;
  keys = [];
}

opened :
    (serve app readings (stream watch) request server).0
    ≡ opens watch (trace_middleware "t" request)
unfolding serve mizuflow.Http.sdk_auth_middleware mizuflow.Base.Dict.lookup trace_middleware
    service_keys mizuflow.Repo.validate_api_key meets_all
opened = refl

watch_no_dashboard : watch ≢ dashboard
watch_no_dashboard h = cc

serve_opens-HasClient_example :
    (app.env ≡ "loadtest")
    ⊎ HasClient binary tables
        (reads_of binary client_columns (disabled ∷ client ∷ []))
        (get_header request "X-Mizu-Key")
        (get_query request "env")
        0
serve_opens-HasClient_example =
    serve_opens-HasClient binary tables (reads_of binary client_columns (disabled ∷ client ∷ []))
      app readings watch request (trace_middleware "t" request) server refl watch_no_dashboard
      opened
