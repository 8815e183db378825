-- ===== src/Reconciler/Tests.antt =====
-- The reconciler on tables of one row or of copies of it, whose feature etcd holds in an older version or not at all.
use mizuflow.Base.{ℕ, zero, suc, ◌<◌, ◌≡◌, refl, sym, none, some, List, [], ◌∷◌, true, arith}
use mathlib.Core.Option.{some-injective}
use mizuflow.Base.Int.{pos}
use mizuflow.Base.Dict.{lookup}
use mizuflow.Keys.{build_feature_key}
use mizuflow.Etcd.{save_feature_if_newer, save_round}
use mizuflow.Etcd.Laws.{AtLeast}
use mizuflow.Etcd.Store.{EtcdStore, store, store_laws}
use mizuflow.Db.{FeatureMaster, FeatureInterface}
use mizuflow.Outbox.{World}
use mizuflow.Reconciler.{reconcile_from}
use mizuflow.Reconciler.Run.{
  ReconcilerConfig, new_reconciler, Mutex, acquired, done, tick, Running, run_reconciler,
}
use mizuflow.Reconciler.Keeps.{MutexLaws, AllRoundTrip, PagesRoundTrip, RunKept}
use mizuflow.Reconciler.Runs.{run_reconciler_keeps}
use mizuflow.Reconciler.Repairs.{on_page, now, reconcile_repairs}
use mizuflow.Reconciler.Ends.{PageLaws}
use mizuflow.Samples.{two_json, dark_key, etcd_old, old_entry}

abbrev master : FeatureMaster
master = record {
  id = 1;
  namespace = "shop";
  env = "prod";
  key = "dark";
  type_name = "bool";
  version = pos 2;
  current_val = "true";
  updated_at = pos 0;
  updated_by = "";
}

unfoldable page : ℕ → List FeatureMaster → List FeatureMaster
page zero rows = rows
page (suc n) rows = []

abbrev one_row : FeatureInterface (List FeatureMaster)
one_row = record {
  get_by_key = λ namespace env key d. (some none, d);
  list_by_page = λ offset limit d. (some (page offset d), d);
  save = λ m d. (true, d);
}

unfoldable rows_of : List FeatureMaster → ℕ
rows_of [] = 0
rows_of (_ ∷ rows) = suc (rows_of rows)

page_lem :
    (offset : ℕ) (d : List FeatureMaster) (m : FeatureMaster) (ms : List FeatureMaster)
    → some (page offset d) ≡ some (m ∷ ms)
    → offset < rows_of d
unfolding page rows_of
page_lem zero [] m ms h = absurd (cc)
page_lem zero (_ ∷ rows) m ms h = omega arith
page_lem (suc n) d m ms h = absurd (cc)

unfoldable pages : PageLaws one_row
pages = record {
  rows = rows_of;
  page_keeps = λ offset limit d. refl;
  page_past_end = λ offset limit d m ms h. page_lem offset d m ms h;
}

abbrev empty_etcd : EtcdStore
empty_etcd = record { entries = []; next = 1 }

-- A table of some copies of the row, all on its first page.
unfoldable copies : ℕ → List FeatureMaster
copies zero = []
copies (suc n) = master ∷ copies n

unfoldable page_of : ℕ → ℕ → List FeatureMaster
unfolding copies
page_of zero n = copies n
page_of (suc offset) n = []

abbrev table : FeatureInterface ℕ
table = record {
  get_by_key = λ namespace env key d. (some none, d);
  list_by_page = λ offset limit d. (some (page_of offset d), d);
  save = λ m d. (true, d);
}

page_of_lem :
    (offset n : ℕ) (m : FeatureMaster) (ms : List FeatureMaster)
    → some (page_of offset n) ≡ some (m ∷ ms)
    → offset < n
unfolding page_of copies
page_of_lem zero zero m ms h = absurd (cc)
page_of_lem zero (suc n) m ms h = omega arith
page_of_lem (suc offset) n m ms h = absurd (cc)

unfoldable table_pages : PageLaws table
table_pages = record {
  rows = λ n. n;
  page_keeps = λ offset limit d. refl;
  page_past_end = λ offset limit d m ms h. page_of_lem offset d m ms h;
}

copies-AllRoundTrip : (n : ℕ) → AllRoundTrip two_json (copies n)
unfolding copies
copies-AllRoundTrip zero = _
copies-AllRoundTrip (suc n) = (refl, copies-AllRoundTrip n)

page_of-AllRoundTrip : (offset n : ℕ) → AllRoundTrip two_json (page_of offset n)
unfolding page_of
page_of-AllRoundTrip zero n = copies-AllRoundTrip n
page_of-AllRoundTrip (suc offset) n = _

table-PagesRoundTrip : PagesRoundTrip two_json table
table-PagesRoundTrip offset limit d ms h =
    rw (sym (some-injective _ _ h)) (page_of-AllRoundTrip offset d)

-- A lock that no one else asks for.
abbrev free : Mutex EtcdStore
free = record { lock = λ e. (acquired, e); unlock = λ e. (true, e) }

abbrev free-MutexLaws : MutexLaws (store_laws two_json) free
free-MutexLaws = record { lock_keeps = λ e j v h. h; unlock_keeps = λ e j v h. h }

abbrev config : ReconcilerConfig
config = record { interval = pos 60; batch_size = pos 0; batch_delay = pos 0 }

abbrev start : World EtcdStore ℕ
start = record { etcd = etcd_old; db = 0 }

run_reconciler_keeps_example :
    (r : Running EtcdStore ℕ) × (run_reconciler store two_json table free
        (new_reconciler config)
        3
        true
        (tick 1 ∷ tick 2 ∷ done ∷ [])
        start
      ≡ some r)
    × RunKept (store_laws two_json) table etcd_old r
unfolding table_pages
run_reconciler_keeps_example =
    run_reconciler_keeps (store_laws two_json) table_pages free free-MutexLaws table-PagesRoundTrip
      config 3 true (tick 1 ∷ tick 2 ∷ done ∷ []) start (omega arith, (omega arith, _))

reconcile_repairs_example :
    (w' : World EtcdStore ℕ) × (reconcile_from store two_json table 2 100 0
        (record { etcd = etcd_old; db = 1 })
      ≡ some w')
    × AtLeast two_json (pos 2) (lookup dark_key w'.etcd.entries)
unfolding table_pages page_of copies save_feature_if_newer save_round store lookup store_laws
    build_feature_key
reconcile_repairs_example =
    reconcile_repairs (store_laws two_json) table master table_pages 2 100 0
      (record { etcd = etcd_old; db = 1 }) etcd_old (omega arith) (omega arith)
      (on_page 0 (record { etcd = etcd_old; db = 1 }) master [] etcd_old refl (now [] etcd_old))
      table-PagesRoundTrip (record { kv = old_entry; rev = pos 6; here = refl; saved = refl })
      (omega arith)
