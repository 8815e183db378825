-- ===== src/System/Tests.antt =====
-- A run of the worker and the reconciler on one task and one master record, while another server writes.
use mizuflow.Base.{
  ℕ, zero, suc, ◌≡◌, refl, sym, some, none, true, List, [], ◌∷◌, ap, inl, inr, ◌⊎◌, Bool-cases,
  ◌==◌,
}
use mathlib.Core.Option.{some-injective}
use mizuflow.Base.Int.{pos}
use mizuflow.Etcd.Store.{EtcdStore, store, store_laws}
use mizuflow.Db.{OutboxTask, FeatureMaster, FeatureInterface}
use mizuflow.Outbox.{World, process_pending, WorkerTurn, context_done, interval_passed}
use mizuflow.Outbox.Published.{IsPublished}
use mizuflow.Reconciler.{check_all, reconcile_from}
use mizuflow.Reconciler.Keeps.{Kept, AllRoundTrip, PagesRoundTrip}
use mizuflow.System.{SystemRun, works, reconciles, others_write, rests, goes_on}
use mizuflow.System.Runs.{SystemRun-IsPublished}
use mizuflow.Samples.{two_json, two_json-stable}
use mizuflow.Outbox.{sync_to_etcd}
use mizuflow.Outbox.Laws.{OutboxLaws}
use mizuflow.Features.{saved, save_feature, save_transaction, write_all, outcome_of}
use mizuflow.Features.Validate.{validate_payload}
use mizuflow.Base.Int.{inc_ℤ}
use mizuflow.System.Saves.{SaveLaws, save_and_sync-SystemRun}
use mizuflow.Samples.Rows
use mizuflow.Samples.Rows.{Slot, slot_row, created, end_commits, end_rolls_back}
use mizuflow.Samples.{new_flag, etcd_old}
use mizuflow.Samples.Task.{one_row, one_row-OutboxLaws, world, no_row_completed}

abbrev master : FeatureMaster
master = record {
  id = 1;
  namespace = "shop";
  env = "prod";
  key = "dark";
  type_name = "bool";
  version = pos 2;
  current_val = "true";
  updated_at = pos 0;
  updated_by = "";
}

unfoldable page_at : ℕ → List FeatureMaster
page_at zero = master ∷ []
page_at (suc offset) = []

abbrev features : FeatureInterface OutboxTask
features = record {
  get_by_key = λ namespace env key d. (some none, d);
  list_by_page = λ offset limit d. (some (page_at offset), d);
  save = λ m d. (true, d);
}

page_at-AllRoundTrip : (offset : ℕ) → AllRoundTrip two_json (page_at offset)
unfolding page_at
page_at-AllRoundTrip zero = (refl, _)
page_at-AllRoundTrip (suc offset) = _

features-PagesRoundTrip : PagesRoundTrip two_json features
features-PagesRoundTrip offset limit d ms h =
    rw (sym (some-injective _ _ h)) (page_at-AllRoundTrip offset)

abbrev worked : World EtcdStore OutboxTask
worked = process_pending store two_json one_row world

abbrev reconciled : World EtcdStore OutboxTask
reconciled = record {
  etcd = check_all store two_json features (master ∷ []) worked.etcd;
  db = worked.db;
}

reconciled_lem : reconcile_from store two_json features 2 100 0 worked ≡ some reconciled
unfolding reconcile_from page_at
reconciled_lem = refl

SystemRun-IsPublished_example :
    IsPublished (store_laws two_json) one_row-OutboxLaws two_json-stable reconciled
    × Kept (store_laws two_json) world.etcd reconciled.etcd
SystemRun-IsPublished_example =
    SystemRun-IsPublished (store_laws two_json) one_row-OutboxLaws features two_json-stable
      features-PagesRoundTrip (λ offset limit d j. refl)
      (goes_on world world reconciled (others_write world world.etcd (λ j v h. h)) (
        goes_on world worked reconciled (works world) (
          goes_on worked reconciled reconciled (reconciles 2 100 worked reconciled reconciled_lem)
            (rests reconciled))))
      no_row_completed

-- Two rounds of the worker; its own result is what the second finds.
abbrev turns : List (WorkerTurn OutboxTask)
turns = interval_passed world.db ∷ interval_passed worked.db ∷ context_done ∷ []

-- A save into the database of one slot.
unfoldable slot_outbox : OutboxLaws Rows.outbox
slot_outbox = record {
  row = slot_row;
  updates = λ id status n d h. absurd (cc);
  update_fails = λ id status n d h. inr (λ j. refl);
  fetch_changes_nothing = λ limit d j. refl;
  fetches_rows = λ limit d tasks h. absurd (cc);
}

created_status :
    (t : OutboxTask) (d : Slot) (j : ℕ) (x : OutboxTask)
    → slot_row (some t) j ≡ some x
    → (slot_row d j ≡ some x) ⊎ (x.status ≡ t.status)
created_status t d j x h = elim (Bool-cases (j == 1)) [
  | inl e ↦ inr (ap (λ (y : OutboxTask). y.status) (sym (some-injective _ _ (rw e at h))))
  | inr e ↦ absurd (let h' = rw e at h in cc)
]

unfoldable slot_saves : SaveLaws slot_outbox Rows.gorm Rows.features Rows.audits
unfolding slot_outbox
slot_saves = record {
  get_leaves = λ namespace env key d j. refl;
  save_leaves = λ m d j. refl;
  audit_leaves = λ a d j. refl;
  creates = λ t d id h. created t id h;
  creates_others = λ t d j x h. created_status (record t { id = 1 }) d j x h;
  commits = λ f d r h. end_commits d (f d) r h;
  rolls_back = λ f d h j. ap (λ s. slot_row s j) (sym (end_rolls_back d (f d) h));
}

abbrev before_save : World EtcdStore Slot
before_save = record { etcd = etcd_old; db = none }

abbrev after_save : World EtcdStore Slot
after_save = record {
  etcd = etcd_old;
  db =
      (save_feature two_json Rows.parsers Rows.gorm Rows.features Rows.audits Rows.outbox new_flag
        "ann" "" none).1;
}

saves_new :
    (save_feature two_json Rows.parsers Rows.gorm Rows.features Rows.audits Rows.outbox new_flag
      "ann" "" none).0
    ≡ saved (pos 2) 1 new_flag
unfolding save_feature save_transaction write_all validate_payload outcome_of Rows.end_of inc_ℤ
saves_new = refl

save_and_sync-SystemRun_example :
    SystemRun
      (store_laws two_json)
      slot_outbox
      Rows.features
      before_save
      (sync_to_etcd store two_json Rows.outbox 1 new_flag after_save)
save_and_sync-SystemRun_example =
    save_and_sync-SystemRun two_json Rows.parsers slot_saves new_flag "ann" "" (store_laws two_json)
      (pos 2) 1 new_flag before_save saves_new refl
