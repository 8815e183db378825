-- ===== src/Samples/Task.antt =====
-- An outbox of one task, which holds the second version of the flag.
use mizuflow.Base.{
  ℕ, ◌≡◌, refl, Option, none, some, List, [], ◌∷◌, true, inl, inr, Bool-cases, arith, ◌==◌,
  if◌then◌else◌,
}
use mathlib.Core.Path.{subst}
use mathlib.Core.Option.{some-injective}
use mizuflow.Etcd.Store.{EtcdStore, store_laws}
use mizuflow.Db.{OutboxTask, OutboxInterface, status_pending}
use mizuflow.Outbox.{World}
use mizuflow.Outbox.Laws.{Updated, OutboxLaws, All}
use mizuflow.Outbox.Published.{IsPublished}
use mizuflow.Samples.{two_json, two_json-stable, etcd_old}

abbrev pub pending_of : OutboxTask → List OutboxTask
pending_of t = if t.status == status_pending then t ∷ [] else []

abbrev pub one_row : OutboxInterface OutboxTask
one_row = record {
  create = λ t d. (some 1, record t { id = 1 });
  fetch_pending = λ limit d. (some (pending_of d), d);
  update_status = λ id status n d.
      (true, if d.id == id then record d { status = status; retry_count = n } else d);
}

abbrev pub row_of : OutboxTask → ℕ → Option OutboxTask
row_of d j = if d.id == j then some d else none

pub one_row_updates :
    (id status n : ℕ) (d : OutboxTask)
    → Updated row_of id status n d (one_row.update_status id status n d).1
one_row_updates id status n d j = ground arith

pub one_row_fetches :
    (d : OutboxTask) (tasks : List OutboxTask)
    → some (pending_of d) ≡ some tasks
    → All (λ (t : OutboxTask). (row_of d t.id ≡ some t) × (t.status ≡ status_pending)) tasks
one_row_fetches d tasks h =
    subst (All (λ (t : OutboxTask). (row_of d t.id ≡ some t) × (t.status ≡ status_pending)))
      (some-injective _ _ h)
      (elim (Bool-cases (d.status == status_pending)) [
        | inl t ↦ rw t ((ground arith, ground arith), _)
        | inr t ↦ rw t _
      ])

unfoldable pub one_row-OutboxLaws : OutboxLaws one_row
one_row-OutboxLaws = record {
  row = row_of;
  updates = λ id status n d h. one_row_updates id status n d;
  update_fails = λ id status n d h. absurd (cc);
  fetch_changes_nothing = λ limit d j. refl;
  fetches_rows = λ limit d tasks h. one_row_fetches d tasks h;
}

abbrev pub task : OutboxTask
task = record {
  id = 1;
  key = "dark";
  payload = "new";
  status = status_pending;
  retry_count = 0;
  trace_id = "";
}

abbrev pub world : World EtcdStore OutboxTask
world = record { etcd = etcd_old; db = task }

pub no_row_completed : IsPublished (store_laws two_json) one_row-OutboxLaws two_json-stable world
unfolding one_row-OutboxLaws
no_row_completed id t flag at completed reads = absurd (ground arith)
