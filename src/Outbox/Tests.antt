-- ===== src/Outbox/Tests.antt =====
-- The worker on a table of one row.
use mizuflow.Base.{◌≡◌, refl, sym, ap, arith}
use mathlib.Core.Option.{some-injective}
use mizuflow.Base.Dict.{lookup}
use mizuflow.Keys.{build_feature_key}
use mizuflow.Etcd.{save_feature_if_newer, save_round}
use mizuflow.Etcd.Store.{store}
use mizuflow.Db.{OutboxTask, status_completed, status_failed}
use mizuflow.Outbox.{process_pending, process_task}
use mizuflow.Outbox.Marks.{HasPayload}
use mizuflow.Outbox.Retries.{HasRetries, process_pending_retries}
use mizuflow.Samples.Task.{one_row, one_row-OutboxLaws, task, world}
use mizuflow.Samples.{two_json}

-- A payload that cannot be read is marked failed, with its count of retries.
unreadable_fails :
    (process_task store two_json one_row (record task { payload = "?" }) world).db
    ≡ record task { status = status_failed }
unfolding process_task
unreadable_fails = refl

completes :
    (process_pending store two_json one_row world).db ≡ record task { status = status_completed }
unfolding process_pending save_feature_if_newer save_round store lookup build_feature_key
completes = refl

abbrev done : OutboxTask
done = record task { status = status_completed }

task-HasPayload : HasPayload one_row-OutboxLaws task 1 "new"
unfolding one_row-OutboxLaws
task-HasPayload t at = ap (λ (x : OutboxTask). x.payload) (sym (some-injective _ _ at))

task-HasRetries : HasRetries one_row-OutboxLaws task
unfolding one_row-OutboxLaws
task-HasRetries id t at pending = ground arith

process_pending_retries_example :
    HasRetries one_row-OutboxLaws (process_pending store two_json one_row world).db
process_pending_retries_example =
    process_pending_retries store two_json one_row-OutboxLaws world task-HasRetries
