-- ===== src/Features/Tests.antt =====
-- Saves and rollbacks on a database with one slot for an outbox task.
use mizuflow.Base.{◌≡◌, refl, none, some}
use mizuflow.Base.Int.{pos, inc_ℤ}
use mizuflow.Db.{FeatureAudit}
use mizuflow.Features.{
  saved, save_feature, rollback_feature, forwarded, save_transaction, outcome_of, write_all,
  restore, roll_back_to,
}
use mizuflow.Features.Validate.{validate_payload}
use mizuflow.Features.Atomic.{Committed, save_feature-saved}
use mizuflow.Features.Restores.{rollback_feature-restores}
use mizuflow.Samples.Rows.{end_of, gorm, parsers, outbox, features, audits, slot_laws}
use mizuflow.Samples.{two_json, new_flag}

saves :
    (save_feature two_json parsers gorm features audits outbox new_flag "ann" "" none).0
    ≡ saved (pos 2) 1 new_flag
unfolding save_feature save_transaction write_all validate_payload outcome_of end_of inc_ℤ
saves = refl

save_feature-saved_example :
    (new_flag ≡ record new_flag { version = pos 2 })
    × Committed two_json parsers features audits slot_laws new_flag "ann" ""
        (pos 2)
        1
        none
        (save_feature two_json parsers gorm features audits outbox new_flag "ann" "" none).1
save_feature-saved_example =
    save_feature-saved two_json parsers features audits slot_laws new_flag "ann" "" (pos 2) 1
      new_flag none saves

rolls_back :
    (rollback_feature two_json parsers gorm features audits outbox "shop" "prod" "dark" "ann" "" 7
      none).0
    ≡ forwarded (saved (pos 2) 1 new_flag)
unfolding rollback_feature roll_back_to restore save_feature save_transaction write_all
    validate_payload outcome_of end_of inc_ℤ
rolls_back = refl

rollback_feature-restores_example :
    (audit : FeatureAudit) × ((audits.find_by_id 7 none).0 ≡ some audit)
    × (audit.namespace ≡ "shop")
    × (audit.env ≡ "prod")
    × (audit.key ≡ "dark")
    × (new_flag.value ≡ audit.old_value)
    × (new_flag.type_name ≡ audit.type_name)
rollback_feature-restores_example =
    rollback_feature-restores two_json parsers gorm features audits outbox "shop" "prod" "dark"
      "ann" "" 7 new_flag (pos 2) 1 none rolls_back
