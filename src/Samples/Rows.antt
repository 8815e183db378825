-- ===== src/Samples/Rows.antt =====
-- A database with one slot for an outbox task, which the tests of saves share.
use mizuflow.Base.{
  ℕ, ◌≡◌, refl, sym, ap, ◌∙◌, Option, none, some, true, false, ◌==◌, if◌then◌else◌, String,
}
use mathlib.Core.Option.{some-injective}
use mizuflow.Base.Int.{ℤ, pos}
use mizuflow.Db.{
  OutboxTask, FeatureMaster, FeatureAudit, OutboxInterface, FeatureInterface, AuditInterface,
}
use mizuflow.Features.{Gorm}
use mizuflow.Features.Validate.{Parsers}
use mizuflow.Features.Atomic.{TransactionLaws}

abbrev pub Slot : Type 0
Slot = Option OutboxTask

unfoldable pub end_of : Slot → Option (ℤ × ℕ) × Slot → Option (ℤ × ℕ) × Slot
end_of d (none, d') = (none, d)
end_of d (some r, d') = (some r, d')

abbrev pub gorm : Gorm Slot
gorm = record { transaction = λ f d. end_of d (f d) }

abbrev pub parsers : Parsers
parsers = record { parses_float = λ s. false; json_valid = λ s. false; decode_strategy = λ s. none }

abbrev pub outbox : OutboxInterface Slot
outbox = record {
  create = λ t d. (some 1, some (record t { id = 1 }));
  fetch_pending = λ limit d. (none, d);
  update_status = λ id status n d. (false, d);
}

abbrev pub master : FeatureMaster
master = record {
  id = 4;
  namespace = "shop";
  env = "prod";
  key = "dark";
  type_name = "bool";
  version = pos 1;
  current_val = "false";
  updated_at = pos 0;
  updated_by = "";
}

abbrev pub features : FeatureInterface Slot
features = record {
  get_by_key = λ namespace env key d. (some (some master), d);
  list_by_page = λ offset limit d. (none, d);
  save = λ m d. (true, d);
}

-- The record of a save that changed the old value to "false".
abbrev pub audit_with : String → FeatureAudit
audit_with old = record {
  id = 7;
  namespace = "shop";
  env = "prod";
  key = "dark";
  old_value = old;
  new_value = "false";
  type_name = "bool";
  operator = "ann";
  trace_id = "";
  ip = "";
  created_at = pos 0;
}

abbrev pub audits_with : String → AuditInterface Slot
audits_with old = record {
  create = λ a d. (true, d);
  find_by_id = λ id d. (some (audit_with old), d);
}

abbrev pub audits : AuditInterface Slot
audits = audits_with "true"

abbrev pub slot_row : Slot → ℕ → Option OutboxTask
slot_row d j = if j == 1 then d else none

pub end_commits :
    (d : Slot) (p : Option (ℤ × ℕ) × Slot) (r : ℤ × ℕ)
    → (end_of d p).0 ≡ some r
    → (p.0 ≡ some r) × ((end_of d p).1 ≡ p.1)
unfolding end_of
end_commits d (none, d') r h = absurd (cc)
end_commits d (some q, d') r h = (h, refl)

pub end_rolls_back :
    (d : Slot) (p : Option (ℤ × ℕ) × Slot) → (end_of d p).0 ≡ none → d ≡ (end_of d p).1
unfolding end_of
end_rolls_back d (none, d') h = refl
end_rolls_back d (some q, d') h = absurd (cc)

pub created :
    (t : OutboxTask) (id : ℕ)
    → some 1 ≡ some id
    → slot_row (some (record t { id = 1 })) id ≡ some (record t { id = id })
created t id h =
    let e : 1 ≡ id = some-injective _ _ h in
    ap (λ (i : ℕ). slot_row (some (record t { id = 1 })) i) (sym e)
    ∙ ap (λ (i : ℕ). some (record t { id = i })) e

unfoldable pub slot_laws : TransactionLaws gorm outbox
slot_laws = record {
  row = slot_row;
  Same = λ d d'. d ≡ d';
  same_refl = λ d. refl;
  creates = λ t d id h. created t id h;
  commits = λ f d r h. end_commits d (f d) r h;
  rolls_back = λ f d h. end_rolls_back d (f d) h;
}
