-- ===== src/Outbox/Marks.antt =====
-- What one `UpdateStatus` does to the rows.
use mizuflow.Base.{
  ℕ, String, ◌≡◌, refl, sym, ◌∙◌, Option, none, some, inl, inr, ◌⊎◌, Bool-cases, arith, ◌==◌,
}
use mizuflow.Db.{OutboxTask, OutboxInterface}
use mizuflow.Outbox.{World, mark}
use mizuflow.Outbox.Laws.{OutboxLaws, Updated, Unchanged, with_status}

with_status_inv :
    (status n : ℕ) (o : Option OutboxTask) {t : OutboxTask}
    → with_status status n o ≡ some t
    → (old : OutboxTask) × (o ≡ some old)
      × (t.payload ≡ old.payload)
      × (t.status ≡ status)
      × (t.retry_count ≡ n)
with_status_inv status n none h = cc
with_status_inv status n (some old) h = (old, refl, ground arith, ground arith, ground arith)

module _ {D : Type 0} {outbox : OutboxInterface D} (outbox_laws : OutboxLaws outbox) where
  open outbox_laws use {row}

  -- The row, where it exists, has the payload.
  abbrev pub HasPayload : D → ℕ → String → Type 0
  HasPayload d id payload = (t : OutboxTask) → row d id ≡ some t → t.payload ≡ payload

module _ {E D : Type 0} {outbox : OutboxInterface D} (outbox_laws : OutboxLaws outbox) where
  open outbox_laws use {row, updates, update_fails}

  marked :
      (id status n : ℕ) (w : World E D)
      → Updated row id status n w.db (mark outbox id status n w).db
        ⊎ Unchanged row w.db (mark outbox id status n w).db
  unfolding mark
  marked id status n w = elim (Bool-cases (outbox.update_status id status n w.db).0) [
    | inl t ↦ inl (updates id status n w.db t)
    | inr f ↦ update_fails id status n w.db f
  ]

  -- A marked row stems from the row before.
  pub marked_row :
      (id status n : ℕ) (w : World E D) (j : ℕ) {t : OutboxTask}
      → row (mark outbox id status n w).db j ≡ some t
      → (old : OutboxTask) × (row w.db j ≡ some old)
        × (t.payload ≡ old.payload)
        × ((j ≡ id) × (t.status ≡ status) × (t.retry_count ≡ n) ⊎ (t ≡ old))
  marked_row id status n w j {t} h = elim (marked id status n w) [
    | inr same ↦ (t, sym (same j) ∙ h, refl, inr refl)
    | inl up ↦ elim (Bool-cases (j == id)) [
      | inl e ↦
          let (old, o, p, s, r) =
            with_status_inv status n (row w.db j) (sym (rw e at (up j)) ∙ h) in
          (old, o, p, inl (ground arith, s, r))
      | inr e ↦ (t, sym (rw e at (up j)) ∙ h, refl, inr refl)
    ]
  ]

  pub mark_payload :
      (id status n : ℕ) (w : World E D) (j : ℕ) (p : String)
      → HasPayload outbox_laws w.db j p
      → HasPayload outbox_laws (mark outbox id status n w).db j p
  mark_payload id status n w j p h t at =
      let (old, o, same, _) = marked_row id status n w j at in same ∙ h old o
