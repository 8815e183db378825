-- ===== src/Outbox/Laws.antt =====
-- What the worker relies on of the outbox table.
use mizuflow.Base.{ℕ, ◌≡◌, true, false, Option, none, some, List, [], ◌∷◌, ◌⊎◌, ◌==◌, if◌then◌else◌}
use mizuflow.Db.{OutboxTask, OutboxInterface, status_pending}

abbrev pub with_status : ℕ → ℕ → Option OutboxTask → Option OutboxTask
with_status status retry_count none = none
with_status status retry_count (some t) =
    some (record t { status = status; retry_count = retry_count })

abbrev pub All {ℓ} : {A : Type ℓ} → (A → Type 0) → List A → Type 0
All P [] = Unit
All P (x ∷ xs) = P x × All P xs

module _ {D : Type 0} (row : D → ℕ → Option OutboxTask) where
  -- One row has the new status and count of retries, and no other row changed.
  abbrev pub Updated : ℕ → ℕ → ℕ → D → D → Type 0
  Updated id status retry_count d d' =
      (j : ℕ) → row d' j ≡ (if j == id then with_status status retry_count (row d j) else row d j)

  abbrev pub Unchanged : D → D → Type 0
  Unchanged d d' = (j : ℕ) → row d' j ≡ row d j

-- `row` is the row of an id. An update that comes back with an error may have been carried out or not.
pub record OutboxLaws {D : Type 0} (outbox : OutboxInterface D) : Type 0 where
  pub row : D → ℕ → Option OutboxTask
  pub updates :
      (id status retry_count : ℕ) (d : D)
      → (outbox.update_status id status retry_count d).0 ≡ true
      → Updated row id status retry_count d (outbox.update_status id status retry_count d).1
  pub update_fails :
      (id status retry_count : ℕ) (d : D)
      → (outbox.update_status id status retry_count d).0 ≡ false
      → Updated row id status retry_count d (outbox.update_status id status retry_count d).1
        ⊎ Unchanged row d (outbox.update_status id status retry_count d).1
  -- A fetch gives rows of the table that are pending, and changes none.
  pub fetch_changes_nothing : (limit : ℕ) (d : D) → Unchanged row d (outbox.fetch_pending limit d).1
  pub fetches_rows :
      (limit : ℕ) (d : D) (tasks : List OutboxTask)
      → (outbox.fetch_pending limit d).0 ≡ some tasks
      → All (λ t. (row d t.id ≡ some t) × (t.status ≡ status_pending)) tasks
