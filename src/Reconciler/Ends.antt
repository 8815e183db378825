-- ===== src/Reconciler/Ends.antt =====
-- internal/service/reconciler.go, `reconcile`: the loop over the pages.
use mizuflow.Base.{
  ℕ, zero, suc, ◌+◌, ◌-◌, ◌<◌, ◌≡◌, some, inl, inr, Option-cases, arith, List, [], ◌∷◌,
}
use mizuflow.Json.{Json}
use mizuflow.Etcd.{EtcdClient}
use mizuflow.Db.{FeatureMaster, FeatureInterface}
use mizuflow.Outbox.{World}
use mizuflow.Reconciler.{check_all, reconcile_from}

-- What the loop relies on of the pages: `rows` is the size of the table, which the reconciler's own reads do
-- not change, and a page that begins past the last row is empty.
pub record PageLaws {D : Type 0} (features : FeatureInterface D) : Type 0 where
  pub rows : D → ℕ
  pub page_keeps :
      (offset limit : ℕ) (d : D) → rows (features.list_by_page offset limit d).1 ≡ rows d
  pub page_past_end :
      (offset limit : ℕ) (d : D) (m : FeatureMaster) (ms : List FeatureMaster)
      → (features.list_by_page offset limit d).0 ≡ some (m ∷ ms)
      → offset < rows d

module _ {E D : Type 0} (client : EtcdClient E) (json : Json) {features : FeatureInterface D}
    (laws : PageLaws features) where
  open laws use {rows, page_keeps, page_past_end}

  -- With pages of one row or more the loop ends: as many rounds as there are rows left, and one, are enough.
  pub reconcile_ends :
      (fuel batch_size offset : ℕ) (w : World E D)
      → 0 < batch_size
      → rows w.db - offset < fuel
      → (w' : World E D) × (reconcile_from client json features fuel batch_size offset w ≡ some w')
  unfolding reconcile_from
  reconcile_ends zero batch_size offset w pos enough = absurd (omega arith)
  reconcile_ends (suc fuel) batch_size offset w pos enough =
      elim (Option-cases (features.list_by_page offset batch_size w.db).0) [
        | inl failed ↦ (
          record { etcd = w.etcd; db = (features.list_by_page offset batch_size w.db).1 },
          rw (failed, reconcile_from),
        )
        | inr ([], back) ↦ (
          record { etcd = w.etcd; db = (features.list_by_page offset batch_size w.db).1 },
          rw (back, reconcile_from),
        )
        | inr (m ∷ ms, back) ↦
            let next : World E D = record {
              etcd = check_all client json features (m ∷ ms) w.etcd;
              db = (features.list_by_page offset batch_size w.db).1;
            } in
            let (w', e) = reconcile_ends fuel batch_size (offset + batch_size) next pos (
              omega (
                arith,
                page_keeps offset batch_size w.db,
                page_past_end offset batch_size w.db m ms back,
              )) in
            (w', rw (back, reconcile_from) e)
      ]
