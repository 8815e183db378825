-- ===== src/Reconciler/Repairs.antt =====
-- What a round of the reconciler repairs, over all pages of the table.
use mizuflow.Base.{ℕ, zero, suc, ◌+◌, ◌-◌, ◌<◌, ◌≡◌, some, List, ◌∷◌}
use mizuflow.Base.Int.{ℤ, pos, ◌<ℤ◌}
use mizuflow.Json.{Json}
use mizuflow.Etcd.{KeyValue, EtcdClient, ok, save_feature_if_newer}
use mizuflow.Etcd.Laws.{AtLeast, EtcdLaws}
use mizuflow.Db.{FeatureMaster, FeatureInterface}
use mizuflow.Outbox.{World}
use mizuflow.Reconciler.{master_flag, master_key, check_one, check_all, reconcile_from}
use mizuflow.Reconciler.Fixes.{check_one-fixes}
use mizuflow.Reconciler.Ends.{PageLaws, reconcile_ends}
use mizuflow.Reconciler.Keeps.{AllRoundTrip, PagesRoundTrip, check_all_keeps, reconcile_from_keeps}

module _ {E D : Type 0} (client : EtcdClient E) (json : Json) (features : FeatureInterface D)
    (m : FeatureMaster) where
  -- A row of a page comes up when etcd is in the last state.
  pub data ComesUp : List FeatureMaster → E → E → Type 0 where
    now : (ms : List FeatureMaster) (e : E) → ComesUp (m ∷ ms) e e
    after :
        (x : FeatureMaster) (ms : List FeatureMaster) (e e' : E)
        → ComesUp ms (check_one client json features x e) e'
        → ComesUp (x ∷ ms) e e'

  -- The row comes up on the page at an offset, or on a later one.
  pub data Visited (batch_size : ℕ) : ℕ → World E D → E → Type 0 where
    on_page :
        (offset : ℕ) (w : World E D) (x : FeatureMaster) (ms : List FeatureMaster) (e' : E)
        → (features.list_by_page offset batch_size w.db).0 ≡ some (x ∷ ms)
        → ComesUp (x ∷ ms) w.etcd e'
        → Visited batch_size offset w e'
    on_later :
        (offset : ℕ) (w : World E D) (x : FeatureMaster) (ms : List FeatureMaster) (e' : E)
        → (features.list_by_page offset batch_size w.db).0 ≡ some (x ∷ ms)
        → Visited batch_size
            (offset + batch_size)
            (record {
              etcd = check_all client json features (x ∷ ms) w.etcd;
              db = (features.list_by_page offset batch_size w.db).1;
            })
            e'
        → Visited batch_size offset w e'

module _ {E D : Type 0} {client : EtcdClient E} {json : Json} (laws : EtcdLaws client json)
    (features : FeatureInterface D) (m : FeatureMaster) where
  open laws use {entry}

  -- When its turn comes, the row's key is held, and the calls of its repair do not fail.
  pub record Repaired (e : E) : Type 0 where
    pub kv : KeyValue
    pub rev : ℤ
    pub here : (client.get (master_key m) e).0 ≡ some (some kv)
    pub saved :
        (save_feature_if_newer client json
          (master_key m)
          (master_flag m)
          (client.get (master_key m) e).1).0
        ≡ ok rev

  check_all_repairs :
      {ms : List FeatureMaster} {e e' : E}
      → ComesUp client json features m ms e e'
      → AllRoundTrip json ms
      → Repaired e'
      → pos 0 <ℤ m.version
      → AtLeast json m.version (entry (check_all client json features ms e) (master_key m))
  unfolding check_all
  check_all_repairs (now ms e) rt r positive =
      check_all_keeps laws features ms (check_one client json features m e) rt.1 (master_key m)
        m.version (check_one-fixes laws features m rt.0 e r.kv r.rev r.here positive r.saved)
  check_all_repairs (after x ms e e' c) rt r positive = check_all_repairs c rt.1 r positive

  ended_repairs :
      (fuel batch_size : ℕ) {offset : ℕ} {w : World E D} {e : E} (w' : World E D)
      → Visited client json features m batch_size offset w e
      → PagesRoundTrip json features
      → Repaired e
      → pos 0 <ℤ m.version
      → reconcile_from client json features fuel batch_size offset w ≡ some w'
      → AtLeast json m.version (entry w'.etcd (master_key m))
  unfolding reconcile_from
  ended_repairs zero batch_size w' v rt r positive ends = absurd (cc)
  ended_repairs (suc fuel) batch_size w' (on_page offset w x ms e back c) rt r positive ends =
      reconcile_from_keeps laws features fuel batch_size (offset + batch_size)
        (record {
          etcd = check_all client json features (x ∷ ms) w.etcd;
          db = (features.list_by_page offset batch_size w.db).1;
        })
        w' rt (rw (back, reconcile_from) at ends) (master_key m) m.version
        (check_all_repairs c (rt offset batch_size w.db (x ∷ ms) back) r positive)
  ended_repairs (suc fuel) batch_size w' (on_later offset w x ms e back v) rt r positive ends =
      ended_repairs fuel batch_size w' v rt r positive (rw (back, reconcile_from) at ends)

  -- A round of the reconciler with pages of one row or more, and more fuel than there are rows left, comes to its end,
  -- and each row with a positive version that came up on one of its pages, whose key etcd held then and whose repair
  -- met no error, is published: etcd holds its flag or a later version, where the flags of the rows on all pages read
  -- back.
  pub reconcile_repairs :
      (pages : PageLaws features) (fuel batch_size offset : ℕ) (w : World E D) (e : E)
      → 0 < batch_size
      → pages.rows w.db - offset < fuel
      → Visited client json features m batch_size offset w e
      → PagesRoundTrip json features
      → Repaired e
      → pos 0 <ℤ m.version
      → (w' : World E D) × (reconcile_from client json features fuel batch_size offset w ≡ some w')
        × AtLeast json m.version (entry w'.etcd (master_key m))
  reconcile_repairs pages fuel batch_size offset w e some_row enough v rt r positive =
      let (w', ends) = reconcile_ends client json pages fuel batch_size offset w some_row enough in
      (w', ends, ended_repairs fuel batch_size w' v rt r positive ends)
