-- ===== src/Etcd/Publishes.antt =====
-- internal/repository/etcd.go, `SaveFeatureIfNewer`: what a returned revision tells of etcd.
use mizuflow.Base.{
  ℕ, zero, suc, String, ◌≡◌, ◌≢◌, ◌∙◌, false, sym, ap, Option, none, some, inl, inr, Bool-cases,
  Option-cases, arith,
}
use mizuflow.Base.Int.{ℤ, leb_ℤ}
use mizuflow.Api.{FeatureFlag}
use mizuflow.Json.{Json, RoundTrips}
use mizuflow.Etcd.{
  KeyValue, TxnResponse, Compare, absent, unmodified_since, EtcdClient, Round, returns, contended,
  Result, ok, put_if, update_if_newer, answer, save_round, save_loop, after_round,
  save_feature_if_newer, after_commit, max_retries,
}
use mizuflow.Etcd.Laws.{AtLeast, EtcdLaws}
use mizuflow.Etcd.Keeps.{AtLeast-new}

module _ {E : Type 0} {client : EtcdClient E} {json : Json} (laws : EtcdLaws client json)
    (key : String) {new : FeatureFlag} (rt : RoundTrips json new) (rev : ℤ) where
  open laws use {entry, commit_succeeded, get_reads}

  -- What is shown of a round that returns a revision.
  abbrev Publishes : Round × E → Type 0
  Publishes r = r.0 ≡ returns (ok rev) → AtLeast json new.version (entry r.1 key)

  refused : (r : TxnResponse) → r.succeeded ≡ false → after_commit (some r) ≢ returns (ok rev)
  unfolding after_commit
  refused r t h = ground arith

  put_if-Publishes : (compare : Compare) (e : E) → Publishes (put_if client json compare key new e)
  unfolding put_if
  put_if-Publishes compare e =
      elim (Option-cases (client.commit compare key (json.encode new) e).0) [
        | inl failed ↦ rw (failed, put_if, after_commit) (λ h. absurd (cc))
        | inr (r, back) ↦ elim (Bool-cases r.succeeded) [
          | inl t ↦ λ h.
              let a = commit_succeeded compare key (json.encode new) e r back t in
              AtLeast-new laws key rt a.written.0 a.written.1 a.written.2 (omega arith)
          | inr t ↦ λ h. absurd (refused r t (ap after_commit (sym back) ∙ h))
        ]
      ]

  update-Publishes :
      (kv : KeyValue) (e : E)
      → entry e key ≡ some kv
      → Publishes (update_if_newer client json kv key new e)
  unfolding update_if_newer
  update-Publishes kv e at = elim (Option-cases (json.decode kv.value)) [
    | inl bad ↦ rw (bad, update_if_newer) (λ h. absurd (cc))
    | inr (current, read) ↦ elim (Bool-cases (leb_ℤ new.version current.version)) [
      | inl old ↦ λ h.
          rw (read, update_if_newer)
            (rw old (record {
              kv = kv;
              flag = current;
              entry = at;
              reads = read;
              version = ground arith;
            }))
      | inr newer ↦
          rw (read, update_if_newer)
            (rw newer (put_if-Publishes (unmodified_since kv.mod_revision) e))
    ]
  ]

  answer-Publishes :
      (o : Option KeyValue) (e : E) → entry e key ≡ o → Publishes (answer client json key new o e)
  unfolding answer
  answer-Publishes none e at = put_if-Publishes absent e
  answer-Publishes (some kv) e at = update-Publishes kv e at

  round-Publishes : (e : E) → Publishes (save_round client json key new e)
  unfolding save_round
  round-Publishes e = elim (Option-cases (client.get key e).0) [
    | inl failed ↦ rw (failed, save_round) (λ h. absurd (cc))
    | inr (o, back) ↦
        rw (back, save_round) (answer-Publishes o (client.get key e).1 (get_reads key e o back))
  ]

  after_round-Publishes :
      (again : E → Result ℤ × E) (r : Round × E)
      → ((e : E) → (again e).0 ≡ ok rev → AtLeast json new.version (entry (again e).1 key))
      → Publishes r
      → (after_round again r).0 ≡ ok rev
      → AtLeast json new.version (entry (after_round again r).1 key)
  unfolding after_round
  after_round-Publishes again (returns result, e) ih p h = p (ap returns h)
  after_round-Publishes again (contended, e) ih p h = ih e h

  loop_publishes :
      (n : ℕ) (e : E)
      → (save_loop client json n key new e).0 ≡ ok rev
      → AtLeast json new.version (entry (save_loop client json n key new e).1 key)
  unfolding save_loop
  loop_publishes zero e h = absurd (cc)
  loop_publishes (suc n) e h =
      after_round-Publishes (save_loop client json n key new) (save_round client json key new e)
        (λ i a. loop_publishes n i a) (round-Publishes e) h

  -- Where `SaveFeatureIfNewer` of a flag that reads back returns a revision, etcd then holds the flag's version or a
  -- later one at the key, however often other clients wrote in between.
  pub save_feature_if_newer_publishes :
      (e : E)
      → (save_feature_if_newer client json key new e).0 ≡ ok rev
      → AtLeast json new.version (entry (save_feature_if_newer client json key new e).1 key)
  unfolding save_feature_if_newer
  save_feature_if_newer_publishes e = loop_publishes (suc max_retries) e
