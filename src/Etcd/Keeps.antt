-- ===== src/Etcd/Keeps.antt =====
-- internal/repository/etcd.go, `SaveFeatureIfNewer`: the versions of the flags that are stored.
use mizuflow.Base.{
  ℕ, zero, suc, String, ◌≡◌, ◌≢◌, sym, ap, ◌∙◌, Option, none, some, inl, inr, ◌⊎◌, Bool-cases,
  Option-cases, arith, str_eq, eq_iff,
}
use mathlib.Core.Path.{subst}
use mathlib.Core.Option.{some-injective, none-ne-some}
use mizuflow.Base.Int.{ℤ, ◌≤ℤ◌, leb_ℤ}
use mizuflow.Api.{FeatureFlag}
use mizuflow.Json.{Json, RoundTrips}
use mizuflow.Etcd.{
  KeyValue, Compare, absent, unmodified_since, EtcdClient, Round, returns, contended, put_if,
  update_if_newer, answer, save_round, save_loop, after_round, Result, save_feature_if_newer,
  max_retries,
}
use mizuflow.Etcd.Laws.{AtLeast, Holds, Applied, EtcdLaws}

key-cases : (j k : String) → (j ≡ k) ⊎ (j ≢ k)
key-cases j k = elim (Bool-cases (str_eq j k)) [
  | inl e ↦ inl ((eq_iff j k).0 e)
  | inr e ↦ inr (λ p. ground (arith, eq_iff j k))
]

module _ {E : Type 0} {client : EtcdClient E} {json : Json} (laws : EtcdLaws client json)
    (key : String) {new : FeatureFlag} (rt : RoundTrips json new) where
  open laws use {
    entry, before, before_keeps, before_revision, commit_succeeded, commit_refused, commit_failed,
    get_reads, get_keeps,
  }

  pub AtLeast-new :
      {e : E} {v : ℤ} (kv : KeyValue)
      → entry e key ≡ some kv
      → kv.value ≡ json.encode new
      → v ≤ℤ new.version
      → AtLeast json v (entry e key)
  AtLeast-new kv at val le = record {
    kv = kv;
    flag = new;
    entry = at;
    reads = ap json.decode val ∙ rt;
    version = le;
  }

  -- Where the condition held, the new flag is no older than what is replaced.
  abbrev Replaces : Compare → E → Type 0
  Replaces compare e =
      (v : ℤ) → Holds compare (entry e key) → AtLeast json v (entry e key) → v ≤ℤ new.version

  Applied-keeps :
      (compare : Compare) {e e' : E} (j : String) (v : ℤ)
      → Replaces compare e
      → Applied entry compare key (json.encode new) e e'
      → AtLeast json v (entry e j)
      → AtLeast json v (entry e' j)
  Applied-keeps compare {e} {e'} j v fits a h = elim (key-cases key j) [
    | inl p ↦
        subst (λ k. AtLeast json v (entry e' k)) p
          (AtLeast-new a.written.0 a.written.1 a.written.2
            (fits v a.held (subst (λ k. AtLeast json v (entry e k)) (sym p) h)))
    | inr p ↦ subst (AtLeast json v) (sym (a.others j p)) h
  ]

  put_if_keeps :
      (compare : Compare) (e : E) (j : String) (v : ℤ)
      → Replaces compare (before compare key (json.encode new) e)
      → AtLeast json v (entry e j)
      → AtLeast json v (entry (put_if client json compare key new e).1 j)
  unfolding put_if
  put_if_keeps compare e j v fits h =
      let mid : AtLeast json v (entry (before compare key (json.encode new) e) j) =
        before_keeps compare key (json.encode new) e j v h in
      elim (Option-cases (client.commit compare key (json.encode new) e).0) [
        | inl none_back ↦ elim (commit_failed compare key (json.encode new) e none_back) [
          | inl a ↦ Applied-keeps compare j v fits a mid
          | inr same ↦ subst (AtLeast json v) (sym (same j)) mid
        ]
        | inr (r, back) ↦ elim (Bool-cases r.succeeded) [
          | inl t ↦
              Applied-keeps compare j v fits
                (commit_succeeded compare key (json.encode new) e r back t) mid
          | inr t ↦
              subst (AtLeast json v)
                (sym (commit_refused compare key (json.encode new) e r back t j)) mid
        ]
      ]

  version_of :
      {o : Option KeyValue} {v : ℤ} (kv k : KeyValue) (current : FeatureFlag)
      → json.decode kv.value ≡ some current
      → o ≡ some k
      → k ≡ kv
      → (a : AtLeast json v o) → v ≤ℤ current.version
  version_of {v = v} kv k current read at same a =
      subst (λ (f : FeatureFlag). v ≤ℤ f.version) (flag_eq) a.version
    where
      kv_eq : a.kv ≡ kv
      kv_eq = some-injective _ _ (sym a.entry ∙ at) ∙ same

      flag_eq : a.flag ≡ current
      flag_eq =
          some-injective _ _ (sym a.reads ∙ ap (λ (x : KeyValue). json.decode x.value) kv_eq ∙ read)

  update_keeps :
      (kv : KeyValue) (e : E) (j : String) (v : ℤ)
      → entry e key ≡ some kv
      → AtLeast json v (entry e j)
      → AtLeast json v (entry (update_if_newer client json kv key new e).1 j)
  unfolding update_if_newer
  update_keeps kv e j v at h = elim (Option-cases (json.decode kv.value)) [
    | inl bad ↦ rw (bad, update_if_newer) h
    | inr (current, read) ↦ elim (Bool-cases (leb_ℤ new.version current.version)) [
      | inl old ↦ rw (read, update_if_newer) (rw old h)
      | inr newer ↦
          rw (read, update_if_newer)
            (rw newer (
              put_if_keeps (unmodified_since kv.mod_revision) e j v
                (λ w held a.
                  let (k, here, rev) = held in
                  let below : w ≤ℤ current.version =
                    version_of kv k current read here
                      (before_revision (unmodified_since kv.mod_revision) key (json.encode new) e kv
                        k at here rev)
                      a in
                  ground arith)
                h))
    ]
  ]

  none-AtLeast : {o : Option KeyValue} {v : ℤ} → o ≡ none → AtLeast json v o → ⊥
  none-AtLeast e a = none-ne-some a.kv (sym e ∙ a.entry)

  found_keeps :
      (e : E) (o : Option KeyValue) (j : String) (v : ℤ)
      → entry e key ≡ o
      → AtLeast json v (entry e j)
      → AtLeast json v (entry (answer client json key new o e).1 j)
  unfolding answer
  found_keeps e none j v at h =
      put_if_keeps absent e j v (λ w held a. absurd (none-AtLeast held a)) h
  found_keeps e (some kv) j v at h = update_keeps kv e j v at h

  round_keeps :
      (e : E) (j : String) (v : ℤ)
      → AtLeast json v (entry e j)
      → AtLeast json v (entry (save_round client json key new e).1 j)
  unfolding save_round
  round_keeps e j v h = elim (Option-cases (client.get key e).0) [
    | inl failed ↦ rw (failed, save_round) (get_keeps key e j v h)
    | inr (o, back) ↦
        rw (back, save_round)
          (found_keeps (client.get key e).1 o j v (get_reads key e o back) (get_keeps key e j v h))
  ]

  after_round_keeps :
      (again : E → Result ℤ × E) (r : Round × E) (j : String) (v : ℤ)
      → ((e : E) → AtLeast json v (entry e j) → AtLeast json v (entry (again e).1 j))
      → AtLeast json v (entry r.1 j)
      → AtLeast json v (entry (after_round again r).1 j)
  unfolding after_round
  after_round_keeps again (returns result, e) j v ih h = h
  after_round_keeps again (contended, e) j v ih h = ih e h

  loop_keeps :
      (n : ℕ) (e : E) (j : String) (v : ℤ)
      → AtLeast json v (entry e j)
      → AtLeast json v (entry (save_loop client json n key new e).1 j)
  unfolding save_loop
  loop_keeps zero e j v h = h
  loop_keeps (suc n) e j v h =
      after_round_keeps (save_loop client json n key new) (save_round client json key new e) j v
        (λ i a. loop_keeps n i j v a) (round_keeps e j v h)

  -- Where every client replaces a flag only by the same or a later version, `SaveFeatureIfNewer` of a flag that reads
  -- back keeps that too: whatever it returns, a key that held version `v` or a later one still does.
  pub save_feature_if_newer_keeps :
      (e : E) (j : String) (v : ℤ)
      → AtLeast json v (entry e j)
      → AtLeast json v (entry (save_feature_if_newer client json key new e).1 j)
  unfolding save_feature_if_newer
  save_feature_if_newer_keeps e = loop_keeps (suc max_retries) e
