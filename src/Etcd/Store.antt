-- ===== src/Etcd/Store.antt =====
-- An etcd that no other client writes to, and whose calls do not fail, as a client of the repository.
use mizuflow.Base.{
  ℕ, ◌+◌, String, ◌≡◌, refl, sym, ◌∙◌, ap, Option, none, some, Bool, true, false, inl, inr, ◌&&◌,
  Bool-cases, arith, eq_iff, eq_refl, if◌then◌else◌,
}
use mathlib.Core.Option.{some-injective}
use mizuflow.Base.Int.{ℤ, pos, negsuc, leb_ℤ}
use mizuflow.Base.Dict.{Dict, lookup, insert, lookup-insert}
use mizuflow.Json.{Json}
use mizuflow.Etcd.Client.{KeyValue, Compare, absent, unmodified_since, TxnResponse, EtcdClient}
use mizuflow.Etcd.Laws.{Holds, Applied, Same, EtcdLaws}

-- The entries, and the revision that the next write gets.
pub record EtcdStore : Type 0 where
  pub entries : Dict KeyValue
  pub next : ℕ

abbrev same_ℤ : ℤ → ℤ → Bool
same_ℤ a b = leb_ℤ a b && leb_ℤ b a

unfoldable test : Compare → Option KeyValue → Bool
test absent none = true
test absent (some kv) = false
test (unmodified_since r) none = false
test (unmodified_since r) (some kv) = same_ℤ kv.mod_revision r

abbrev write : String → String → EtcdStore → EtcdStore
write key value e = record {
  entries = insert key (record { key = key; value = value; mod_revision = pos e.next }) e.entries;
  next = e.next + 1;
}

unfoldable pub store_commit : Compare → String → String → EtcdStore → Option TxnResponse × EtcdStore
unfolding test
store_commit compare key value e =
    if test compare (lookup key e.entries)
    then (some (record { succeeded = true; revision = pos e.next }), write key value e)
    else (some (record { succeeded = false; revision = pos e.next }), e)

unfoldable pub store : EtcdClient EtcdStore
unfolding store_commit
store = record { get = λ key e. (some (lookup key e.entries), e); commit = store_commit }

same_ℤ_lem : (a b : ℤ) → same_ℤ a b ≡ true → a ≡ b
same_ℤ_lem (pos a) (pos b) h = ap pos (ground arith)
same_ℤ_lem (pos a) (negsuc b) h = absurd (ground arith)
same_ℤ_lem (negsuc a) (pos b) h = absurd (ground arith)
same_ℤ_lem (negsuc a) (negsuc b) h = ap negsuc (ground arith)

test_lem : (compare : Compare) (o : Option KeyValue) → test compare o ≡ true → Holds compare o
unfolding test
test_lem absent none h = refl
test_lem absent (some kv) h = absurd (cc)
test_lem (unmodified_since r) none h = absurd (cc)
test_lem (unmodified_since r) (some kv) h = (kv, refl, same_ℤ_lem kv.mod_revision r h)

abbrev entry_at : EtcdStore → String → Option KeyValue
entry_at e key = lookup key e.entries

write-Applied :
    (compare : Compare) (key value : String) (e : EtcdStore)
    → test compare (lookup key e.entries) ≡ true
    → Applied entry_at compare key value e (write key value e)
write-Applied compare key value e t = record {
  held = test_lem compare (lookup key e.entries) t;
  written = (kv, lookup-insert key key kv e.entries ∙ rw (eq_refl key), refl);
  others = λ j ne. lookup-insert key j kv e.entries ∙ ground (arith, eq_iff key j);
}
  where
    kv : KeyValue
    kv = record { key = key; value = value; mod_revision = pos e.next }

pub commit_lem :
    (compare : Compare) (key value : String) (e : EtcdStore) (r : TxnResponse)
    → (store_commit compare key value e).0 ≡ some r
    → (r.succeeded ≡ true
        → Applied entry_at compare key value e (store_commit compare key value e).1)
      × (r.succeeded ≡ false → Same entry_at e (store_commit compare key value e).1)
unfolding store_commit
commit_lem compare key value e r h = elim (Bool-cases (test compare (lookup key e.entries))) [
  | inl t ↦
      (λ s. rw t (write-Applied compare key value e t), λ s. absurd (differs true (rw t at h) s))
  | inr t ↦ (λ s. absurd (differs false (rw t at h) s), λ s. rw t (λ j. refl))
]
  where
    differs :
        (b : Bool)
        → some (record { succeeded = b; revision = pos e.next }) ≡ some r
        → r.succeeded ≡ (if b then false else true)
        → ⊥
    differs b p s =
        let q : b ≡ r.succeeded = ap (λ (x : TxnResponse). x.succeeded) (some-injective _ _ p) in
        elim (Bool-cases b) [ inl t ↦ ground arith | inr t ↦ ground arith ]

pub commit_answers :
    (compare : Compare) (key value : String) (e : EtcdStore)
    → (store_commit compare key value e).0 ≡ none
    → ⊥
unfolding store_commit
commit_answers compare key value e h = ground arith

unfoldable pub store_laws : (json : Json) → EtcdLaws store json
unfolding store
store_laws json = record {
  entry = entry_at;
  before = λ compare key value e. e;
  get_reads = λ key e o h. some-injective _ _ h;
  get_keeps = λ key e j v h. h;
  before_keeps = λ compare key value e j v h. h;
  before_revision = λ compare key value e kv kv' a b same. some-injective _ _ (sym b ∙ a);
  commit_succeeded = λ compare key value e r back t. (commit_lem compare key value e r back).0 t;
  commit_refused = λ compare key value e r back t. (commit_lem compare key value e r back).1 t;
  commit_failed = λ compare key value e h. absurd (commit_answers compare key value e h);
}
