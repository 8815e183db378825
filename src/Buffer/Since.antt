-- ===== src/Buffer/Since.antt =====
-- internal/buffer/revision_buffer.go, `GetSince`: its binary search beside a scan of the messages.
use mizuflow.Base.{
  ℕ, ◌+◌, ◌-◌, ◌%◌, ◌≤◌, ◌<◌, ◌≡◌, refl, sym, ap, ◌∙◌, Bool, true, false, Bool-cases, inl, inr,
  List, [], ◌∷◌, arith, length, get_or, drop, select, select-eq-drop, drop_all, ◌==◌, if◌then◌else◌,
}
use native.Mathlib.Nat.{mod-eq_of_lt}
use mizuflow.Base.Int.{ℤ, ltb_ℤ, ◌≤ℤ◌}
use mizuflow.Api.{Message, zero_message}
use mizuflow.Buffer.{RevisionBuffer, count, start, logical, collect, get_since}
use mizuflow.Buffer.Search.{IsFirst, search, search-IsFirst}
use mizuflow.Buffer.Window.{IsValid, contents, length-contents, logical-eq-get_or, collect-eq-drop}

-- Revisions never fall along the list: equal ones are the events of one transaction.
abbrev pub IsOrdered : List Message → Type 0
IsOrdered ms =
    (i j : ℕ)
    → i ≤ j
    → j < length ms
    → (get_or ms i zero_message).revision ≤ℤ (get_or ms j zero_message).revision

abbrev pub newer : ℤ → Message → Bool
newer r m = ltb_ℤ r m.revision

-- What a client that has seen everything up to `last_rev` is owed by a list of messages: all newer ones,
-- or a resync if messages between may be gone.
abbrev pub owed : ℤ → List Message → List Message × Bool
owed last_rev [] = ([], true)
owed last_rev (m ∷ ms) =
    if newer last_rev m then ([], false) else (select (newer last_rev) (m ∷ ms), true)

pub owed_of_pos :
    (last_rev : ℤ) (ms : List Message)
    → 0 < length ms
    → owed last_rev ms ≡ (
        if newer last_rev (get_or ms 0 zero_message)
        then ([], false)
        else (select (newer last_rev) ms, true))
owed_of_pos last_rev [] h = absurd (omega arith)
owed_of_pos last_rev (m ∷ ms) h = refl

length-eq-zero : (ms : List Message) → length ms ≡ 0 → ms ≡ []
length-eq-zero [] h = refl
length-eq-zero (m ∷ ms) h = absurd (omega arith)

module _ {b : RevisionBuffer} (v : IsValid b) (ordered : IsOrdered (contents b))
    (last_rev : ℤ) where
  test : ℕ → Bool
  test i = ltb_ℤ last_rev (logical b i).revision

  test-eq-newer :
      (i : ℕ) → i < count b → test i ≡ newer last_rev (get_or (contents b) i zero_message)
  unfolding test
  test-eq-newer i h = ap (newer last_rev) (logical-eq-get_or v i h)

  newer_mono :
      (m n : Message) → m.revision ≤ℤ n.revision → newer last_rev m ≡ true → newer last_rev n ≡ true
  newer_mono m n le e = ground arith

  test_mono : (i j : ℕ) → i ≤ j → j < count b → test i ≡ true → test j ≡ true
  test_mono i j le lt e =
      test-eq-newer j lt
      ∙ newer_mono (get_or (contents b) i zero_message) (get_or (contents b) j zero_message)
          (ordered i j le (omega (arith, length-contents v)))
          (sym (test-eq-newer i (omega arith)) ∙ e)

  idx : ℕ
  idx = search (count b) test

  idx-IsFirst : IsFirst test (count b) idx
  unfolding idx
  idx-IsFirst = search-IsFirst test (count b) test_mono

  select-contents : select (newer last_rev) (contents b) ≡ drop idx (contents b)
  select-contents =
      select-eq-drop (newer last_rev) (contents b) idx zero_message
        (λ i h. sym (test-eq-newer i (omega (arith, idx-IsFirst.bound))) ∙ idx-IsFirst.below i h)
        (λ i h k.
          sym (test-eq-newer i (omega (arith, length-contents v)))
          ∙ idx-IsFirst.above i h (omega (arith, length-contents v)))
        (omega (arith, length-contents v, idx-IsFirst.bound))

  found :
      ◌≡◌ {A = List Message × Bool}
        (if idx == count b then ([], true) else (collect b idx (count b - idx), true))
        (drop idx (contents b), true)
  found = elim (Bool-cases (idx == count b)) [
    | inl e ↦ rw e (
        ap (λ ms. (ms, true)) (sym (drop_all idx (contents b) (ground (arith, length-contents v)))))
    | inr e ↦ rw e (
        ap (λ ms. (ms, true))
          (collect-eq-drop v idx (count b - idx) (omega (arith, idx-IsFirst.bound))))
  ]

  first :
      0 < count b → get_or b.messages (start b) zero_message ≡ get_or (contents b) 0 zero_message
  first h = ap (λ k. get_or b.messages k zero_message) (sym in_range) ∙ logical-eq-get_or v 0 h
    where
      in_range : (start b + 0) % b.size ≡ start b
      in_range =
          mod-eq_of_lt {n = start b + 0} {m = b.size} (ground (arith, v.head_in)) ∙ omega arith

  pub get_since-eq-owed : get_since b last_rev ≡ owed last_rev (contents b)
  unfolding get_since idx test
  get_since-eq-owed = elim (Bool-cases (count b == 0)) [
    | inl e ↦ rw (e, length-eq-zero (contents b) (ground (arith, length-contents v)))
    | inr e ↦ rw (
      e,
      owed_of_pos last_rev (contents b) (ground (arith, length-contents v)),
      first (ground arith),
      select-contents,
      ← found,
    )
  ]
