-- ===== src/Buffer/History.antt =====
-- What a client gets from a ring that has received a whole history of messages.
use mizuflow.Base.{
  ℕ, ◌+◌, ◌-◌, ◌≤◌, ◌<◌, ◌≡◌, refl, sym, ap, ◌∙◌, Bool, true, false, Bool-cases, inl, inr, List, [],
  ◌∷◌, ◌++◌, arith, length, get_or, drop, select, select-drop, if◌then◌else◌, length-append,
  drop-append, append_assoc, length-drop, drop-drop, get_or-drop, append-nil,
}
use mizuflow.Base.Int.{ℤ, ◌≤ℤ◌}
use mizuflow.Api.{Message, zero_message}
use mizuflow.Buffer.{RevisionBuffer, size_or_default, new_revision_buffer, add_message, get_since}
use mizuflow.Buffer.Window.{
  IsValid, contents, last, contents-add_message, add_message-IsValid, new_IsValid, length-contents,
  size-add_message, size_or_default_pos,
}
use mizuflow.Buffer.Since.{IsOrdered, newer, owed, owed_of_pos, get_since-eq-owed}

-- The calls of `AddMessage` in order.
abbrev pub add_all : RevisionBuffer → List Message → RevisionBuffer
add_all b [] = b
add_all b (m ∷ ms) = add_all (add_message b m) ms

pub add_all-IsValid : {b : RevisionBuffer} (ms : List Message) → IsValid b → IsValid (add_all b ms)
add_all-IsValid [] v = v
add_all-IsValid {b} (m ∷ ms) v = add_all-IsValid {b = add_message b m} ms (add_message-IsValid m v)

last-last-append : (n : ℕ) (xs ys : List Message) → last n (last n xs ++ ys) ≡ last n (xs ++ ys)
last-last-append n xs ys =
    let k : ℕ = length xs - n in
    let joined : drop k xs ++ ys ≡ drop k (xs ++ ys) = sym (drop-append k xs ys (omega arith)) in
    rw joined (
      drop-drop (length (drop k (xs ++ ys)) - n) k (xs ++ ys)
      ∙ ap (λ i. drop i (xs ++ ys)) {y = length (xs ++ ys) - n}
          (omega (arith, length-drop k (xs ++ ys), length-append xs ys)))

last_all : (n : ℕ) (xs : List Message) → length xs ≤ n → last n xs ≡ xs
last_all n xs h = ap (λ i. drop i xs) {y = 0} (omega arith)

contents-le-size : {b : RevisionBuffer} → IsValid b → length (contents b) ≤ b.size
contents-le-size {b} v = ground (arith, length-contents v, v.head_in)

pub contents-add_all :
    {b : RevisionBuffer} (ms : List Message)
    → IsValid b
    → contents (add_all b ms) ≡ last b.size (contents b ++ ms)
contents-add_all {b} [] v = sym (rw append-nil (last_all b.size (contents b) (contents-le-size v)))
contents-add_all {b} (m ∷ ms) v =
    contents-add_all {b = add_message b m} ms (add_message-IsValid m v)
    ∙ rw (size-add_message b m, contents-add_message m v)
        (last-last-append b.size (contents b ++ m ∷ []) ms
          ∙ ap (last b.size) (append_assoc (contents b) (m ∷ []) ms))

contents-empty : (n : ℤ) → contents (new_revision_buffer n) ≡ []
unfolding new_revision_buffer
contents-empty n = refl

size-new : (n : ℤ) → (new_revision_buffer n).size ≡ size_or_default n
unfolding new_revision_buffer
size-new n = refl

-- A fresh ring holds the latest messages of what it was given.
pub contents-new :
    (n : ℤ) (ms : List Message)
    → contents (add_all (new_revision_buffer n) ms) ≡ last (size_or_default n) ms
contents-new n ms = contents-add_all ms (new_IsValid n) ∙ rw (contents-empty n, size-new n)

IsOrdered-drop : (k : ℕ) (ms : List Message) → IsOrdered ms → IsOrdered (drop k ms)
IsOrdered-drop k ms h i j le lt =
    rw (get_or-drop k i ms zero_message, get_or-drop k j ms zero_message)
      (h (k + i) (k + j) (omega arith) (omega (arith, length-drop k ms)))

-- After any ordered history, `GetSince` of a ring that was created with `n` answers from the latest
-- messages alone, the ring's size of them: it asks for a resync exactly where the oldest of these is newer
-- than `last_rev`, and otherwise gives every one of these that is newer, in order.
pub get_since-history :
    (n : ℤ) (ms : List Message) (last_rev : ℤ)
    → IsOrdered ms
    → get_since (add_all (new_revision_buffer n) ms) last_rev
      ≡ owed last_rev (last (size_or_default n) ms)
get_since-history n ms last_rev ordered =
    get_since-eq-owed (add_all-IsValid ms (new_IsValid n))
      (rw (contents-new n ms) (IsOrdered-drop (length ms - size_or_default n) ms ordered)) last_rev
    ∙ ap (owed last_rev) (contents-new n ms)

older_not_newer :
    (r : ℤ) (m x : Message) → m.revision ≤ℤ x.revision → newer r x ≡ false → newer r m ≡ false
older_not_newer r m x le e = ground arith

owed_complete :
    (k : ℕ) (ms : List Message) (last_rev : ℤ) {out : List Message}
    → k < length ms
    → IsOrdered ms
    → owed last_rev (drop k ms) ≡ (out, true)
    → out ≡ select (newer last_rev) ms
owed_complete k ms last_rev {out} lt ordered e = elim (Bool-cases (newer last_rev oldest)) [
  | inl t ↦ absurd (resync (rw t at scanned))
  | inr t ↦
      ap (λ (r : List Message × Bool). r.0) (sym (rw t at scanned))
      ∙ select-drop (newer last_rev) ms k zero_message (λ i h. not_newer i h t) (omega arith)
]
  where
    oldest : Message
    oldest = get_or (drop k ms) 0 zero_message

    scanned :
        ◌≡◌ {A = List Message × Bool}
          (if newer last_rev oldest
            then ([], false)
            else (select (newer last_rev) (drop k ms), true))
          (out, true)
    scanned = sym (owed_of_pos last_rev (drop k ms) (omega (arith, length-drop k ms))) ∙ e

    resync : ◌≡◌ {A = List Message × Bool} ([], false) (out, true) → ⊥
    resync p = cc

    not_newer :
        (i : ℕ)
        → i < k
        → newer last_rev oldest ≡ false
        → newer last_rev (get_or ms i zero_message) ≡ false
    not_newer i h t =
        older_not_newer last_rev (get_or ms i zero_message) oldest
          (rw (get_or-drop k 0 ms zero_message) (ordered i (k + 0) (omega arith) (omega arith))) t

-- Whatever the ring has forgotten, a client that `GetSince` does not send to a resync gets every message
-- of the ordered history that is newer than `last_rev`, and no other.
pub get_since_complete :
    (n : ℤ) (ms : List Message) (last_rev : ℤ) {out : List Message}
    → IsOrdered ms
    → get_since (add_all (new_revision_buffer n) ms) last_rev ≡ (out, true)
    → out ≡ select (newer last_rev) ms
get_since_complete n [] last_rev ordered e =
    ap (λ (r : List Message × Bool). r.0)
      (sym e
        ∙ get_since-history n [] last_rev ordered
        ∙ ap (owed last_rev) (last_all (size_or_default n) [] (omega arith)))
get_since_complete n (m ∷ ms) last_rev ordered e =
    owed_complete (length (m ∷ ms) - size_or_default n) (m ∷ ms) last_rev
      (omega (arith, size_or_default_pos n)) ordered
      (sym (get_since-history n (m ∷ ms) last_rev ordered) ∙ e)
