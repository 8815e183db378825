-- ===== src/Buffer/Window.antt =====
-- The invariant of the ring, and the messages that it holds, oldest first.
use mizuflow.Base.{
  ℕ, zero, suc, ◌+◌, ◌-◌, ◌%◌, ◌<◌, ◌≡◌, refl, sym, ap, ap₂, ◌∙◌, true, false, Bool-cases, inl, inr,
  ◌⊎◌, List, [], ◌∷◌, ◌++◌, arith, length, get_or, set, take, drop, if◌then◌else◌, ◌==◌, length-set,
  length-drop, length-take, length-append, length-replicate, take-set, drop-set, drop-eq-cons,
  get_or-append_left, get_or-append_right, get_or-drop, get_or-take, append-nil, append_assoc,
  drop_all,
}
use native.Mathlib.Decide.{dec_lt}
use native.Mathlib.Nat.{mod-lt, mod-eq_of_lt, mod-eq-sub-mod}
use mizuflow.Base.Int.{ℤ, pos, negsuc}
use mizuflow.Api.{Message, zero_message}
use mizuflow.Buffer.{
  RevisionBuffer, size_or_default, new_revision_buffer, add_message, count, logical, collect,
}

pub record IsValid (b : RevisionBuffer) : Type 0 where
  pub storage : length b.messages ≡ b.size
  pub head_in : b.head < b.size

pub size_or_default_pos : (n : ℤ) → 0 < size_or_default n
unfolding size_or_default
size_or_default_pos (pos n) = ground arith
size_or_default_pos (negsuc n) = omega arith

pub new_IsValid : (n : ℤ) → IsValid (new_revision_buffer n)
unfolding new_revision_buffer
new_IsValid n = record {
  storage = length-replicate (size_or_default n) zero_message;
  head_in = size_or_default_pos n;
}

-- Where the storage has the ring's size and the head is an index of it, both are so after `AddMessage`: its write is
-- in range.
pub add_message-IsValid : {b : RevisionBuffer} (m : Message) → IsValid b → IsValid (add_message b m)
unfolding add_message
add_message-IsValid {b} m v = record {
  storage = length-set b.messages b.head m ∙ v.storage;
  head_in = mod-lt (b.head + 1) (omega arith);
}

pub size-add_message : (b : RevisionBuffer) (m : Message) → (add_message b m).size ≡ b.size
unfolding add_message
size-add_message b m = refl

-- The messages in the order in which they were added.
abbrev pub contents : RevisionBuffer → List Message
contents b =
    if b.is_full then drop b.head b.messages ++ take b.head b.messages else take b.head b.messages

pub length-contents : {b : RevisionBuffer} → IsValid b → length (contents b) ≡ count b
length-contents {b} v = ground (
  arith,
  length-append (drop b.head b.messages) (take b.head b.messages),
  length-drop b.head b.messages,
  length-take b.head b.messages,
)

-- Reading round the end of the storage is reading the rotated list.
get_or-rotate :
    (ms : List Message) (h i : ℕ)
    → h < length ms
    → i < length ms
    → get_or ms ((h + i) % length ms) zero_message ≡ get_or (drop h ms ++ take h ms) i zero_message
get_or-rotate ms h i hh hi = elim (dec_lt (h + i) (length ms)) [
  | yes p ↦ rw (mod-eq_of_lt p) (
      sym (
        get_or-append_left (drop h ms) (take h ms) i zero_message (omega (arith, length-drop h ms))
        ∙ get_or-drop h i ms zero_message))
  | no p ↦
      rw
        (
          mod-eq-sub-mod {n = h + i} {m = length ms} (omega arith),
          mod-eq_of_lt {n = h + i - length ms} {m = length ms} (omega arith),
        )
        (sym (
          get_or-append_right (drop h ms) (take h ms) i zero_message
            (omega (arith, length-drop h ms))
          ∙ get_or-take h (i - length (drop h ms)) ms zero_message (omega (arith, length-drop h ms))
          ∙ ap (λ k. get_or ms k zero_message) (omega (arith, length-drop h ms))))
]

-- The index arithmetic of `GetSince` reads the messages in that order.
pub logical-eq-get_or :
    {b : RevisionBuffer}
    → IsValid b
    → (i : ℕ) → i < count b
    → logical b i ≡ get_or (contents b) i zero_message
logical-eq-get_or {b} v i h = elim (Bool-cases b.is_full) [
  | inl f ↦ rw f (
      rw (← v.storage) (
        get_or-rotate b.messages b.head i (omega (arith, v.storage))
          (let k : i < b.size = rw f at h in omega arith)))
  | inr f ↦ rw f (
      let k : i < b.head = rw f at h in
      ap (λ n. get_or b.messages n zero_message)
        (mod-eq_of_lt {n = 0 + i} {m = b.size} (omega arith) ∙ omega arith)
      ∙ sym (get_or-take b.head i b.messages zero_message k))
]

-- What the loop of `GetSince` collects is a suffix of them.
pub collect-eq-drop :
    {b : RevisionBuffer}
    → IsValid b
    → (i n : ℕ) → i + n ≡ count b
    → collect b i n ≡ drop i (contents b)
unfolding collect
collect-eq-drop {b} v i zero h = sym (drop_all i (contents b) (omega (arith, length-contents v)))
collect-eq-drop {b} v i (suc n) h =
    ap₂ ◌∷◌ (logical-eq-get_or v i (omega arith)) (
      collect-eq-drop v (i + 1) n (omega arith)
      ∙ ap (λ k. drop k (contents b)) {y = suc i} (omega arith))
    ∙ sym (drop-eq-cons i (contents b) zero_message (omega (arith, length-contents v)))

-- The last `n` messages of a list.
abbrev pub last : ℕ → List Message → List Message
last n xs = drop (length xs - n) xs

-- A write at the head turns the rotated list by one.
rotate-set :
    (ms : List Message) (h : ℕ) (m : Message)
    → h < length ms
    → drop (suc h) (set ms h m) ++ take (suc h) (set ms h m)
      ≡ drop 1 ((drop h ms ++ take h ms) ++ m ∷ [])
rotate-set ms h m hh =
    rw (drop-set h ms m, take-set h ms m hh, drop-eq-cons h ms zero_message hh)
      (sym (append_assoc (drop (suc h) ms) (take h ms) (m ∷ [])))

set_at_end :
    (ms : List Message) (h : ℕ) (m : Message) → suc h ≡ length ms → set ms h m ≡ take h ms ++ m ∷ []
set_at_end [] h m e = absurd (omega arith)
set_at_end (x ∷ []) zero m e = refl
set_at_end (x ∷ y ∷ xs) zero m e = absurd (omega arith)
set_at_end (x ∷ xs) (suc h) m e = ap (λ r. x ∷ r) (set_at_end xs h m (omega arith))

rotate_at_end :
    (ms : List Message) (h : ℕ) (m : Message)
    → suc h ≡ length ms
    → set ms h m ≡ drop 1 ((drop h ms ++ take h ms) ++ m ∷ [])
rotate_at_end ms h m e =
    rw (drop-eq-cons h ms zero_message (omega arith), drop_all (suc h) ms (omega arith))
      (set_at_end ms h m e)

suc_ne_zero : (n : ℕ) → (suc n == 0) ≡ false
suc_ne_zero n = ground arith

next_head :
    {b : RevisionBuffer}
    → IsValid b
    → (suc b.head < b.size) × ((b.head + 1) % b.size ≡ suc b.head)
      ⊎ (suc b.head ≡ b.size) × ((b.head + 1) % b.size ≡ 0)
next_head {b} v = elim (dec_lt (b.head + 1) b.size) [
  | yes p ↦ inl (omega arith, omega (arith, mod-eq_of_lt p))
  | no p ↦ inr (
    omega arith,
    omega (
      arith,
      mod-eq-sub-mod {n = b.head + 1} {m = b.size} (omega arith),
      mod-eq_of_lt {n = b.head + 1 - b.size} {m = b.size} (omega arith),
    ),
  )
]

contents_full :
    {b : RevisionBuffer} (m : Message)
    → IsValid b
    → b.is_full ≡ true
    → contents (add_message b m) ≡ drop 1 (contents b ++ m ∷ [])
unfolding add_message
contents_full {b} m v f = elim (next_head v) [
  | inl (lt, e) ↦
      rw (e, suc_ne_zero b.head, f) (rotate-set b.messages b.head m (omega (arith, v.storage)))
  | inr (at_end, e) ↦
      rw (e, f)
        (append-nil (set b.messages b.head m)
          ∙ rotate_at_end b.messages b.head m (at_end ∙ sym v.storage))
]

contents_filling :
    {b : RevisionBuffer} (m : Message)
    → IsValid b
    → b.is_full ≡ false
    → contents (add_message b m) ≡ contents b ++ m ∷ []
unfolding add_message
contents_filling {b} m v f = elim (next_head v) [
  | inl (lt, e) ↦
      rw (e, suc_ne_zero b.head, f) (take-set b.head b.messages m (omega (arith, v.storage)))
  | inr (at_end, e) ↦
      rw (e, f)
        (append-nil (set b.messages b.head m)
          ∙ set_at_end b.messages b.head m (at_end ∙ sym v.storage))
]

-- `AddMessage` on a well-formed ring puts the message after all that the ring holds, and of these keeps the latest,
-- the ring's size of them.
pub contents-add_message :
    {b : RevisionBuffer} (m : Message)
    → IsValid b
    → contents (add_message b m) ≡ last b.size (contents b ++ m ∷ [])
contents-add_message {b} m v = elim (Bool-cases b.is_full) [
  | inl f ↦
      contents_full m v f
      ∙ ap (λ k. drop k (contents b ++ m ∷ [])) {x = 1}
          (ground (arith, f, length-contents v, length-append (contents b) (m ∷ [])))
  | inr f ↦
      contents_filling m v f
      ∙ ap (λ k. drop k (contents b ++ m ∷ [])) {x = 0}
          (ground (arith, f, length-contents v, length-append (contents b) (m ∷ [])))
]
