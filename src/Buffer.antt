-- ===== src/Buffer.antt =====
-- internal/buffer/revision_buffer.go: the ring of the latest messages, from which a client that
-- reconnects is brought up to date. The mutex makes each method one step.
pub mod Search
pub mod Window
pub mod Since
pub mod History
mod Tests
use mizuflow.Base.{
  ℕ, zero, suc, ◌+◌, ◌-◌, ◌%◌, Bool, true, false, List, [], ◌∷◌, get_or, set, replicate, ◌==◌,
  if◌then◌else◌,
}
use mizuflow.Base.Int.{ℤ, pos, negsuc, ltb_ℤ}
use mizuflow.Api.{Message, Action, zero_message}
use Search.{search}

pub record RevisionBuffer : Type 0 where
  pub messages : List Message
  pub size : ℕ
  pub head : ℕ
  pub is_full : Bool

-- `if size <= 0 { size = 1000 }`
unfoldable pub size_or_default : ℤ → ℕ
size_or_default (pos n) = if n == 0 then 1000 else n
size_or_default (negsuc n) = 1000

unfoldable pub new_revision_buffer : ℤ → RevisionBuffer
unfolding size_or_default
new_revision_buffer n =
    let size = size_or_default n in
    record { messages = replicate size zero_message; size = size; head = 0; is_full = false }

-- A write out of range, which would panic, leaves the model's list as it was.
unfoldable pub add_message : RevisionBuffer → Message → RevisionBuffer
add_message b msg =
    let head' = (b.head + 1) % b.size in
    record b {
      messages = set b.messages b.head msg;
      head = head';
      is_full = if head' == 0 then true else b.is_full;
    }

abbrev pub count : RevisionBuffer → ℕ
count b = if b.is_full then b.size else b.head

abbrev pub start : RevisionBuffer → ℕ
start b = if b.is_full then b.head else 0

-- `b.messages[(start + i) % b.size]`
abbrev pub logical : RevisionBuffer → ℕ → Message
logical b i = get_or b.messages ((start b + i) % b.size) zero_message

-- The last loop of `GetSince`, over the `n` indices from `i` on.
unfoldable pub collect : RevisionBuffer → ℕ → ℕ → List Message
collect b i zero = []
collect b i (suc n) = logical b i ∷ collect b (i + 1) n

-- The flag is `false` where the client needs a full resync.
unfoldable pub get_since : RevisionBuffer → ℤ → List Message × Bool
get_since b last_rev =
    if count b == 0
    then ([], true)
    else if ltb_ℤ last_rev (get_or b.messages (start b) zero_message).revision
    then ([], false)
    else let idx = search (count b) (λ i. ltb_ℤ last_rev (logical b i).revision) in
      if idx == count b then ([], true) else (collect b idx (count b - idx), true)
