-- ===== src/RateLimit/Bound.antt =====
-- How many requests the script allows in a stretch of time.
use native.Mathlib.Nat.{add-mul}
use mizuflow.Base.{
  ℕ, ◌+◌, ◌-◌, ◌*◌, ◌≤◌, ◌<◌, ◌≡◌, refl, ap, ◌∙◌, Option, none, some, List, [], ◌∷◌, leb, inl, inr,
  Bool-cases, arith,
}
use mizuflow.RateLimit.{micro, Bucket, live, filled, spend, token_bucket}
use mizuflow.RateLimit.Expiry.{IsTimed, filled-live}

-- Requests for one token at the given times, one after the other, and how many of them are allowed.
unfoldable pub allowed_count : ℕ → ℕ → Option Bucket → List ℕ → ℕ
allowed_count rate capacity keys [] = 0
allowed_count rate capacity keys (now ∷ times) =
    let (answer, keys') = token_bucket rate capacity now 1 keys in
    answer.allowed + allowed_count rate capacity keys' times

-- The times do not go back, from `t` on.
abbrev pub Rising : ℕ → List ℕ → Type 0
Rising t [] = Unit
Rising t (now ∷ times) = (t ≤ now) × Rising now times

abbrev pub end_of : ℕ → List ℕ → ℕ
end_of t [] = t
end_of t (now ∷ times) = end_of now times

-- What the keys hold was set by the script, not after `t`.
abbrev pub IsHeld : ℕ → ℕ → ℕ → Option Bucket → Type 0
IsHeld rate capacity t none = Unit
IsHeld rate capacity t (some b) = IsTimed rate capacity b × (b.ts ≤ t)

filled_grows :
    (rate capacity t now : ℕ) (keys : Option Bucket)
    → t ≤ now
    → IsHeld rate capacity t keys
    → filled rate capacity now keys ≤ filled rate capacity t keys + (now - t) * rate
unfolding filled
filled_grows rate capacity t now none le h = omega arith
filled_grows rate capacity t now (some b) le h =
    let split : now - b.ts ≡ (t - b.ts) + (now - t) = omega arith in
    omega (arith, ap (λ (x : ℕ). x * rate) split, add-mul (t - b.ts) (now - t) rate)

-- What is allowed of a full bucket is paid for.
spend_paid :
    (rate capacity now tokens : ℕ) (keys : Option Bucket)
    → filled rate capacity now keys ≤ tokens
    → IsHeld rate capacity now keys
    → ((spend rate capacity now 1 tokens keys).0.allowed * micro
          + filled rate capacity now (spend rate capacity now 1 tokens keys).1
        ≤ tokens)
      × IsHeld rate capacity now (spend rate capacity now 1 tokens keys).1
unfolding spend filled
spend_paid rate capacity now tokens keys le set = elim (Bool-cases (leb (1 * micro) tokens)) [
  | inl t ↦
      let enough : micro ≤ tokens = ground arith in
      let still : (now - now) * rate ≡ 0 =
        ap (λ (x : ℕ). x * rate) {x = now - now} {y = 0} (omega arith) ∙ omega arith in
      rw t (omega (arith, still), (refl, omega arith))
  | inr t ↦ rw t (omega (arith, le), set)
]

live-IsHeld :
    (rate capacity now : ℕ) (keys : Option Bucket)
    → 0 < rate
    → IsHeld rate capacity now keys
    → (filled rate capacity now (live now keys) ≤ filled rate capacity now keys)
      × IsHeld rate capacity now (live now keys)
live-IsHeld rate capacity now none h set = (omega arith, tt)
live-IsHeld rate capacity now (some b) h set = (
  omega (arith, filled-live rate capacity now b h set.0),
  elim (Bool-cases (leb b.expires now)) [ inl t ↦ rw t tt | inr t ↦ rw t set ],
)

IsHeld-later :
    (rate capacity t now : ℕ) (keys : Option Bucket)
    → t ≤ now
    → IsHeld rate capacity t keys
    → IsHeld rate capacity now keys
IsHeld-later rate capacity t now none le set = tt
IsHeld-later rate capacity t now (some b) le set = (set.0, omega (arith, set.1))

allowed_le_filled :
    (rate capacity t : ℕ) (keys : Option Bucket) (times : List ℕ)
    → 0 < rate
    → Rising t times
    → IsHeld rate capacity t keys
    → (t ≤ end_of t times)
      × (allowed_count rate capacity keys times * micro
          ≤ filled rate capacity t keys + (end_of t times - t) * rate)
unfolding allowed_count token_bucket
allowed_le_filled rate capacity t keys [] h rising set = (omega arith, omega arith)
allowed_le_filled rate capacity t keys (now ∷ times) h rising set =
    let here = IsHeld-later rate capacity t now keys rising.0 set in
    let kept = live-IsHeld rate capacity now keys h here in
    let paid =
      spend_paid rate capacity now (filled rate capacity now (live now keys)) (live now keys)
        (omega arith) kept.1 in
    let step = token_bucket rate capacity now 1 keys in
    let rest = allowed_le_filled rate capacity now step.1 times h rising.1 paid.1 in
    let split : end_of now times - t ≡ (end_of now times - now) + (now - t) =
      omega (arith, rest.0, rising.0) in
    (
      omega (arith, rest.0, rising.0),
      omega (
        arith,
        rest.1,
        paid.0,
        kept.0,
        filled_grows rate capacity t now keys rising.0 set,
        ap (λ (x : ℕ). x * rate) split,
        add-mul (end_of now times - now) (now - t) rate,
        add-mul step.0.allowed (allowed_count rate capacity step.1 times) micro,
      ),
    )

-- Of requests of one client whose times do not go back, the first not before `start`, the script allows at most the
-- capacity and what the rate gives from `start` to the last of them (in millionths of a request), whichever keys Redis
-- drops in between.
pub allowed_count-le :
    (rate capacity start : ℕ) (times : List ℕ)
    → 0 < rate
    → Rising start times
    → allowed_count rate capacity none times * micro
      ≤ capacity * micro + (end_of start times - start) * rate
unfolding filled
allowed_count-le rate capacity start times h rising =
    (allowed_le_filled rate capacity start none times h rising tt).1
