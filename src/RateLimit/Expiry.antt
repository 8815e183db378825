-- ===== src/RateLimit/Expiry.antt =====
-- What the expiration of the keys does to the answers.
use native.Mathlib.Nat.{mod-add-div', mod-lt, mul-le-mul_right, mul_right_comm}
use mizuflow.Base.{
  ℕ, ◌+◌, ◌-◌, ◌*◌, ◌≤◌, ◌<◌, ◌≡◌, refl, ap, ◌∙◌, Option, some, leb, inl, inr, Bool-cases, arith,
}
use mizuflow.RateLimit.{micro, Bucket, live, ttl, filled, spend, token_bucket}

-- The keys were set by the script: they expire `ttl` after the time that they hold.
abbrev pub IsTimed : ℕ → ℕ → Bucket → Type 0
IsTimed rate capacity b = b.expires ≡ b.ts + ttl rate capacity * micro

-- Rounded up, `ttl` seconds refill the bucket twice.
ttl_lem : (rate capacity : ℕ) → 0 < rate → capacity * 2 ≤ ttl rate capacity * rate
ttl_lem rate capacity h =
    omega (arith, mod-add-div' (capacity * 2 + rate - 1) rate, mod-lt (capacity * 2 + rate - 1) h)

refills :
    (rate capacity now : ℕ) (b : Bucket)
    → 0 < rate
    → IsTimed rate capacity b
    → b.expires ≤ now
    → capacity * micro ≤ (now - b.ts) * rate
refills rate capacity now b h timed old =
    let wait : ttl rate capacity * micro ≤ now - b.ts = omega arith in
    let k : ℕ = ttl rate capacity in
    omega (arith, mul-le-mul_right rate wait, ttl_lem rate capacity h, mul_right_comm k micro rate)

pub filled-live :
    (rate capacity now : ℕ) (b : Bucket)
    → 0 < rate
    → IsTimed rate capacity b
    → filled rate capacity now (live now (some b)) ≡ filled rate capacity now (some b)
unfolding filled
filled-live rate capacity now b h timed = elim (Bool-cases (leb b.expires now)) [
  | inr t ↦ rw t refl
  | inl t ↦
      let full : capacity * micro ≤ (now - b.ts) * rate =
        refills rate capacity now b h timed (ground arith) in
      rw t (omega arith)
]

spend-keys :
    (rate capacity now requested tokens : ℕ) (keys keys' : Option Bucket)
    → (spend rate capacity now requested tokens keys).0
      ≡ (spend rate capacity now requested tokens keys').0
unfolding spend
spend-keys rate capacity now requested tokens keys keys' = ground arith

-- The expiration changes no answer: a bucket whose keys Redis has dropped is as full as they would say.
pub token_bucket-live :
    (rate capacity now requested : ℕ) (b : Bucket)
    → 0 < rate
    → IsTimed rate capacity b
    → (token_bucket rate capacity now requested (some b)).0
      ≡ (spend rate capacity now requested (filled rate capacity now (some b)) (some b)).0
unfolding token_bucket
token_bucket-live rate capacity now requested b h timed =
    spend-keys rate capacity now requested (filled rate capacity now (live now (some b)))
      (live now (some b)) (some b)
    ∙ ap (λ t. (spend rate capacity now requested t (some b)).0)
        (filled-live rate capacity now b h timed)
