-- ===== src/RateLimit/Script.antt =====
-- `tokenBucketScript`.
use mizuflow.Base.{ℕ, ◌+◌, ◌-◌, ◌*◌, ◌/◌, min, Option, none, some, leb, if◌then◌else◌}

abbrev pub micro : ℕ
micro = 1000000

-- What the two keys hold, which the script sets together and with one expiration: the tokens, the time of the last
-- request that was allowed, and the time at which Redis drops both.
pub record Bucket : Type 0 where
  pub tokens : ℕ
  pub ts : ℕ
  pub expires : ℕ

-- What Redis still holds at a time.
abbrev pub live : ℕ → Option Bucket → Option Bucket
live now none = none
live now (some b) = if leb b.expires now then none else some b

-- The script's answer; Redis cuts the numbers of Lua to integers.
pub record Answer : Type 0 where
  pub allowed : ℕ
  pub remaining : ℕ
  pub reset_after : ℕ

-- `math.ceil(capacity / rate * 2)`, in seconds
abbrev pub ttl : ℕ → ℕ → ℕ
ttl rate capacity = (capacity * 2 + rate - 1) / rate

-- `math.min(capacity, last_tokens + (math.max(0, now - last_ts) * rate))`, where a missing number of tokens is the
-- capacity and a missing time is the time of the request.
unfoldable pub filled : ℕ → ℕ → ℕ → Option Bucket → ℕ
filled rate capacity now none = capacity * micro
filled rate capacity now (some b) = min (capacity * micro) (b.tokens + (now - b.ts) * rate)

-- The script after the refill.
unfoldable pub spend : ℕ → ℕ → ℕ → ℕ → ℕ → Option Bucket → Answer × Option Bucket
spend rate capacity now requested tokens keys =
    if leb (requested * micro) tokens
    then (
      record { allowed = 1; remaining = (tokens - requested * micro) / micro; reset_after = 0 },
      some (record {
        tokens = tokens - requested * micro;
        ts = now;
        expires = now + ttl rate capacity * micro;
      }),
    )
    else (
      record {
        allowed = 0;
        remaining = tokens / micro;
        reset_after = (requested * micro - tokens) / rate / micro;
      },
      keys,
    )

unfoldable pub token_bucket : ℕ → ℕ → ℕ → ℕ → Option Bucket → Answer × Option Bucket
unfolding spend
token_bucket rate capacity now requested keys =
    spend rate capacity now requested (filled rate capacity now (live now keys)) (live now keys)
