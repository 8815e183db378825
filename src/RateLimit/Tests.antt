-- ===== src/RateLimit/Tests.antt =====
-- Requests of two addresses over a Redis that runs the script and does not fail.
use mizuflow.Base.{
  ℕ, ◌≡◌, ◌≢◌, refl, String, true, not, Option, none, some, [], ◌∷◌, arith, str_eq, eq_iff, eq_refl,
  if◌then◌else◌,
}
use mizuflow.Base.Int.{pos}
use mizuflow.RateLimit.{
  Bucket, Answer, token_bucket, filled, script_reply, RateRedis, Limits, Limiter, rate_limit,
  too_many, failed, clean_up, requests_or_default,
}
use mizuflow.RateLimit.Bound.{allowed_count}
use mizuflow.RateLimit.Admits.{ScriptLaws}

abbrev Keys : Type 0
Keys = String → Option Bucket

abbrev run : String → ℕ → ℕ → ℕ → ℕ → Keys → Answer × Option Bucket
run key rate capacity now requested r = token_bucket rate capacity now requested (r key)

abbrev redis : RateRedis Keys
redis = record {
  run_script = λ key rate capacity now requested r. (
    script_reply (run key rate capacity now requested r).0,
    λ k. if str_eq key k then (run key rate capacity now requested r).1 else r k,
  );
}

keys_differ :
    (key other : String)
    → key ≢ other
    → (x y : Option Bucket) → (if str_eq key other then x else y) ≡ y
keys_differ key other ne x y = ground (arith, eq_iff key other)

unfoldable laws : ScriptLaws redis
unfolding keys_differ
laws = record {
  bucket = λ key r. r key;
  answers = λ key rate capacity now requested r. refl;
  keeps = λ key rate capacity now requested r. rw (eq_refl key) refl;
  others = λ key other rate capacity now requested r ne.
      keys_differ key other ne (run key rate capacity now requested r).1 (r other);
}

-- A limiter that allows nothing.
abbrev closed : Limiter ℕ
closed = record { new_limiter = λ n b. b; allow = λ now l. (not true, l); tokens_left = λ now l. l }

abbrev fresh : Limits Keys ℕ
fresh = record { redis = λ k. none; locals = [] }

-- A bucket of two: the third request at once is refused, and half a second later one more is allowed.
three_at_once : allowed_count 2 2 none (7 ∷ 7 ∷ 7 ∷ 500007 ∷ []) ≡ 3
unfolding allowed_count token_bucket filled
three_at_once = refl

abbrev down : RateRedis Keys
down = record { run_script = λ key rate capacity now requested r. (failed, r) }

falls_back :
    (rate_limit down closed (pos 2) "a" 7 fresh).0
    ≡ too_many (record { limit = some 2; remaining = some 0; reset = some 1 })
unfolding rate_limit requests_or_default
falls_back = refl

cleans_up :
    clean_up {L = ℕ} 700000000 (
      ("a", record { limiter = 1; last_seen = 5 })
      ∷ ("b", record { limiter = 1; last_seen = 650000000 })
      ∷ [])
    ≡ ("b", record { limiter = 1; last_seen = 650000000 }) ∷ []
unfolding clean_up
cleans_up = refl
