-- ===== src/RateLimit/Admits.antt =====
-- The middleware over a Redis that runs the script, for the requests of many clients.
use Prim.Native.String.{◌++◌}
use mizuflow.Base.{
  ℕ, ◌+◌, ◌≡◌, ◌≢◌, sym, String, Bool, true, false, Option, some, List, [], ◌∷◌, ◌&&◌, str_eq,
  if◌then◌else◌,
}
use mizuflow.Base.Int.{ℤ}
use mizuflow.RateLimit.{
  Bucket, token_bucket, requests_or_default, script_reply, RateRedis, Limits, Verdict, passes,
  too_many, Limiter, rate_limit,
}

-- What is relied on: Redis runs the script on the keys of its prefix, and leaves all others alone. `bucket` is what
-- the keys of a prefix hold.
pub record ScriptLaws {R : Type 0} (redis : RateRedis R) : Type 0 where
  pub bucket : String → R → Option Bucket
  pub answers :
      (key : String) (rate capacity now requested : ℕ) (r : R)
      → (redis.run_script key rate capacity now requested r).0
        ≡ script_reply (token_bucket rate capacity now requested (bucket key r)).0
  pub keeps :
      (key : String) (rate capacity now requested : ℕ) (r : R)
      → bucket key (redis.run_script key rate capacity now requested r).1
        ≡ (token_bucket rate capacity now requested (bucket key r)).1
  pub others :
      (key other : String) (rate capacity now requested : ℕ) (r : R)
      → key ≢ other
      → bucket other (redis.run_script key rate capacity now requested r).1 ≡ bucket other r

abbrev pub is_pass : Verdict → Bool
is_pass (passes _) = true
is_pass (too_many _) = false

-- The times of the requests of one address.
abbrev pub times_of : String → List (String × ℕ) → List ℕ
times_of ip [] = []
times_of ip ((other, now) ∷ requests) =
    let rest = times_of ip requests in if str_eq other ip then now ∷ rest else rest

module _ {R L : Type 0} {redis : RateRedis R} (rate : Limiter L) (laws : ScriptLaws redis)
    (per_second : ℤ) where
  open laws use {bucket, answers, keeps, others}

  -- The requests of all clients, and how many of one address pass.
  unfoldable pub pass_count : String → List (String × ℕ) → Limits R L → ℕ
  pass_count ip [] s = 0
  pass_count ip ((other, now) ∷ requests) s =
      let (verdict, s') = rate_limit redis rate per_second other now s in
      let rest = pass_count ip requests s' in
      if str_eq other ip && is_pass verdict then rest + 1 else rest

  abbrev n : ℕ
  n = requests_or_default per_second

  abbrev key_of : String → String
  key_of ip = "ratelimit:" ++ ip
