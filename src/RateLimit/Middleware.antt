-- ===== src/RateLimit/Middleware.antt =====
-- `RateLimitMiddleware` around the script, with the limiters of the server.
use Prim.Native.String.{◌++◌}
use mizuflow.Base.{
  ℕ, ◌+◌, ◌-◌, ◌*◌, ◌/◌, String, Bool, Option, none, some, List, [], ◌∷◌, ◌==◌, ltb, if◌then◌else◌,
}
use mizuflow.Base.Int.{ℤ, pos, negsuc}
use mizuflow.Base.Dict.{Dict, lookup, insert}
use mizuflow.RateLimit.Script.{micro, Answer}

-- `if requestsPerSecond <= 0 { requestsPerSecond = 5 }`
unfoldable pub requests_or_default : ℤ → ℕ
requests_or_default (pos n) = if n == 0 then 5 else n
requests_or_default (negsuc n) = 5

-- What a reply of Redis holds; a double is given in millionths. The script's numbers are not negative.
pub data RedisValue : Type 0 where
  int64 float64 : ℕ → RedisValue
  other : RedisValue

unfoldable pub helper_int : RedisValue → ℕ
helper_int (int64 n) = n
helper_int (float64 x) = x / micro
helper_int other = 0

-- In millionths.
unfoldable pub helper_float : RedisValue → ℕ
helper_float (int64 n) = n * micro
helper_float (float64 x) = x
helper_float other = 0

-- `tokenBucketScript.Run(...).Result()`: an error, what is no array, or an array.
pub data ScriptResult : Type 0 where
  failed malformed : ScriptResult
  values : List RedisValue → ScriptResult

-- The reply to the script's `return`.
abbrev pub script_reply : Answer → ScriptResult
script_reply a = values (int64 a.allowed ∷ int64 a.remaining ∷ int64 a.reset_after ∷ [])

-- `rate.Limiter`, with the state `L` of one limiter: `allow` at a time, and the tokens that are left then.
pub record Limiter (L : Type 0) : Type 0 where
  pub new_limiter : ℕ → ℕ → L
  pub allow : ℕ → L → Bool × L
  pub tokens_left : ℕ → L → ℕ

-- `localLimiter`
pub record LocalLimiter (L : Type 0) : Type 0 where
  pub limiter : L
  pub last_seen : ℕ

-- The script's argument: the keys' prefix, the rate, the capacity, the time, and the tokens.
pub record RateRedis (R : Type 0) : Type 0 where
  pub run_script : String → ℕ → ℕ → ℕ → ℕ → R → ScriptResult × R

pub record Limits (R L : Type 0) : Type 0 where
  pub redis : R
  pub locals : Dict (LocalLimiter L)

-- The headers `X-RateLimit-Limit`, `-Remaining` and `-Reset`, where they are set.
pub record RateHeaders : Type 0 where
  pub limit : Option ℕ
  pub remaining : Option ℕ
  pub reset : Option ℕ

abbrev pub no_headers : RateHeaders
no_headers = record { limit = none; remaining = none; reset = none }

-- `c.Next()`, or the status 429.
pub data Verdict : Type 0 where
  passes too_many : RateHeaders → Verdict

abbrev pub ten_minutes : ℕ
ten_minutes = 600 * micro

-- A tick of `cleanupTicker`.
unfoldable pub clean_up : {L : Type 0} → ℕ → Dict (LocalLimiter L) → Dict (LocalLimiter L)
clean_up now [] = []
clean_up now ((ip, l) ∷ rest) =
    let rest' = clean_up now rest in
    if ltb ten_minutes (now - l.last_seen) then rest' else (ip, l) ∷ rest'

-- After the script's reply, where `n` is the rate.
unfoldable pub verdict_of : ℕ → ℕ → List RedisValue → Verdict
unfolding helper_int helper_float
verdict_of n now (allowed ∷ remaining ∷ reset_after ∷ []) =
    let headers : RateHeaders = record {
      limit = some n;
      remaining = some (helper_float remaining / micro);
      reset = some ((now + helper_float reset_after) / micro);
    } in
    if helper_int allowed == 1 then passes headers else too_many headers
verdict_of n now _ = passes no_headers

module _ {R L : Type 0} (redis : RateRedis R) (rate : Limiter L) where
  abbrev pub limiter_or_new : ℕ → ℕ → Option (LocalLimiter L) → L
  limiter_or_new n burst none = rate.new_limiter n burst
  limiter_or_new n burst (some l) = l.limiter

  -- `getLocalLimiter`; the limiter is shared, so that what `Allow` does to it is kept in the map.
  unfoldable pub allow_local :
      String → ℕ → ℕ → ℕ → Dict (LocalLimiter L) → (Bool × ℕ) × Dict (LocalLimiter L)
  allow_local ip n burst now locals =
      let (ok, l) = rate.allow now (limiter_or_new n burst (lookup ip locals)) in
      ((ok, rate.tokens_left now l), insert ip (record { limiter = l; last_seen = now }) locals)

  unfoldable pub fall_back : String → ℕ → ℕ → Limits R L → Verdict × Limits R L
  unfolding allow_local
  fall_back ip n now s =
      let ((ok, left), locals) = allow_local ip n n now s.locals in
      (
        if ok
            then passes (record { limit = some n; remaining = some (left / micro); reset = none })
            else too_many (record { limit = some n; remaining = some 0; reset = some 1 }),
        record { redis = s.redis; locals = locals },
      )

  -- What follows the run of the script.
  unfoldable pub after_script : String → ℕ → ℕ → ScriptResult → Limits R L → Verdict × Limits R L
  unfolding fall_back verdict_of
  after_script ip n now failed s = fall_back ip n now s
  after_script ip n now malformed s = (passes no_headers, s)
  after_script ip n now (values vs) s = (verdict_of n now vs, s)

  unfoldable pub rate_limit : ℤ → String → ℕ → Limits R L → Verdict × Limits R L
  unfolding after_script
  rate_limit requests_per_second ip now s =
      let n = requests_or_default requests_per_second in
      let (result, r) = redis.run_script ("ratelimit:" ++ ip) n n now 1 s.redis in
      after_script ip n now result (record { redis = r; locals = s.locals })
