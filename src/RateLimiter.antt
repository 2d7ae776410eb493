-- ===== src/RateLimiter.antt =====
-- app/cache/rate_limiter.py: the sliding window, its Lua script and `is_allowed`. Times are
-- microseconds; the rounding of the source's floating-point times is not modelled.
pub mod Window
pub mod Replies
pub mod Keys
use Prim.Native.String.{◌++◌}
use fastapi_url_shortener.Base.{
  ℕ, ◌+◌, ◌-◌, ◌*◌, ◌/◌, String, Bool, true, false, leb, if◌then◌else◌,
}
use fastapi_url_shortener.Core.Settings.{Settings}
use fastapi_url_shortener.Models.{second}
use fastapi_url_shortener.Redis.{Redis}

-- The three numbers that the script returns, the first as `bool(result[0])`.
pub record Reply : Type 0 where
  pub allowed : Bool
  pub remaining : ℕ
  pub reset_after : ℕ

-- `key = f"ratelimit:{identifier}:{endpoint}"`
unfoldable pub rate_limit_key : String → String → String
rate_limit_key identifier endpoint = "ratelimit:" ++ identifier ++ ":" ++ endpoint

-- `math.ceil` of a number of microseconds, in seconds.
abbrev pub ceil_seconds : ℕ → ℕ
ceil_seconds t = (t + (second - 1)) / second

-- `get_anonymous_limit` and `get_user_limit`
unfoldable pub get_anonymous_limit : Settings → ℕ × ℕ
get_anonymous_limit s = (s.anonymous_rate_limit, s.anonymous_rate_limit_window)

unfoldable pub get_user_limit : Settings → ℕ × ℕ
get_user_limit s = (s.rate_limit_requests, s.rate_limit_window)

module _ ⦃r : Redis⦄ where
  -- `_SLIDING_WINDOW_SCRIPT`, with KEYS[1] and ARGV[1] to ARGV[5]
  unfoldable pub sliding_window_script : String → ℕ → ℕ → ℕ → ℕ → String → r.Store → Reply × r.Store
  sliding_window_script key now window_start limit window req_id s =
      let s₁ = r.zremrangebyscore key window_start s in
      if leb limit (r.zcard key s₁)
      then (
        record {
          allowed = false;
          remaining = 0;
          reset_after = ceil_seconds (window * second - (now - window_start)) + 1;
        },
        s₁,
      )
      else (
        record { allowed = true; remaining = limit - r.zcard key s₁ - 1; reset_after = window },
        r.expire key window (r.zadd key now req_id s₁),
      )

  -- `is_allowed`, at the time `now` with the fresh `req_id`
  unfoldable pub is_allowed : String → ℕ → ℕ → String → ℕ → String → r.Store → Reply × r.Store
  unfolding sliding_window_script
  is_allowed identifier limit window endpoint now req_id s =
      sliding_window_script (rate_limit_key identifier endpoint) now (now - window * second) limit
        window req_id s
