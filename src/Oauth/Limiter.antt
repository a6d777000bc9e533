-- ===== src/Oauth/Limiter.antt =====
-- The fixed-window rate limiter of cmd/mcp-remote/register_guard.go. The mutex makes a call of
-- `allow` one step; `now` is its time.Now().
pub mod Window
pub mod Buckets
use buildpulse_mcp.Common.{
  ℕ, ◌+◌, ◌*◌, Text, Map, get, put, sweep, Option, none, some, List, [], Bool, true, false, ltb,
  leb, if◌then◌else◌,
}
use buildpulse_mcp.Oauth.Model.{minute}

abbrev pub register_rate_limit : ℕ
register_rate_limit = 10

abbrev pub register_rate_window : ℕ
register_rate_window = 10 * minute

pub record RateBucket : Type 0 where
  pub count : ℕ
  pub reset : ℕ

pub record RateLimiter : Type 0 where
  pub window : ℕ
  pub limit : ℕ
  pub buckets : Map RateBucket

abbrev pub new_rate_limiter : ℕ → ℕ → RateLimiter
new_rate_limiter limit window = record { window = window; limit = limit; buckets = [] }

-- an expired bucket is deleted
unfoldable pub live : ℕ → RateBucket → Option RateBucket
live now b = if ltb b.reset now then none else some b

-- `now` is in the first window of a new bucket.
abbrev fresh : ℕ → ℕ → RateBucket
fresh window now = record { count = 1; reset = now + window }

unfoldable pub admit :
    RateLimiter → Text → ℕ → Map RateBucket → Option RateBucket → Bool × RateLimiter
admit rl key now reaped none = (true, record rl { buckets = put reaped key (fresh rl.window now) })
admit rl key now reaped (some b) =
    if ltb b.reset now
    then (true, record rl { buckets = put reaped key (fresh rl.window now) })
    else if leb rl.limit b.count
    then (false, record rl { buckets = reaped })
    else (true, record rl { buckets = put reaped key (record b { count = b.count + 1 }) })

unfoldable pub allow : RateLimiter → Text → ℕ → Bool × RateLimiter
unfolding admit
allow rl key now =
    let reaped = sweep (live now) rl.buckets in admit rl key now reaped (get reaped key)
