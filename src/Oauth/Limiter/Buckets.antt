-- ===== src/Oauth/Limiter/Buckets.antt =====
-- When the limiter refuses, and what it keeps.
use buildpulse_mcp.Common.{
  ◌↔◌, ℕ, ◌+◌, ◌≤◌, ◌≡◌, refl, Text, Map, get, get-put, Option, none, some, false, arith,
  Option-cases, inl, inr,
}
use buildpulse_mcp.Oauth.Limiter.{RateBucket, RateLimiter, live, admit, allow}
use buildpulse_mcp.Oauth.Limiter.Window.{IsValid, reaped, get-reaped}

-- By a valid limiter a call is refused exactly if the key has a bucket that is not past its reset and that counts
-- `limit` calls.
pub allow-refuses_iff :
    (rl : RateLimiter) (key : Text) (now : ℕ)
    → IsValid rl
    → ((allow rl key now).0 ≡ false)
      ↔ ((b : RateBucket) × (get rl.buckets key ≡ some b) × (now ≤ b.reset) × (rl.limit ≤ b.count))
unfolding allow admit live
allow-refuses_iff rl key now v = elim (Option-cases (get rl.buckets key)) [
  | inl e ↦ (λ h. ground (arith, get-reaped rl now v key), λ h. ground arith)
  | inr (b, e) ↦ (
    λ h. (b, e, ground (arith, get-reaped rl now v key), ground (arith, get-reaped rl now v key)),
    λ h. ground (arith, get-reaped rl now v key),
  )
]

current-admit :
    (rl : RateLimiter) (key : Text) (now : ℕ) (m : Map RateBucket) (o : Option RateBucket)
    → get m key ≡ o
    → ((k : Text) (b : RateBucket) → get m k ≡ some b → now ≤ b.reset)
    → (k : Text) (b : RateBucket) → get (admit rl key now m o).1.buckets k ≡ some b
    → now ≤ b.reset
unfolding admit
current-admit rl key now m none e h k b g =
    ground (arith, get-put m key k (record { count = 1; reset = now + rl.window }), h k b)
current-admit rl key now m (some c) e h k b g = ground (
  arith,
  get-put m key k (record { count = 1; reset = now + rl.window }),
  get-put m key k (record c { count = c.count + 1 }),
  h k b,
  h key c,
)

current-reaped :
    (rl : RateLimiter) (now : ℕ) (v : IsValid rl) (k : Text) (b : RateBucket)
    → get (reaped rl now v) k ≡ some b
    → now ≤ b.reset
unfolding live
current-reaped rl now v k b g = elim (Option-cases (get rl.buckets k)) [
  | inl e ↦ ground (arith, get-reaped rl now v k)
  | inr (c, e) ↦ ground (arith, get-reaped rl now v k)
]

-- After a call of a valid limiter, admitted or refused, no bucket that is past its reset stays in the map.
pub allow-reaps :
    (rl : RateLimiter) (key : Text) (now : ℕ)
    → IsValid rl
    → (k : Text) (b : RateBucket) → get (allow rl key now).1.buckets k ≡ some b
    → now ≤ b.reset
unfolding allow
allow-reaps rl key now v =
    current-admit rl key now (reaped rl now v) (get (reaped rl now v) key) refl
      (current-reaped rl now v)
