-- ===== src/McpServer/Policy.antt =====
-- The budget of tool calls of a token, internal/mcpserver/policy.go. The mutex makes a call of
-- `allow` one step.
pub mod Budget
use buildpulse_mcp.Common.{
  ℕ, ◌+◌, ◌*◌, Text, codes, is_empty, Map, get, put, sweep, Option, none, some, List, [], ◌∷◌, ◌++◌,
  Bool, true, false, ltb, leb, length, if◌then◌else◌,
}

abbrev pub tool_rate_limit : ℕ
tool_rate_limit = 120

-- a minute, in nanoseconds
abbrev pub tool_rate_window : ℕ
tool_rate_window = 60 * 1_000_000_000

-- The admitted calls of each key, the oldest first.
abbrev pub TokenLimiter : Type 0
TokenLimiter = Map (List ℕ)

abbrev pub new_token_limiter : TokenLimiter
new_token_limiter = []

-- `t` is after the cutoff `now - window`.
abbrev pub is_recent : ℕ → ℕ → Bool
is_recent now t = ltb now (t + tool_rate_window)

-- ts[j:] for the first j that is recent
unfoldable pub recent : ℕ → List ℕ → List ℕ
recent now [] = []
recent now (t ∷ ts) = let rest = recent now ts in if is_recent now t then t ∷ ts else rest

-- A key whose hits have all aged out is dropped.
abbrev pub kept : List ℕ → Option (List ℕ)
kept [] = none
kept (t ∷ ts) = some (t ∷ ts)

-- a missing key has no hits
abbrev pub hits : Option (List ℕ) → List ℕ
hits none = []
hits (some ts) = ts

abbrev pub limiter_key : Text → Text
limiter_key key = if is_empty key then codes "anonymous" else key

unfoldable pub allow : TokenLimiter → Text → ℕ → Bool × TokenLimiter
allow l key now =
    let swept = sweep (λ ts. kept (recent now ts)) l in
    let times = hits (get swept (limiter_key key)) in
    if leb tool_rate_limit (length times)
    then (false, swept)
    else (true, put swept (limiter_key key) (times ++ now ∷ []))
