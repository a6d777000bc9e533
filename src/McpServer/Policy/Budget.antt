-- ===== src/McpServer/Policy/Budget.antt =====
-- How many tool calls of one token are admitted in a minute.
use buildpulse_mcp.Common.{
  ℕ, ◌+◌, ◌≤◌, ◌<◌, ◌≡◌, refl, Text, ◌==◌, eq_iff, eq_refl, get, get-put, get-sweep, sweep, bind,
  HasDistinctKeys, put-HasDistinctKeys, sweep-HasDistinctKeys, Option, none, some, List, [], ◌∷◌,
  ◌++◌, true, false, leb, length, All, Bool-cases, ◌⊎◌, inl, inr, if◌then◌else◌, arith,
}
use buildpulse_mcp.McpServer.Policy.{
  tool_rate_limit, tool_rate_window, TokenLimiter, recent, kept, hits, limiter_key, allow,
}

-- How many of the times are not before `a`.
since : ℕ → List ℕ → ℕ
since a [] = 0
since a (t ∷ ts) = if leb a t then 1 + since a ts else since a ts

since-le-length : (a : ℕ) (ts : List ℕ) → since a ts ≤ length ts
unfolding since
since-le-length a [] = omega arith
since-le-length a (t ∷ ts) = ground (arith, since-le-length a ts)

since-append : (a : ℕ) (ts : List ℕ) (now : ℕ) → a ≤ now → since a (ts ++ now ∷ []) ≡ since a ts + 1
unfolding since
since-append a [] now h = ground arith
since-append a (t ∷ ts) now h = ground (arith, since-append a ts now h)

-- In the minute after `a` nothing since `a` ages out.
since-recent :
    (a now : ℕ) (ts : List ℕ) → now < a + tool_rate_window → since a (recent now ts) ≡ since a ts
unfolding since recent
since-recent a now [] h = refl
since-recent a now (t ∷ ts) h = ground (arith, since-recent a now ts h)

since-kept : (a : ℕ) (ts : List ℕ) → since a (hits (kept ts)) ≡ since a ts
unfolding since
since-kept a [] = refl
since-kept a (t ∷ ts) = refl

hits-bind :
    (a now : ℕ) (o : Option (List ℕ))
    → now < a + tool_rate_window
    → since a (hits (bind o (λ ts. kept (recent now ts)))) ≡ since a (hits o)
unfolding since
hits-bind a now none h = refl
hits-bind a now (some ts) h = rw (since-kept a (recent now ts), since-recent a now ts h)

abbrev hits_of : TokenLimiter → Text → List ℕ
hits_of l key = hits (get l key)

module _ (a : ℕ) (l : TokenLimiter) (k : Text) (now : ℕ) (distinct : HasDistinctKeys l)
    (in_window : now < a + tool_rate_window) where
  abbrev swept : TokenLimiter
  swept = sweep (λ ts. kept (recent now ts)) l

  since-swept : (key : Text) → since a (hits_of swept key) ≡ since a (hits_of l key)
  since-swept key =
      rw (get-sweep (λ ts. kept (recent now ts)) l key distinct)
        (hits-bind a now (get l key) in_window)

  allow-distinct : HasDistinctKeys (allow l k now).1
  unfolding allow
  allow-distinct =
      let d = sweep-HasDistinctKeys (λ ts. kept (recent now ts)) l distinct in
      elim (Bool-cases (leb tool_rate_limit (length (hits_of swept (limiter_key k))))) [
        | inl full ↦ rw full d
        | inr free ↦ rw free (put-HasDistinctKeys swept (limiter_key k) _ d)
      ]

  -- A call of another key changes nothing that counts for `key`.
  allow-other :
      (key : Text)
      → (limiter_key k == key) ≡ false
      → since a (hits_of (allow l k now).1 key) ≡ since a (hits_of l key)
  unfolding allow
  allow-other key other =
      elim (Bool-cases (leb tool_rate_limit (length (hits_of swept (limiter_key k))))) [
        | inl full ↦ rw full (since-swept key)
        | inr free ↦
            rw
              (
                free,
                get-put swept (limiter_key k) key (hits_of swept (limiter_key k) ++ now ∷ []),
                other,
              )
              (since-swept key)
      ]

  allow-same :
      a ≤ now
      → (((allow l k now).0 ≡ false)
          × (since a (hits_of (allow l k now).1 (limiter_key k))
              ≡ since a (hits_of l (limiter_key k))))
        ⊎ (((allow l k now).0 ≡ true)
            × (since a (hits_of (allow l k now).1 (limiter_key k))
                ≡ since a (hits_of l (limiter_key k)) + 1)
            × (since a (hits_of l (limiter_key k)) < tool_rate_limit))
  unfolding allow
  allow-same after =
      let times = hits_of swept (limiter_key k) in
      let before = since-swept (limiter_key k) in
      elim (Bool-cases (leb tool_rate_limit (length times))) [
        | inl full ↦ inl (rw full refl, rw full before)
        | inr free ↦ inr (
          rw free refl,
          rw (
            free,
            get-put swept (limiter_key k) (limiter_key k) (times ++ now ∷ []),
            eq_refl (limiter_key k),
            since-append a times now after,
            before,
          ),
          ground (arith, since-le-length a times, before, free),
        )
      ]

-- Each call of the list is a time and the key of its token; how many of those of `key` are admitted.
pub admissions : TokenLimiter → Text → List (ℕ × Text) → ℕ
admissions l key [] = 0
admissions l key ((now, k) ∷ calls) =
    let (ok, l') = allow l k now in
    let rest = admissions l' key calls in
    if limiter_key k == key then (if ok then 1 + rest else rest) else rest

-- Every call is in the minute that begins at `a`.
abbrev pub InMinute : ℕ → List (ℕ × Text) → Type 0
InMinute a = All (λ c. (a ≤ c.0) × (c.0 < a + tool_rate_window))

admissions-le :
    (a : ℕ) (key : Text) (calls : List (ℕ × Text)) (l : TokenLimiter)
    → HasDistinctKeys l
    → InMinute a calls
    → since a (hits_of l key) ≤ tool_rate_limit
    → admissions l key calls + since a (hits_of l key) ≤ tool_rate_limit
unfolding admissions
admissions-le a key [] l d w h = omega (arith, h)
admissions-le a key ((now, k) ∷ calls) l d ((after, before), w) h =
    let l' = (allow l k now).1 in
    let d' = allow-distinct a l k now d before in
    let rest = admissions-le a key calls l' d' w in
    elim (Bool-cases (limiter_key k == key)) [
      | inr other ↦ ground (arith, other, rest, allow-other a l k now d before key other, h)
      | inl same ↦
          let at_key = (eq_iff (limiter_key k) key).0 same in
          elim (allow-same a l k now d before after) [
            | inl (refused, unchanged) ↦ ground (arith, same, refused, rest, unchanged, at_key, h)
            | inr (admitted, one_more, room) ↦
                ground (arith, same, admitted, rest, one_more, room, at_key, h)
          ]
    ]

-- In any minute at most 120 calls of a token are admitted, whatever calls of other tokens come
-- between them and in whatever order the calls come, from any limiter that holds at most 120 hits of
-- that token.
pub admissions-le_limit :
    (a : ℕ) (key : Text) (calls : List (ℕ × Text)) (l : TokenLimiter)
    → HasDistinctKeys l
    → InMinute a calls
    → length (hits_of l key) ≤ tool_rate_limit
    → admissions l key calls ≤ tool_rate_limit
admissions-le_limit a key calls l d w h =
    omega
      (arith, admissions-le a key calls l d w (omega (arith, since-le-length a (hits_of l key), h)))
