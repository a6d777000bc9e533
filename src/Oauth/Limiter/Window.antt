-- ===== src/Oauth/Limiter/Window.antt =====
-- How many calls of one key the limiter admits.
use buildpulse_mcp.Common.{
  ap, eq_refl, Bool-cases, ℕ, ◌+◌, ◌-◌, ◌*◌, ◌≤◌, ◌≡◌, refl, Text, ◌==◌, eq_iff, Map, get, sweep,
  bind, get-put, get-sweep, HasDistinctKeys, put-HasDistinctKeys, sweep-HasDistinctKeys, Option,
  none, some, List, [], ◌∷◌, Bool, true, false, All, arith, leb, if◌then◌else◌, Option-cases, inl,
  inr,
}
use buildpulse_mcp.Oauth.Limiter.{RateBucket, RateLimiter, live, admit, allow}

-- Every bucket counts at most `limit` calls, and a key has one bucket.
pub record IsValid (rl : RateLimiter) : Type 0 where
  pub distinct : HasDistinctKeys rl.buckets
  pub positive : 1 ≤ rl.limit
  pub bounded : (k : Text) (b : RateBucket) → get rl.buckets k ≡ some b → b.count ≤ rl.limit

-- The calls that a bucket still admits before the time `end`, if it is not replaced by more than one
-- new bucket until then.
credit : ℕ → ℕ → Option RateBucket → ℕ
credit limit end none = limit
credit limit end (some b) = if leb end b.reset then limit - b.count else limit - b.count + limit

abbrev pub admitted : Bool → ℕ
admitted true = 1
admitted false = 0

-- Each call of the list is a time and a key; how many of those of `key` are admitted.
pub admissions : RateLimiter → Text → List (ℕ × Text) → ℕ
admissions rl key [] = 0
admissions rl key ((now, k) ∷ calls) =
    let (ok, rl') = allow rl k now in
    (if k == key then admitted ok else 0) + admissions rl' key calls

module _ (rl : RateLimiter) (key : Text) (now : ℕ) where
  limit-admit :
      (m : Map RateBucket) (o : Option RateBucket) → (admit rl key now m o).1.limit ≡ rl.limit
  unfolding admit
  limit-admit m none = refl
  limit-admit m (some b) = ground arith

  window-admit :
      (m : Map RateBucket) (o : Option RateBucket) → (admit rl key now m o).1.window ≡ rl.window
  unfolding admit
  window-admit m none = refl
  window-admit m (some b) = ground arith

  distinct-admit :
      (m : Map RateBucket) (o : Option RateBucket)
      → HasDistinctKeys m
      → HasDistinctKeys (admit rl key now m o).1.buckets
  unfolding admit
  distinct-admit m none d = put-HasDistinctKeys m key _ d
  distinct-admit m (some b) d = ground (
    arith,
    put-HasDistinctKeys m key (record { count = 1; reset = now + rl.window }) d,
    put-HasDistinctKeys m key (record b { count = b.count + 1 }) d,
  )

  bounded-admit :
      (m : Map RateBucket) (o : Option RateBucket)
      → 1 ≤ rl.limit
      → get m key ≡ o
      → ((k : Text) (b : RateBucket) → get m k ≡ some b → b.count ≤ rl.limit)
      → (k : Text) (b : RateBucket) → get (admit rl key now m o).1.buckets k ≡ some b
      → b.count ≤ rl.limit
  unfolding admit
  bounded-admit m none pos e h k b g =
      ground (arith, get-put m key k (record { count = 1; reset = now + rl.window }), h k b)
  bounded-admit m (some c) pos e h k b g = ground (
    arith,
    get-put m key k (record { count = 1; reset = now + rl.window }),
    get-put m key k (record c { count = c.count + 1 }),
    h k b,
    h key c,
  )

  -- The call of `key` itself, and what it leaves for the key.
  credit-admit_self :
      (end : ℕ) (m : Map RateBucket) (o : Option RateBucket)
      → 1 ≤ rl.limit
      → now ≤ end
      → end ≤ now + rl.window
      → get m key ≡ o
      → let r = admit rl key now m o in
        admitted r.0 + credit rl.limit end (get r.1.buckets key) ≤ credit rl.limit end o
  unfolding admit credit
  credit-admit_self end m none pos a z e =
      ground (arith, get-put m key key (record { count = 1; reset = now + rl.window }), eq_refl key)
  credit-admit_self end m (some b) pos a z e = ground (
    arith,
    get-put m key key (record { count = 1; reset = now + rl.window }),
    get-put m key key (record b { count = b.count + 1 }),
    eq_refl key,
  )

  -- A call of one key changes the bucket of no other.
  get-admit_other :
      (m : Map RateBucket) (o : Option RateBucket) (k : Text)
      → (key == k) ≡ false
      → get (admit rl key now m o).1.buckets k ≡ get m k
  unfolding admit
  get-admit_other m none k ne =
      ground (arith, get-put m key k (record { count = 1; reset = now + rl.window }))
  get-admit_other m (some b) k ne = ground (
    arith,
    get-put m key k (record { count = 1; reset = now + rl.window }),
    get-put m key k (record b { count = b.count + 1 }),
  )

credit-live :
    (limit end now : ℕ) (o : Option RateBucket)
    → now ≤ end
    → credit limit end (bind o (live now)) ≤ credit limit end o
unfolding credit live
credit-live limit end now none a = omega arith
credit-live limit end now (some b) a = ground arith

module _ (rl : RateLimiter) (now : ℕ) (v : IsValid rl) where
  abbrev pub reaped : Map RateBucket
  reaped = sweep (live now) rl.buckets

  pub get-reaped : (k : Text) → get reaped k ≡ bind (get rl.buckets k) (live now)
  get-reaped k = get-sweep (live now) rl.buckets k v.distinct

  bounded-reaped : (k : Text) (b : RateBucket) → get reaped k ≡ some b → b.count ≤ rl.limit
  unfolding live
  bounded-reaped k b g = elim (Option-cases (get rl.buckets k)) [
    | inl e ↦ ground (arith, get-reaped k)
    | inr (c, e) ↦ ground (arith, get-reaped k, v.bounded k c e)
  ]

  -- A call keeps the limiter's invariant.
  pub allow-IsValid : (key : Text) → IsValid (allow rl key now).1
  unfolding allow
  allow-IsValid key = record {
    distinct =
        distinct-admit rl key now reaped (get reaped key)
          (sweep-HasDistinctKeys (live now) rl.buckets v.distinct);
    positive = rw limit-admit v.positive;
    bounded =
        rw limit-admit
          (bounded-admit rl key now reaped (get reaped key) v.positive refl bounded-reaped);
  }

  pub limit-allow : (key : Text) → (allow rl key now).1.limit ≡ rl.limit
  unfolding allow
  limit-allow key = limit-admit rl key now reaped (get reaped key)

  pub window-allow : (key : Text) → (allow rl key now).1.window ≡ rl.window
  unfolding allow
  window-allow key = window-admit rl key now reaped (get reaped key)

  module _ (key : Text) (end : ℕ) (before : now ≤ end) (after : end ≤ now + rl.window) where
    credit-allow_self :
        admitted (allow rl key now).0 + credit rl.limit end (get (allow rl key now).1.buckets key)
        ≤ credit rl.limit end (get rl.buckets key)
    unfolding allow
    credit-allow_self = omega (
      arith,
      credit-admit_self rl key now end reaped (get reaped key) v.positive before after refl,
      credit-live rl.limit end now (get rl.buckets key) before,
      ap (credit rl.limit end) (get-reaped key),
    )

    credit-allow_other :
        (other : Text)
        → (other == key) ≡ false
        → credit rl.limit end (get (allow rl other now).1.buckets key)
          ≤ credit rl.limit end (get rl.buckets key)
    unfolding allow
    credit-allow_other other ne = omega (
      arith,
      ap (credit rl.limit end) (get-admit_other rl other now reaped (get reaped other) key ne),
      credit-live rl.limit end now (get rl.buckets key) before,
      ap (credit rl.limit end) (get-reaped key),
    )

-- The calls fall between `end - window` and `end`.
abbrev pub WithinWindow : ℕ → ℕ → List (ℕ × Text) → Type 0
WithinWindow window end = All (λ c. (c.0 ≤ end) × (end ≤ c.0 + window))

admissions-le-credit :
    (end : ℕ) (key : Text) (rl : RateLimiter) (calls : List (ℕ × Text))
    → IsValid rl
    → WithinWindow rl.window end calls
    → admissions rl key calls ≤ credit rl.limit end (get rl.buckets key)
unfolding admissions
admissions-le-credit end key rl [] v w = omega arith
admissions-le-credit end key rl ((now, k) ∷ calls) v ((before, after), w) =
    let rl' = (allow rl k now).1 in
    let rest =
      admissions-le-credit end key rl' calls (allow-IsValid rl now v k)
        (rw (window-allow rl now v k) w) in
    elim (Bool-cases (k == key)) [
      | inl same ↦
          let e = (eq_iff k key).0 same in
          ground (
            arith,
            eq_refl key,
            credit-allow_self rl now v key end before after,
            limit-allow rl now v k,
            rest,
          )
      | inr other ↦ ground (
        arith,
        credit-allow_other rl now v key end before after k other,
        limit-allow rl now v k,
        rest,
      )
    ]

credit-le : (limit end : ℕ) (o : Option RateBucket) → credit limit end o ≤ 2 * limit
unfolding credit
credit-le limit end none = omega arith
credit-le limit end (some b) = ground arith

-- From a valid limiter: whatever calls of whatever keys fall in an interval as long as the limiter's
-- window, at most twice `limit` of those of one key are admitted.
pub admissions-le_twice :
    (rl : RateLimiter) (key : Text) (end : ℕ) (calls : List (ℕ × Text))
    → IsValid rl
    → WithinWindow rl.window end calls
    → admissions rl key calls ≤ 2 * rl.limit
admissions-le_twice rl key end calls v w =
    omega (
      arith,
      admissions-le-credit end key rl calls v w,
      credit-le rl.limit end (get rl.buckets key),
    )

-- From a valid limiter in which the key has no bucket: of calls in an interval as long as the
-- limiter's window, at most `limit` of those of the key are admitted.
pub admissions-le_new :
    (rl : RateLimiter) (key : Text) (end : ℕ) (calls : List (ℕ × Text))
    → IsValid rl
    → get rl.buckets key ≡ none
    → WithinWindow rl.window end calls
    → admissions rl key calls ≤ rl.limit
unfolding credit
admissions-le_new rl key end calls v e w = ground (arith, admissions-le-credit end key rl calls v w)
