-- ===== src/McpServer/Tools/Failures/Ranked.antt =====
-- sortRecentFailures puts the rows in order and keeps them.
use buildpulse_mcp.Common.{
  ℕ, ◌+◌, ◌<◌, ◌≡◌, ◌⊎◌, subst, eqb, eqb_iff, inl, inr, refl, Text, Bool, true, false, Bool-cases,
  count, All, List, [], ◌∷◌, arith, if◌then◌else◌,
}
use buildpulse_mcp.McpServer.Wire.{RecentFailureOut}
use buildpulse_mcp.McpServer.Tools.Failures.{text_lt, before, insert, sort_recent_failures}

text_lt_trans : (s t u : Text) → text_lt t s ≡ false → text_lt u t ≡ false → text_lt u s ≡ false
unfolding text_lt
text_lt_trans [] [] u h g = g
text_lt_trans [] (y ∷ t) [] h g = refl
text_lt_trans [] (y ∷ t) (z ∷ u) h g = refl
text_lt_trans (x ∷ s) [] u h g = ground arith
text_lt_trans (x ∷ s) (y ∷ t) [] h g = ground arith
text_lt_trans (x ∷ s) (y ∷ t) (z ∷ u) h g = ground (arith, text_lt_trans s t u)

text_lt_asym : (s t : Text) → text_lt s t ≡ true → text_lt t s ≡ false
unfolding text_lt
text_lt_asym [] [] h = refl
text_lt_asym [] (y ∷ t) h = refl
text_lt_asym (x ∷ s) [] h = ground arith
text_lt_asym (x ∷ s) (y ∷ t) h = ground (arith, text_lt_asym s t)

-- The order of texts by their first byte that differs, a shorter text before its extensions.
pub data TextLe : Text → Text → Type 0 where
  shorter : {t : Text} → TextLe [] t
  smaller : {x y : ℕ} {s t : Text} → x < y → TextLe (x ∷ s) (y ∷ t)
  same_first : {x : ℕ} {s t : Text} → TextLe s t → TextLe (x ∷ s) (x ∷ t)

text_lt-TextLe : (s t : Text) → text_lt t s ≡ false → TextLe s t
unfolding text_lt
text_lt-TextLe [] t h = shorter
text_lt-TextLe (x ∷ s) [] h = absurd (cc)
text_lt-TextLe (x ∷ s) (y ∷ t) h = elim (Bool-cases (eqb x y)) [
  | inl same ↦
      subst (λ z. TextLe (x ∷ s) (z ∷ t)) ((eqb_iff x y).0 same)
        (same_first (text_lt-TextLe s t (ground (arith, eqb_iff x y))))
  | inr other ↦ smaller (ground (arith, eqb_iff x y))
]

module _ {N : Type 0} where
  before_trans :
      (a b c : RecentFailureOut N) → before b a ≡ false → before c b ≡ false → before c a ≡ false
  unfolding before
  before_trans a b c h g = ground (arith, text_lt_trans a.name b.name c.name)

  before_asym : (a b : RecentFailureOut N) → before a b ≡ true → before b a ≡ false
  unfolding before
  before_asym a b h = ground (arith, text_lt_asym a.name b.name)

  -- The first row has more failures, or as many and a name that is not later.
  abbrev pub RanksOver : RecentFailureOut N → RecentFailureOut N → Type 0
  RanksOver r s =
      (s.failure_count < r.failure_count)
      ⊎ ((s.failure_count ≡ r.failure_count) × TextLe r.name s.name)

  -- Each row ranks over all that follow it.
  abbrev pub IsRanked : List (RecentFailureOut N) → Type 0
  IsRanked [] = Unit
  IsRanked (r ∷ rows) = All (RanksOver r) rows × IsRanked rows

  -- No row comes before one that stands in front of it.
  abbrev IsInOrder : List (RecentFailureOut N) → Type 0
  IsInOrder [] = Unit
  IsInOrder (r ∷ rows) = All (λ s. before s r ≡ false) rows × IsInOrder rows

  before-RanksOver : (r s : RecentFailureOut N) → before s r ≡ false → RanksOver r s
  unfolding before
  before-RanksOver r s h = elim (Bool-cases (eqb s.failure_count r.failure_count)) [
    | inl same ↦ inr (ground arith, text_lt-TextLe r.name s.name (rw same at h))
    | inr other ↦ inl (ground arith)
  ]

  module _ (P : RecentFailureOut N → Type 0) where
    insert-All :
        (r : RecentFailureOut N) (rows : List (RecentFailureOut N))
        → P r
        → All P rows
        → All P (insert r rows)
    unfolding insert
    insert-All r [] h hs = (h, tt)
    insert-All r (s ∷ rows) h (g, hs) = elim (Bool-cases (before s r)) [
      | inl after ↦ rw after (g, insert-All r rows h hs)
      | inr here ↦ rw here (h, (g, hs))
    ]

    pub sort_recent_failures-All :
        (rows : List (RecentFailureOut N)) → All P rows → All P (sort_recent_failures rows)
    unfolding sort_recent_failures
    sort_recent_failures-All [] h = tt
    sort_recent_failures-All (r ∷ rows) (h, hs) =
        insert-All r (sort_recent_failures rows) h (sort_recent_failures-All rows hs)

  All-weaker :
      (P Q : RecentFailureOut N → Type 0) (rows : List (RecentFailureOut N))
      → ((s : RecentFailureOut N) → P s → Q s)
      → All P rows
      → All Q rows
  All-weaker P Q [] f h = tt
  All-weaker P Q (r ∷ rows) f (h, hs) = (f r h, All-weaker P Q rows f hs)

  insert-IsInOrder :
      (r : RecentFailureOut N) (rows : List (RecentFailureOut N))
      → IsInOrder rows
      → IsInOrder (insert r rows)
  unfolding insert
  insert-IsInOrder r [] h = (tt, tt)
  insert-IsInOrder r (s ∷ rows) (least, h) = elim (Bool-cases (before s r)) [
    | inl after ↦ rw after (
      insert-All (λ x. before x s ≡ false) r rows (before_asym s r after) least,
      insert-IsInOrder r rows h,
    )
    | inr here ↦ rw here (
      (
        here,
        All-weaker (λ x. before x s ≡ false) (λ x. before x r ≡ false) rows
            (λ x g. before_trans r s x here g) least,
      ),
      (least, h),
    )
  ]

  sort_recent_failures-IsInOrder :
      (rows : List (RecentFailureOut N)) → IsInOrder (sort_recent_failures rows)
  unfolding sort_recent_failures
  sort_recent_failures-IsInOrder [] = tt
  sort_recent_failures-IsInOrder (r ∷ rows) =
      insert-IsInOrder r (sort_recent_failures rows) (sort_recent_failures-IsInOrder rows)

  IsInOrder-IsRanked : (rows : List (RecentFailureOut N)) → IsInOrder rows → IsRanked rows
  IsInOrder-IsRanked [] h = tt
  IsInOrder-IsRanked (r ∷ rows) (least, h) = (
    All-weaker (λ s. before s r ≡ false) (RanksOver r) rows (before-RanksOver r) least,
    IsInOrder-IsRanked rows h,
  )

  pub sort_recent_failures-IsRanked :
      (rows : List (RecentFailureOut N)) → IsRanked (sort_recent_failures rows)
  sort_recent_failures-IsRanked rows =
      IsInOrder-IsRanked (sort_recent_failures rows) (sort_recent_failures-IsInOrder rows)

  count-insert :
      (p : RecentFailureOut N → Bool) (r : RecentFailureOut N) (rows : List (RecentFailureOut N))
      → count p (insert r rows) ≡ (if p r then 1 else 0) + count p rows
  unfolding insert
  count-insert p r [] = refl
  count-insert p r (s ∷ rows) = elim (Bool-cases (before s r)) [
    | inl after ↦ rw after (omega (arith, count-insert p r rows))
    | inr here ↦ rw here refl
  ]

  pub count-sort_recent_failures :
      (p : RecentFailureOut N → Bool) (rows : List (RecentFailureOut N))
      → count p (sort_recent_failures rows) ≡ count p rows
  unfolding sort_recent_failures
  count-sort_recent_failures p [] = refl
  count-sort_recent_failures p (r ∷ rows) =
      omega (arith, count-insert p r (sort_recent_failures rows), count-sort_recent_failures p rows)
