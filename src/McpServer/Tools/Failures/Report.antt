-- ===== src/McpServer/Tools/Failures/Report.antt =====
-- What get_recent_failures reports of the results of the submissions.
use buildpulse_mcp.Common.{
  ◌≡◌, ◌≢◌, ◌∙◌, sym, ap, inl, inr, refl, subst, ℕ, Text, ◌==◌, is_empty, is_empty_iff, Bool, false,
  Bool-cases, Map, get, HasDistinctKeys, count, All, Option, none, some, List, [], ◌∷◌, arith,
}
use buildpulse_mcp.McpServer.Wire.{SubmissionLite, FailedTest, RecentFailureOut}
use buildpulse_mcp.McpServer.Platform.{Platform}
use buildpulse_mcp.McpServer.Tools.Failures.{merge, report}
use buildpulse_mcp.McpServer.Tools.Failures.Ranked.{
  IsRanked, sort_recent_failures-All, sort_recent_failures-IsRanked, count-sort_recent_failures,
}
use buildpulse_mcp.McpServer.Tools.Failures.Merged.{failures_of, summary, get-merge, extend-none}
use buildpulse_mcp.McpServer.Tools.Failures.Rows.{
  present, merge-IsTable, entries-get, count-get, summary-id,
}

-- A range loop visits each entry of the map once, in some order.
abbrev pub VisitsOnce :
    {N : Type 0} → (Map (RecentFailureOut N) → List (RecentFailureOut N)) → Type 1
VisitsOnce {N} entries =
    ((P : RecentFailureOut N → Type 0) (m : Map (RecentFailureOut N))
      → All (λ e. P e.1) m
      → All P (entries m))
    × ((p : RecentFailureOut N → Bool) (m : Map (RecentFailureOut N))
        → count p (entries m) ≡ count (λ e. p e.1) m)

module _ {N : Type 0} (submissions : List SubmissionLite)
    (results : List (Option (List (FailedTest N)))) where
  -- The row that a test has, if it failed in a submission with a result.
  abbrev pub expected_row : Text → Option (RecentFailureOut N)
  expected_row key = summary (failures_of key submissions results)

  -- A row of the merge is the expected one of its own id.
  abbrev pub IsExpected : RecentFailureOut N → Type 0
  IsExpected row = (row.test_case_id ≢ []) × (expected_row row.test_case_id ≡ some row)

module _ {N : Type 0} (p : Platform N) (now later : ℕ)
    (entries : Map (RecentFailureOut N) → List (RecentFailureOut N))
    (submissions : List SubmissionLite) (results : List (Option (List (FailedTest N)))) where
  abbrev merged : Map (RecentFailureOut N)
  merged = merge submissions results []

  get-merged :
      (key : Text) → is_empty key ≡ false → get merged key ≡ expected_row submissions results key
  unfolding get
  get-merged key given =
      get-merge key submissions results [] given ∙ extend-none (failures_of key submissions results)

  table : HasDistinctKeys merged × (get merged [] ≡ none)
  unfolding get
  table = merge-IsTable submissions results [] (tt, refl)

  entry-IsExpected :
      (key : Text) (row : RecentFailureOut N)
      → get merged key ≡ some row
      → (IsExpected submissions results) row × (row.test_case_id ≡ key)
  entry-IsExpected key row h = elim (Bool-cases (is_empty key)) [
    | inl unnamed ↦
        let none_there : get merged key ≡ none =
          subst (λ k. get merged k ≡ none) (sym ((is_empty_iff key).0 unnamed)) table.1 in
        absurd (cc)
    | inr named ↦
        let e : expected_row submissions results key ≡ some row = sym (get-merged key named) ∙ h in
        let id = summary-id key submissions results row e in
        (
          (
            λ g. absurd (ground (arith, is_empty_iff key, sym id ∙ g)),
            subst (λ k. expected_row submissions results k ≡ some row) (sym id) e,
          ),
          id,
        )
  ]

  weaken :
      (m : Map (RecentFailureOut N))
      → All (λ e. get merged e.0 ≡ some e.1) m
      → All (λ e. (IsExpected submissions results) e.1) m
  weaken [] h = tt
  weaken ((k, v) ∷ m) (h, hs) = ((entry-IsExpected k v h).0, weaken m hs)

  count-ids :
      (m : Map (RecentFailureOut N)) (key : Text)
      → All (λ e. get merged e.0 ≡ some e.1) m
      → count (λ e. e.1.test_case_id == key) m ≡ count (λ e. e.0 == key) m
  count-ids [] key h = refl
  count-ids ((k, v) ∷ m) key (h, hs) = rw ((entry-IsExpected k v h).1, count-ids m key hs) refl

  abbrev rows : List (RecentFailureOut N)
  rows = (report p now later entries [] [] submissions results).failures

  -- Each test with an id that failed in a submission whose results were fetched has exactly one row,
  -- no other test has a row, and a row shows the details of the test's first result in the first
  -- such submission, with that submission's build URL, and in how many of them the test failed. The
  -- rows are ranked by that number and then by name. The loop over the map can visit it in any order
  -- in which it visits each entry once.
  pub report_rows :
      (key : Text)
      → VisitsOnce entries
      → key ≢ []
      → All (IsExpected submissions results) rows
        × (count (λ r. r.test_case_id == key) rows ≡ present (expected_row submissions results key))
        × IsRanked rows
  unfolding report
  report_rows key (visits, visits_count) named =
      let all = entries-get merged table.0 in
      (
        sort_recent_failures-All (IsExpected submissions results) (entries merged)
            (visits (IsExpected submissions results) merged (weaken merged all)),
        count-sort_recent_failures (λ r. r.test_case_id == key) (entries merged)
            ∙ visits_count (λ r. r.test_case_id == key) merged
            ∙ count-ids merged key all
            ∙ count-get merged key table.0
            ∙ ap present (get-merged key (ground (arith, is_empty_iff key))),
        sort_recent_failures-IsRanked (entries merged),
      )
