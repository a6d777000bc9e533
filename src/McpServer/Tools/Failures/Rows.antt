-- ===== src/McpServer/Tools/Failures/Rows.antt =====
-- The merge has one row for each test that failed, and no other.
use buildpulse_mcp.Common.{
  ℕ, ◌≡◌, ◌∙◌, sym, ap, inl, inr, refl, subst, Text, ◌==◌, eq_iff, eq_refl, is_empty, contains,
  false, Bool-cases, ◌||◌, Map, get, get-put, HasDistinctKeys, put-HasDistinctKeys, count, All,
  Option, none, some, Option-cases, List, [], ◌∷◌, arith, if◌then◌else◌,
}
use buildpulse_mcp.McpServer.Wire.{SubmissionLite, FailedTest, RecentFailureOut}
use buildpulse_mcp.McpServer.Tools.Failures.{new_row, merge_tests, tests_of, merge}
use buildpulse_mcp.McpServer.Tools.Failures.Merged.{
  failures_of, summary, first_with, seen_before, with_failure, observe-skipped, observe-fresh,
}

-- The number of rows with a key.
abbrev pub present : {A : Type 0} → Option A → ℕ
present none = 0
present (some a) = 1

abbrev id_of : {N : Type 0} → Option (RecentFailureOut N) → Text
id_of none = []
id_of (some row) = row.test_case_id

module _ {N : Type 0} where
  -- The rows so far have distinct keys, and none of them is empty.
  abbrev IsTable : Map (RecentFailureOut N) → Type 0
  IsTable agg = HasDistinctKeys agg × (get agg [] ≡ none)

  with_failure-IsTable :
      (build_url : Text) (t : FailedTest N) (seen : List Text) (agg : Map (RecentFailureOut N))
      → seen_before build_url t seen agg ≡ false
      → IsTable agg
      → IsTable (with_failure build_url t seen agg)
  unfolding ◌==◌
  with_failure-IsTable build_url t seen agg fresh (distinct, unnamed) = (
    put-HasDistinctKeys agg t.test_case_id _ distinct,
    get-put agg t.test_case_id [] _ ∙ named t.test_case_id _ fresh,
  )
    where
      named :
          (key : Text) (o : Option (RecentFailureOut N))
          → (is_empty key || contains seen key) ≡ false
          → (if key == [] then o else get agg []) ≡ none
      named [] o h = absurd (cc)
      named (c ∷ key) o h = unnamed

  merge_tests-IsTable :
      (build_url : Text) (tests : List (FailedTest N)) (seen : List Text)
      (agg : Map (RecentFailureOut N))
      → IsTable agg
      → IsTable (merge_tests build_url tests (seen, agg)).1
  unfolding merge_tests
  merge_tests-IsTable build_url [] seen agg h = h
  merge_tests-IsTable build_url (t ∷ tests) seen agg h =
      elim (Bool-cases (seen_before build_url t seen agg)) [
        | inl skipped ↦
            subst (λ st. IsTable (merge_tests build_url tests st).1)
              (sym (observe-skipped build_url t seen agg skipped))
              (merge_tests-IsTable build_url tests seen agg h)
        | inr fresh ↦
            subst (λ st. IsTable (merge_tests build_url tests st).1)
              (sym (observe-fresh build_url t seen agg fresh))
              (merge_tests-IsTable build_url tests (t.test_case_id ∷ seen)
                (with_failure build_url t seen agg)
                (with_failure-IsTable build_url t seen agg fresh h))
      ]

  pub merge-IsTable :
      (submissions : List SubmissionLite) (results : List (Option (List (FailedTest N))))
      (agg : Map (RecentFailureOut N))
      → IsTable agg
      → IsTable (merge submissions results agg)
  unfolding merge
  merge-IsTable [] results agg h = h
  merge-IsTable (s ∷ submissions) [] agg h = h
  merge-IsTable (s ∷ submissions) (result ∷ results) agg h =
      merge-IsTable submissions results (merge_tests s.build_url (tests_of result) ([], agg)).1
        (merge_tests-IsTable s.build_url (tests_of result) [] agg h)

  pub entries-get :
      (m : Map (RecentFailureOut N)) → HasDistinctKeys m → All (λ e. get m e.0 ≡ some e.1) m
  unfolding get
  entries-get [] d = tt
  entries-get ((k, v) ∷ m) (fresh, d) = (rw (eq_refl k) refl, weaken m (entries-get m d))
    where
      weaken :
          (rest : Map (RecentFailureOut N))
          → All (λ e. get m e.0 ≡ some e.1) rest
          → All (λ e. get ((k, v) ∷ m) e.0 ≡ some e.1) rest
      weaken [] h = tt
      weaken ((j, w) ∷ rest) (h, hs) = (ground (arith, eq_iff k j), weaken rest hs)

  pub count-get :
      (m : Map (RecentFailureOut N)) (key : Text)
      → HasDistinctKeys m
      → count (λ e. e.0 == key) m ≡ present (get m key)
  unfolding get
  count-get [] key d = refl
  count-get ((k, v) ∷ m) key (fresh, d) = elim (Bool-cases (k == key)) [
    | inl same ↦
        let e : get m key ≡ none = subst (λ x. get m x ≡ none) ((eq_iff k key).0 same) fresh in
        rw (same, count-get m key d, e) refl
    | inr other ↦ rw other (omega (arith, count-get m key d))
  ]

  -- The id in a summary is that of the test.
  first_with-id :
      (key : Text) (tests : List (FailedTest N)) (t : FailedTest N)
      → first_with key tests ≡ some t
      → t.test_case_id ≡ key
  first_with-id key [] t h = absurd (cc)
  first_with-id key (u ∷ tests) t h = elim (Bool-cases (u.test_case_id == key)) [
    | inl same ↦
        let e : u ≡ t = ground arith in
        sym (ap (λ x. x.test_case_id) e) ∙ (eq_iff u.test_case_id key).0 same
    | inr other ↦ first_with-id key tests t (ground arith)
  ]

  pub summary-id :
      (key : Text) (submissions : List SubmissionLite)
      (results : List (Option (List (FailedTest N)))) (row : RecentFailureOut N)
      → summary (failures_of key submissions results) ≡ some row
      → row.test_case_id ≡ key
  unfolding new_row
  summary-id key [] results row h = absurd (cc)
  summary-id key (s ∷ submissions) [] row h = absurd (cc)
  summary-id key (s ∷ submissions) (result ∷ results) row h =
      elim (Option-cases (first_with key (tests_of result))) [
        | inl nothing ↦ summary-id key submissions results row (rw nothing at h)
        | inr (t, found) ↦
            sym (ap id_of (rw found at h)) ∙ first_with-id key (tests_of result) t found
      ]
