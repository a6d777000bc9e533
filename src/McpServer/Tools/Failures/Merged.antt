-- ===== src/McpServer/Tools/Failures/Merged.antt =====
-- What the merge of the submissions' failed tests says of a test.
use buildpulse_mcp.Common.{
  ◌+◌, ◌≡◌, ◌∙◌, ap, inl, inr, refl, Text, ◌==◌, eq_iff, is_empty, contains, Bool, true, false,
  Bool-cases, ◌||◌, Map, get, put, get-put, length, Option, none, some, List, [], ◌∷◌, arith,
  if◌then◌else◌,
}
use buildpulse_mcp.McpServer.Wire.{SubmissionLite, FailedTest, RecentFailureOut}
use buildpulse_mcp.McpServer.Tools.Failures.{
  new_row, found_or, counted, observe, merge_tests, tests_of, merge,
}

module _ {N : Type 0} where
  -- The first result of a test in a submission.
  abbrev pub first_with : Text → List (FailedTest N) → Option (FailedTest N)
  first_with key [] = none
  first_with key (t ∷ tests) = if t.test_case_id == key then some t else first_with key tests

  abbrev pub occurrence :
      Text → Option (FailedTest N) → List (Text × FailedTest N) → List (Text × FailedTest N)
  occurrence build_url none more = more
  occurrence build_url (some t) more = (build_url, t) ∷ more

  -- The submissions in which a test failed, as their build URLs, with its first result in each.
  abbrev pub failures_of :
      Text → List SubmissionLite → List (Option (List (FailedTest N))) → List (Text × FailedTest N)
  failures_of key (s ∷ submissions) (result ∷ results) =
      occurrence s.build_url (first_with key (tests_of result))
        (failures_of key submissions results)
  failures_of key _ _ = []

  -- The row of a test: the details of its first failure, and how many there are.
  abbrev pub summary : List (Text × FailedTest N) → Option (RecentFailureOut N)
  summary [] = none
  summary ((build_url, t) ∷ more) = some (record {
    test_case_id = t.test_case_id;
    name = t.name;
    suite = t.suite;
    class = t.class;
    file = t.file;
    failure_count = length more + 1;
    most_recent_ran_at = t.ran_at;
    most_recent_build_url = build_url;
    most_recent_message = t.message;
    most_recent_body = t.body;
    most_recent_duration_us = t.duration_us;
  })

  abbrev after :
      Text → Option (FailedTest N) → Option (RecentFailureOut N) → Option (RecentFailureOut N)
  after build_url none o = o
  after build_url (some t) o = some (counted (found_or (new_row build_url t) o))

  module _ (build_url : Text) (t : FailedTest N) (seen : List Text)
      (agg : Map (RecentFailureOut N)) where
    abbrev pub seen_before : Bool
    seen_before = is_empty t.test_case_id || contains seen t.test_case_id

    pub observe-skipped : seen_before ≡ true → observe build_url t (seen, agg) ≡ (seen, agg)
    unfolding observe
    observe-skipped h = rw h refl

    abbrev pub with_failure : Map (RecentFailureOut N)
    with_failure =
        put agg t.test_case_id (counted (found_or (new_row build_url t) (get agg t.test_case_id)))

    pub observe-fresh :
        seen_before ≡ false
        → observe build_url t (seen, agg) ≡ (t.test_case_id ∷ seen, with_failure)
    unfolding observe
    observe-fresh h = rw h refl

    -- Of the test `key` this is whether it was seen.
    seen_before-eq :
        (key : Text) → is_empty key ≡ false → t.test_case_id ≡ key → seen_before ≡ contains seen key
    seen_before-eq key given e =
        ap (λ x. is_empty x || contains seen x) e ∙ ap (λ b. b || contains seen key) given

    pub merge_tests-cons :
        (tests : List (FailedTest N))
        → merge_tests build_url (t ∷ tests) (seen, agg)
          ≡ merge_tests build_url tests (observe build_url t (seen, agg))
    unfolding merge_tests
    merge_tests-cons tests = refl

  -- The tests of a submission add its first result to the row, unless the test was seen already.
  get-merge_tests :
      (build_url key : Text) (tests : List (FailedTest N)) (seen : List Text)
      (agg : Map (RecentFailureOut N))
      → is_empty key ≡ false
      → get (merge_tests build_url tests (seen, agg)).1 key ≡ (
          if contains seen key
          then get agg key
          else after build_url (first_with key tests) (get agg key))
  unfolding merge_tests contains
  get-merge_tests build_url key [] seen agg given = ground arith
  get-merge_tests build_url key (t ∷ tests) seen agg given =
      elim (Bool-cases (seen_before build_url t seen agg)) [
        | inl skipped ↦
            rw
              (
                merge_tests-cons build_url t seen agg tests,
                observe-skipped build_url t seen agg skipped,
                get-merge_tests build_url key tests seen agg given,
              )
              (elim (Bool-cases (t.test_case_id == key)) [
                | inr other ↦ rw other refl
                | inl same ↦
                    let e =
                      seen_before-eq build_url t seen agg key given
                        ((eq_iff t.test_case_id key).0 same) in
                    let seen_it : contains seen key ≡ true = cc in rw seen_it refl
              ])
        | inr fresh ↦
            rw
              (
                merge_tests-cons build_url t seen agg tests,
                observe-fresh build_url t seen agg fresh,
                get-merge_tests build_url key tests (t.test_case_id ∷ seen)
                    (with_failure build_url t seen agg) given,
                get-put agg t.test_case_id key
                    (counted (found_or (new_row build_url t) (get agg t.test_case_id))),
              )
              (elim (Bool-cases (t.test_case_id == key)) [
                | inr other ↦ rw other refl
                | inl same ↦
                    let k = (eq_iff t.test_case_id key).0 same in
                    let e = seen_before-eq build_url t seen agg key given k in
                    let new : contains seen key ≡ false = cc in rw (same, new, k) refl
              ])
      ]

  abbrev pub extend :
      List (Text × FailedTest N) → Option (RecentFailureOut N) → Option (RecentFailureOut N)
  extend [] o = o
  extend ((build_url, t) ∷ more) o = extend more (after build_url (some t) o)

  extend-some :
      (more : List (Text × FailedTest N)) (row : RecentFailureOut N)
      → extend more (some row)
        ≡ some (record row { failure_count = row.failure_count + length more })
  extend-some [] row = ap some (ap (λ n. record row { failure_count = n }) (omega arith))
  extend-some ((build_url, t) ∷ more) row =
      extend-some more (counted row)
      ∙ ap some (ap (λ n. record row { failure_count = n }) (omega arith))

  pub extend-none : (fs : List (Text × FailedTest N)) → extend fs none ≡ summary fs
  unfolding new_row
  extend-none [] = refl
  extend-none ((build_url, t) ∷ more) =
      extend-some more (counted (new_row build_url t))
      ∙ ap some (ap (λ n. record (new_row build_url t) { failure_count = n }) (omega arith))

  pub get-merge :
      (key : Text) (submissions : List SubmissionLite)
      (results : List (Option (List (FailedTest N)))) (agg : Map (RecentFailureOut N))
      → is_empty key ≡ false
      → get (merge submissions results agg) key
        ≡ extend (failures_of key submissions results) (get agg key)
  unfolding merge contains
  get-merge key [] results agg given = refl
  get-merge key (s ∷ submissions) [] agg given = refl
  get-merge key (s ∷ submissions) (result ∷ results) agg given =
      get-merge key submissions results (merge_tests s.build_url (tests_of result) ([], agg)).1
        given
      ∙ ap (extend (failures_of key submissions results))
          (get-merge_tests s.build_url key (tests_of result) [] agg given)
      ∙ occurrence-extend (first_with key (tests_of result))
    where
      occurrence-extend :
          (found : Option (FailedTest N))
          → extend (failures_of key submissions results) (after s.build_url found (get agg key))
            ≡ extend
                (occurrence s.build_url found (failures_of key submissions results))
                (get agg key)
      occurrence-extend none = refl
      occurrence-extend (some t) = refl
