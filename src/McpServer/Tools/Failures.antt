-- ===== src/McpServer/Tools/Failures.antt =====
-- get_recent_failures in internal/mcpserver/tools.go: the failed tests of the recent runs, merged
-- and ranked.
pub mod Ranked
pub mod Merged
pub mod Rows
pub mod Report
pub mod Outcome
use buildpulse_mcp.Common.{
  ℕ, ◌+◌, Text, codes, ◌==◌, is_empty, contains, Map, get, put, length, eqb, ltb, ◌&&◌, ◌||◌,
  Option, none, some, Bool, true, false, List, [], ◌∷◌, ◌++◌, map, Result, ok, err, if◌then◌else◌,
}
use buildpulse_mcp.McpServer.Validate.{ℤ, pos, validate_repo_part, validate_submissions_window}
use buildpulse_mcp.McpServer.Wire.{
  SubmissionLite, FailedTest, RecentFailuresInput, RecentFailureOut, RecentFailuresOutput,
}
use buildpulse_mcp.McpServer.Platform.{Platform, Request, get_json}
use buildpulse_mcp.McpServer.Tool.{
  Session, Tool, pure, ◌>>=◌, ◌>>◌, check, check_none, add_org_param, get_json_tool, resolve_org_id,
}
use buildpulse_mcp.McpServer.Tools.{in_window, link, submissions_path, repo_path}
use buildpulse_mcp.McpServer.Tools.Fetch.{fetch_all}

-- a < b of two strings
unfoldable pub text_lt : Text → Text → Bool
text_lt s [] = false
text_lt [] (y ∷ t) = true
text_lt (x ∷ s) (y ∷ t) = ltb x y || (eqb x y && text_lt s t)

module _ {N : Type 0} where
  -- the order of sortRecentFailures
  unfoldable pub before : RecentFailureOut N → RecentFailureOut N → Bool
  before a b =
      if eqb a.failure_count b.failure_count
      then text_lt a.name b.name
      else ltb b.failure_count a.failure_count

  -- In front of the first row that does not come before it.
  unfoldable pub insert : RecentFailureOut N → List (RecentFailureOut N) → List (RecentFailureOut N)
  insert r [] = r ∷ []
  insert r (s ∷ rows) = let rest = insert r rows in if before s r then s ∷ rest else r ∷ s ∷ rows

  -- sort.SliceStable
  unfoldable pub sort_recent_failures : List (RecentFailureOut N) → List (RecentFailureOut N)
  sort_recent_failures [] = []
  sort_recent_failures (r ∷ rows) = insert r (sort_recent_failures rows)

  unfoldable pub new_row : Text → FailedTest N → RecentFailureOut N
  new_row build_url t = record {
    test_case_id = t.test_case_id;
    name = t.name;
    suite = t.suite;
    class = t.class;
    file = t.file;
    failure_count = 0;
    most_recent_ran_at = t.ran_at;
    most_recent_build_url = build_url;
    most_recent_message = t.message;
    most_recent_body = t.body;
    most_recent_duration_us = t.duration_us;
  }

  abbrev pub found_or : RecentFailureOut N → Option (RecentFailureOut N) → RecentFailureOut N
  found_or new none = new
  found_or new (some row) = row

  abbrev pub counted : RecentFailureOut N → RecentFailureOut N
  counted row = record row { failure_count = row.failure_count + 1 }

  -- One test of a submission, with the ids that were seen in it and the rows so far.
  unfoldable pub observe :
      Text
      → FailedTest N
      → List Text × Map (RecentFailureOut N)
      → List Text × Map (RecentFailureOut N)
  observe build_url t (seen, agg) =
      if is_empty t.test_case_id || contains seen t.test_case_id then (seen, agg) else (
        t.test_case_id ∷ seen,
        put agg t.test_case_id (counted (found_or (new_row build_url t) (get agg t.test_case_id))),
      )

  unfoldable pub merge_tests :
      Text
      → List (FailedTest N)
      → List Text × Map (RecentFailureOut N)
      → List Text × Map (RecentFailureOut N)
  merge_tests build_url [] state = state
  merge_tests build_url (t ∷ tests) state = merge_tests build_url tests (observe build_url t state)

  -- a result that is not ok is skipped
  abbrev pub tests_of : Option (List (FailedTest N)) → List (FailedTest N)
  tests_of none = []
  tests_of (some tests) = tests

  unfoldable pub merge :
      List SubmissionLite
      → List (Option (List (FailedTest N)))
      → Map (RecentFailureOut N)
      → Map (RecentFailureOut N)
  unfolding merge_tests
  merge (s ∷ submissions) (result ∷ results) agg =
      merge submissions results (merge_tests s.build_url (tests_of result) ([], agg)).1
  merge _ _ agg = agg

-- limit
abbrev pub inspected_limit : ℤ → ℤ
inspected_limit submissions = if in_window 50 submissions then submissions else pos 10

-- Each submission with the number of its request.
abbrev pub numbered : ℕ → List SubmissionLite → List (ℕ × SubmissionLite)
numbered n [] = []
numbered n (s ∷ submissions) = (n, s) ∷ numbered (n + 1) submissions

abbrev value_of : {E A : Type 0} → Result E A → Option A
value_of (ok a) = some a
value_of (err e) = none

-- `entries` lists a map in the order in which a range loop visits it.
module _ {N : Type 0} (p : Platform N) (now later : ℕ)
    (entries : Map (RecentFailureOut N) → List (RecentFailureOut N)) where
  abbrev pub failed_params : Text → Map Text
  failed_params org_id =
      add_org_param ((codes "limit", codes "100") ∷ (codes "status", codes "failed") ∷ []) org_id

  abbrev pub tests_request : Text → Text → Text → SubmissionLite → Request
  tests_request owner name org_id s = record {
    path = submissions_path p owner name ++ codes "/" ++ p.path_escape s.id ++ codes "/tests";
    params = failed_params org_id;
  }

  abbrev pub fetch_failed : Text → Text → Text → ℕ × SubmissionLite → Option (List (FailedTest N))
  fetch_failed owner name org_id (n, s) =
      value_of (get_json p p.failed_tests n (tests_request owner name org_id s))

  -- The goroutines' requests are numbered in the order of the submissions.
  unfoldable pub fetch_failures :
      Text → Text → Text → List SubmissionLite → Tool (List (Option (List (FailedTest N))))
  fetch_failures owner name org_id submissions s = (
    ok (fetch_all (fetch_failed owner name org_id) (numbered (length s.requests) submissions)),
    record s { requests = s.requests ++ map (tests_request owner name org_id) submissions },
  )

  unfoldable pub report :
      Text
      → Text
      → List SubmissionLite
      → List (Option (List (FailedTest N)))
      → RecentFailuresOutput N
  report owner name submissions results =
      let failures = entries (merge submissions results []) in
      record {
        owner = owner;
        name = name;
        submissions_inspected = length submissions;
        unique_tests_failed = length failures;
        failures = sort_recent_failures failures;
        web_url = link p (codes "/repos/" ++ repo_path p owner name ++ codes "/builds");
      }

  abbrev pub submissions_request : RecentFailuresInput → Text → Text → Text → Request
  submissions_request i owner name org_id = record {
    path = submissions_path p owner name;
    params = add_org_param ((codes "limit", p.itoa (inspected_limit i.submissions)) ∷ []) org_id;
  }

  unfoldable pub get_recent_failures : RecentFailuresInput → Tool (RecentFailuresOutput N)
  get_recent_failures i = do
    owner ← check (validate_repo_part i.owner "owner")
    name ← check (validate_repo_part i.name "name")
    check_none (validate_submissions_window i.submissions)
    org_id ← resolve_org_id p now later i.organization_id
    submissions ← get_json_tool p p.submission_ids (submissions_request i owner name org_id)
    results ← fetch_failures owner name org_id submissions
    pure (report owner name submissions results)
