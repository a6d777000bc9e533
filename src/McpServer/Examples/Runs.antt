-- ===== src/McpServer/Examples/Runs.antt =====
-- The theorems about the report of recent failures on small inputs.
use buildpulse_mcp.Common.{
  ℕ, ◌+◌, ◌*◌, ◌%◌, eqb, if◌then◌else◌, ◌≤◌, ◌≡◌, ◌≢◌, ◌⊎◌, refl, Text, codes, ◌==◌, count, All,
  map, Bool, true, ok, length, trim_space, trim_left, contains_text, contains_byte, has_prefix, Map,
  Option, none, some, List, [], ◌∷◌, arith,
}
use buildpulse_mcp.McpServer.Validate.{
  pos, validate_repo_part, has_control, validate_submissions_window, validate_organization_id,
}
use buildpulse_mcp.McpServer.Client.{cached_organizations, resolve_api_url}
use buildpulse_mcp.McpServer.Platform.{
  Platform, answered, get_json, get_request, request_url, read_answer, special_status,
}
use buildpulse_mcp.McpServer.Tool.{Session, start, resolve_org_id, look_up, get_json_tool}
use buildpulse_mcp.McpServer.Tools.Failures.Outcome.{Returned, get_recent_failures_rows}
use buildpulse_mcp.McpServer.Wire.{
  RecentFailuresInput, RecentFailuresOutput, SubmissionLite, FailedTest, RecentFailureOut,
}
use buildpulse_mcp.McpServer.Tools.Fetch.{
  max_concurrent_fetches, finished, Task, spawn, holders, results, move, run, fetch_all,
}
use buildpulse_mcp.McpServer.Tools.Fetch.Schedules.{CanMove, schedules_end}
use buildpulse_mcp.McpServer.Tools.Failures.{report, get_recent_failures, fetch_failures}
use buildpulse_mcp.McpServer.Tools.Failures.Ranked.{IsRanked}
use buildpulse_mcp.McpServer.Tools.Failures.Rows.{present}
use buildpulse_mcp.McpServer.Tools.Failures.Report.{VisitsOnce, expected_row, IsExpected}
use buildpulse_mcp.McpServer.Examples.Platform.{small}

-- An even item has a result.
abbrev fetch : ℕ → Option ℕ
fetch n = if eqb (n % 2) 0 then some (n + 1) else none

abbrev ended : List (Task ℕ ℕ)
ended =
    record { item = 4; phase = finished; slot = some 5 }
    ∷ record { item = 3; phase = finished; slot = none }
    ∷ []

runs : run fetch (1 ∷ 0 ∷ 1 ∷ 0 ∷ 0 ∷ 1 ∷ []) (map spawn (4 ∷ 3 ∷ [])) ≡ some ended
unfolding run move
runs = refl

schedules_end_example :
    (6 ≤ 3 * 2)
    × (holders ended ≤ max_concurrent_fetches)
    × (CanMove fetch (holders ended) ended
        ⊎ ((◌≡◌ {A = ℕ} 6 (3 * 2)) × (results ended ≡ fetch_all fetch (4 ∷ 3 ∷ []))))
schedules_end_example = schedules_end fetch (4 ∷ 3 ∷ []) (1 ∷ 0 ∷ 1 ∷ 0 ∷ 0 ∷ 1 ∷ []) ended runs

abbrev listed : Map (RecentFailureOut ℕ) → List (RecentFailureOut ℕ)
listed rows = map (λ e. e.1) rows

listed-All :
    (P : RecentFailureOut ℕ → Type 0) (m : Map (RecentFailureOut ℕ))
    → All (λ e. P e.1) m
    → All P (listed m)
listed-All P [] h = tt
listed-All P (e ∷ m) (h, hs) = (h, listed-All P m hs)

count-listed :
    (p : RecentFailureOut ℕ → Bool) (m : Map (RecentFailureOut ℕ))
    → count p (listed m) ≡ count (λ e. p e.1) m
count-listed p [] = refl
count-listed p (e ∷ m) = omega (arith, count-listed p m)

listed-VisitsOnce : VisitsOnce listed
listed-VisitsOnce = (listed-All, count-listed)

abbrev failed : Text → Text → FailedTest ℕ
failed id name = record {
  test_case_id = id;
  name = name;
  suite = [];
  class = [];
  file = [];
  duration_us = 1;
  message = none;
  body = none;
  ran_at = [];
}

abbrev two_runs : List SubmissionLite
two_runs =
    record { id = codes "1"; build_url = codes "u1" }
    ∷ record { id = codes "2"; build_url = codes "u2" }
    ∷ []

abbrev two_results : List (Option (List (FailedTest ℕ)))
two_results =
    some (failed (codes "x") (codes "X") ∷ [])
    ∷ some (failed (codes "y") (codes "Y") ∷ failed (codes "x") (codes "X2") ∷ [])
    ∷ []

named : codes "x" ≢ []
named h = absurd (cc)

-- A platform with two runs, in each of which the test "x" failed.
abbrev running : Platform ℕ
running = record small {
  submission_ids = λ t. some two_runs;
  failed_tests = λ t. some (failed (codes "x") (codes "X") ∷ []);
  send = λ n u. answered 200 [] [];
}

abbrev single : Session
single = start (record { orgs = []; cached = true; expires = 100 })

abbrev input : RecentFailuresInput
input = record { owner = codes "acme"; name = codes "w"; organization_id = []; submissions = pos 0 }

abbrev out : RecentFailuresOutput ℕ
out =
    report running 5 6 listed (codes "acme") (codes "w") two_runs
      (some (failed (codes "x") (codes "X") ∷ []) ∷ some (failed (codes "x") (codes "X") ∷ []) ∷ [])

returns : (get_recent_failures running 5 6 listed input single).0 ≡ ok out
unfolding get_recent_failures validate_repo_part trim_space trim_left contains_text contains_byte
    has_prefix has_control validate_submissions_window resolve_org_id validate_organization_id
    cached_organizations look_up get_json_tool get_json get_request request_url resolve_api_url
    read_answer special_status fetch_failures fetch_all report ◌==◌
returns = refl

get_recent_failures_rows_example :
    (r : Returned running 5 6 listed input single out) × All
      (IsExpected r.submissions r.fetched)
      out.failures
    × (count (λ row. row.test_case_id == codes "x") out.failures
        ≡ present (expected_row r.submissions r.fetched (codes "x")))
    × IsRanked out.failures
    × (out.submissions_inspected ≡ length r.submissions)
get_recent_failures_rows_example =
    get_recent_failures_rows running 5 6 listed input single out (codes "x") listed-VisitsOnce named
      returns
