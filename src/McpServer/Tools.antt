-- ===== src/McpServer/Tools.antt =====
-- The tools that read an inventory or a list of runs, internal/mcpserver/tools.go.
pub mod Failures
pub mod Fetch
pub mod Runners
pub mod Registered
use buildpulse_mcp.Common.{
  ℕ, ◌+◌, Text, codes, ◌==◌, is_empty, Map, put, length, map, ltb, leb, not, ◌&&◌, Option, none,
  some, Bool, true, false, List, [], ◌∷◌, ◌++◌, Result, ok, err, if◌then◌else◌,
}
use buildpulse_mcp.McpServer.Validate.{
  ℤ, pos, negsuc, validate_repo_part, validate_object_id, validate_optional_limit,
}
use buildpulse_mcp.McpServer.Wire.{
  Organization, Repository, RepositoryOut, FlakyTest, FlakyTestOut, FindFlakyInput, FindFlakyOutput,
  FlakyTests, TestHistoryOutput, DisruptionEvent, Submission, Page, SubmissionsInput,
  SubmissionsOutput, TestResult, TestResultsInput, TestResultsOutput, MetricInput, MetricOutput,
}
use buildpulse_mcp.McpServer.Platform.{Platform, Request}
use buildpulse_mcp.McpServer.Badges.{
  web_url, percent_from_badge_svg, flakiness_color, coverage_color,
}
use buildpulse_mcp.McpServer.Tool.{
  Tool, bad_since, pure, fail, ◌>>=◌, ◌>>◌, check, check_none, add_org_param, roster_request,
  get_tool, get_json_tool, resolve_org_id,
}

abbrev pub in_window : ℕ → ℤ → Bool
in_window max (pos n) = ltb 0 n && leb n max
in_window max (negsuc n) = false

abbrev text_of_bool : Bool → Text
text_of_bool b = if b then codes "true" else codes "false"

-- strings.Join
unfoldable pub join : Text → List Text → Text
join sep [] = []
join sep (t ∷ []) = t
join sep (t ∷ u ∷ ts) = t ++ sep ++ join sep (u ∷ ts)

abbrev listed : Bool → Text → List Text
listed given t = if given then t ∷ [] else []

abbrev has_items : List Text → Bool
has_items [] = false
has_items (t ∷ ts) = true

-- the texts of qParts, without a check of the date
unfoldable pub query_parts : FindFlakyInput → List Text
query_parts i =
    listed (not (is_empty i.since_date)) (codes "last-seen:>=" ++ i.since_date)
    ++ listed (has_items i.tags) (codes "tags:" ++ join (codes ",") i.tags)
    ++ listed (not (is_empty i.search)) i.search

abbrev pub put_if : Bool → Text → Text → Map Text → Map Text
put_if given key value params = if given then put params key value else params

abbrev pub flaky_includes : Text
flaky_includes =
    codes
      "disruptiveness_ratio,nondeterministic_negative_result_count,nondeterminism_first_recorded_at,tags,time_consumed,pass_rate,avg_duration_ms"

module _ {N : Type 0} (p : Platform N) where
  abbrev pub link : Text → Text
  link path = web_url p.base_url path

  abbrev pub put_limit : ℤ → Map Text → Map Text
  put_limit limit params = put_if (in_window 100 limit) (codes "limit") (p.itoa limit) params

  unfoldable pub list_my_organizations : Tool (List Organization)
  list_my_organizations = get_json_tool p p.organizations roster_request

  abbrev repository_out : Repository → RepositoryOut
  repository_out r = record {
    id = r.id;
    name = r.name;
    full_name = r.full_name;
    url = r.url;
    description = r.description;
    web_url = link (codes "/repos/" ++ p.path_escape r.name);
  }

  abbrev flaky_test_out : FlakyTest N → FlakyTestOut N
  flaky_test_out t = record {
    id = t.id;
    name = t.name;
    suite = t.suite;
    class = t.class;
    file = t.file;
    disruptor_type = t.disruptor_type;
    disruptiveness_ratio = t.disruptiveness_ratio;
    disruption_count = t.disruption_count;
    first_disruption_at = t.first_disruption_at;
    tags = t.tags;
    time_consumed = t.time_consumed;
    pass_rate = t.pass_rate;
    avg_duration_ms = t.avg_duration_ms;
    web_url = link (codes "/tests/" ++ p.path_escape t.id);
  }

  abbrev pub flaky_params : FindFlakyInput → Text → Text → Map Text
  flaky_params i repo org_id =
      put_if (has_items (query_parts i)) (codes "q") (join (codes " ") (query_parts i)) (
        put
          (put_if (i.sort == codes "recency") (codes "sort") (codes "recency") (
            put_limit i.limit (
              add_org_param
                (put (put [] (codes "repository") repo) (codes "include") flaky_includes) org_id)))
          (codes "quarantine") (text_of_bool i.quarantined))

  abbrev pub check_since : Text → Tool (Unit {0})
  check_since date =
      if not (is_empty date) && not (p.is_date date) then fail (bad_since date) else pure tt

  -- /owner/name, escaped
  abbrev pub repo_path : Text → Text → Text
  repo_path owner name = p.path_escape owner ++ codes "/" ++ p.path_escape name

  abbrev pub submissions_path : Text → Text → Text
  submissions_path owner name = codes "/api/repos/" ++ repo_path owner name ++ codes "/submissions"

-- `now` and `later` are the times around a look-up of the organizations.
module _ {N : Type 0} (p : Platform N) (now later : ℕ) where
  unfoldable pub list_repositories : Text → Tool (List RepositoryOut)
  list_repositories organization_id = do
    org_id ← resolve_org_id p now later organization_id
    repositories ←
        get_json_tool p p.repositories
          (record { path = codes "/api/me/repositories"; params = add_org_param [] org_id })
    pure (map (repository_out p) repositories)

  unfoldable pub find_flaky_tests : FindFlakyInput → Tool (FindFlakyOutput N)
  unfolding query_parts
  find_flaky_tests i = do
    repo ← check (validate_repo_part i.repository "repository")
    check_none (validate_optional_limit 100 i.limit)
    org_id ← resolve_org_id p now later i.organization_id
    check_since p i.since_date
    found ←
        get_json_tool p p.flaky_tests
          (record { path = codes "/api/v1/flaky/tests"; params = flaky_params p i repo org_id })
    pure (record {
      repository = repo;
      count = found.count;
      tests = map (flaky_test_out p) found.tests;
      web_url = link p (codes "/flaky-tests?repository=" ++ p.query_escape repo);
    })

  unfoldable pub get_test_history : Text → Text → Tool TestHistoryOutput
  get_test_history raw_id organization_id = do
    test_id ← check (validate_object_id raw_id "test_id")
    org_id ← resolve_org_id p now later organization_id
    events ← get_json_tool p p.disruption_events (record {
      path = codes "/api/tests/" ++ p.path_escape test_id ++ codes "/results";
      params = add_org_param [] org_id;
    })
    pure (record {
      test_id = test_id;
      count = length events;
      events = events;
      web_url = link p (codes "/tests/" ++ p.path_escape test_id);
    })

  unfoldable pub list_recent_submissions : SubmissionsInput → Tool (SubmissionsOutput N)
  list_recent_submissions i = do
    owner ← check (validate_repo_part i.owner "owner")
    name ← check (validate_repo_part i.name "name")
    check_none (validate_optional_limit 100 i.limit)
    org_id ← resolve_org_id p now later i.organization_id
    page ← get_json_tool p p.submissions (record {
      path = submissions_path p owner name;
      params = add_org_param (put_limit p i.limit []) org_id;
    })
    pure (record {
      owner = owner;
      name = name;
      count = page.count;
      submissions = page.items;
      next_cursor = page.after;
      web_url = link p (codes "/repos/" ++ repo_path p owner name);
    })

  unfoldable pub get_submission_test_results : TestResultsInput → Tool (TestResultsOutput N)
  get_submission_test_results i = do
    owner ← check (validate_repo_part i.owner "owner")
    name ← check (validate_repo_part i.name "name")
    submission_id ← check (validate_object_id i.submission_id "submission_id")
    check_none (validate_optional_limit 100 i.limit)
    org_id ← resolve_org_id p now later i.organization_id
    page ← get_json_tool p p.test_results (record {
      path =
          submissions_path p owner name
          ++ codes "/"
          ++ p.path_escape submission_id
          ++ codes "/tests";
      params =
          add_org_param
            (put_limit p i.limit (put_if (not (is_empty i.status)) (codes "status") i.status []))
            org_id;
    })
    pure (record {
      owner = owner;
      name = name;
      submission_id = submission_id;
      status = i.status;
      count = page.count;
      tests = page.items;
      next_cursor = page.after;
      web_url = link p (
          codes "/repos/"
          ++ repo_path p owner name
          ++ codes "/builds/"
          ++ p.path_escape submission_id);
    })

  -- A badge's number and its color; `page` is the path of its page, before the repository.
  abbrev pub metric : Text → Text → (N → Text) → MetricInput → Tool (MetricOutput N)
  metric badge page color i = do
    repo ← check (validate_repo_part i.repository "repository")
    org_id ← resolve_org_id p now later i.organization_id
    answer ←
        get_tool p (record {
          path = badge;
          params = add_org_param (put [] (codes "repository") repo) org_id;
        })
    let pct = percent_from_badge_svg p.numbers answer.0
    pure (record {
      repository = repo;
      percentage = pct;
      color = color pct;
      badge_url = p.base_url ++ badge ++ codes "?repository=" ++ p.query_escape repo;
      web_url = link p (page ++ codes "?repository=" ++ p.query_escape repo);
    })

  unfoldable pub get_repo_flakiness : MetricInput → Tool (MetricOutput N)
  get_repo_flakiness =
      metric (codes "/api/v1/flaky/badges") (codes "/flaky-tests") (flakiness_color p.numbers)

  unfoldable pub get_repo_coverage : MetricInput → Tool (MetricOutput N)
  get_repo_coverage =
      metric (codes "/api/v1/coverage/badges") (codes "/coverage") (coverage_color p.numbers)
