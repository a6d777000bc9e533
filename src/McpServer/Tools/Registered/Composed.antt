-- ===== src/McpServer/Tools/Registered/Composed.antt =====
-- The handlers as compositions of their steps: what each step does to the session, each handler does.
use buildpulse_mcp.Common.{
  ℕ, ◌≡◌, refl, ◌∙◌, not, ◌&&◌, Text, codes, ◌==◌, is_empty, get-empty, Bool-cases, inl, inr,
  Option, [], ◌∷◌, ◌++◌,
}
use buildpulse_mcp.McpServer.Platform.{Platform, Request}
use buildpulse_mcp.McpServer.Tool.{
  Session, Tool, ◌>>=◌, pure, organization_key, get_tool, get_json_tool, resolve_org_id,
}
use buildpulse_mcp.McpServer.Tools.Registered.Params.{
  Names, get-add_org_param, put-keeps, put_if-keeps, limit-keeps, flaky_params-Names,
}
use buildpulse_mcp.McpServer.Badges.{flakiness_color, coverage_color}
use buildpulse_mcp.McpServer.Tool.Triples.{
  Triple, pure-Triple, check-Triple, check_none-Triple, bind-Triple,
}
use buildpulse_mcp.McpServer.Validate.{
  validate_object_id, validate_repo_part, validate_optional_limit,
}
use buildpulse_mcp.McpServer.Wire.{FindFlakyInput, SubmissionsInput, TestResultsInput, MetricInput}
use buildpulse_mcp.McpServer.Tools.{
  check_since, metric, get_repo_flakiness, get_repo_coverage, list_repositories, get_test_history,
  list_recent_submissions, find_flaky_tests, get_submission_test_results,
}

-- What the steps of a handler do for an organization `raw`, with `Pre` before it is resolved, and `Post`
-- of the session from then on.
pub record Steps {N : Type 0} (p : Platform N) (now later : ℕ) (raw : Text)
    (Pre Post : Session → Type 0) (Q : Text → Type 0) (Final : Type 0) : Type 0 where
  pub weaker : (s : Session) → Pre s → Post s
  pub resolves : Triple Pre (resolve_org_id p now later raw) Post Q
  -- With an organization the handler ends only as `Final` says.
  pub concludes : (org_id : Text) → Q org_id → Final
  pub adds :
      (s : Session) (r : Request) (org_id : Text)
      → Q org_id
      → Names org_id r
      → Post s
      → Post (record s { requests = s.requests ++ r ∷ [] })

module _ {N : Type 0} (p : Platform N) (now later : ℕ) (raw : Text) {Pre Post : Session → Type 0}
    {Q : Text → Type 0} {Final : Type 0} (steps : Steps p now later raw Pre Post Q Final) where
  pub get_json_tool-Triple :
      {A : Type 0} (decode : Text → Option A) (r : Request) (org_id : Text)
      → Q org_id
      → Names org_id r
      → Triple Post (get_json_tool p decode r) Post (λ _. Final)
  unfolding get_json_tool
  get_json_tool-Triple decode r org_id q names s h =
      (steps.adds s r org_id q names h, λ a e. steps.concludes org_id q)

  get_tool-Triple :
      (r : Request) (org_id : Text)
      → Q org_id
      → Names org_id r
      → Triple Post (get_tool p r) Post (λ _. Final)
  unfolding get_tool
  get_tool-Triple r org_id q names s h =
      (steps.adds s r org_id q names h, λ a e. steps.concludes org_id q)

  -- After the checks a handler resolves the organization and goes on with it.
  pub resolved :
      {B : Type 0} (f : Text → Tool B)
      → ((org_id : Text) → Q org_id → Triple Post (f org_id) Post (λ _. Final))
      → Triple Pre (resolve_org_id p now later raw >>= f) Post (λ _. Final)
  resolved f rest =
      bind-Triple {Mid = Post} (resolve_org_id p now later raw) f (λ s h. h) steps.resolves rest

  -- A GET, and what is made of its answer.
  pub asked_json :
      {A B : Type 0} (decode : Text → Option A) (r : Request) (org_id : Text) (f : A → B)
      → Q org_id
      → Names org_id r
      → Triple Post (get_json_tool p decode r >>= λ a. pure (f a)) Post (λ _. Final)
  asked_json decode r org_id f q names =
      bind-Triple {Mid = Post} (get_json_tool p decode r) (λ a. pure (f a)) (λ s h. h)
        (get_json_tool-Triple decode r org_id q names)
        (λ a _. pure-Triple (λ s h. h) (f a) (steps.concludes org_id q))

  asked_text :
      {B : Type 0} (r : Request) (org_id : Text) (f : Text × Text → B)
      → Q org_id
      → Names org_id r
      → Triple Post (get_tool p r >>= λ a. pure (f a)) Post (λ _. Final)
  asked_text r org_id f q names =
      bind-Triple {Mid = Post} (get_tool p r) (λ a. pure (f a)) (λ s h. h)
        (get_tool-Triple r org_id q names)
        (λ a _. pure-Triple (λ s h. h) (f a) (steps.concludes org_id q))

  pub list_repositories-Triple : Triple Pre (list_repositories p now later raw) Post (λ _. Final)
  unfolding list_repositories
  list_repositories-Triple = resolved _ λ org_id q.
      asked_json p.repositories _ org_id _ q
        (get-add_org_param [] org_id (get-empty organization_key))

  pub get_test_history-Triple :
      (test : Text) → Triple Pre (get_test_history p now later test raw) Post (λ _. Final)
  unfolding get_test_history
  get_test_history-Triple test =
      check-Triple steps.weaker (validate_object_id test "test_id") _ λ id e. resolved _ λ org_id q.
        asked_json p.disruption_events _ org_id _ q
          (get-add_org_param [] org_id (get-empty organization_key))

  pub list_recent_submissions-Triple :
      (i : SubmissionsInput)
      → i.organization_id ≡ raw
      → Triple Pre (list_recent_submissions p now later i) Post (λ _. Final)
  unfolding list_recent_submissions
  list_recent_submissions-Triple i e = rw e (
      check-Triple steps.weaker (validate_repo_part i.owner "owner") _ λ owner _.
        check-Triple steps.weaker (validate_repo_part i.name "name") _ λ name _.
          check_none-Triple steps.weaker (validate_optional_limit 100 i.limit) _ (
            resolved _ λ org_id q.
              asked_json p.submissions _ org_id _ q (
                get-add_org_param _ org_id
                  (limit-keeps p i.limit [] ∙ get-empty organization_key))))

  pub get_submission_test_results-Triple :
      (i : TestResultsInput)
      → i.organization_id ≡ raw
      → Triple Pre (get_submission_test_results p now later i) Post (λ _. Final)
  unfolding get_submission_test_results ◌==◌
  get_submission_test_results-Triple i e = rw e (
      check-Triple steps.weaker (validate_repo_part i.owner "owner") _ λ owner _.
        check-Triple steps.weaker (validate_repo_part i.name "name") _ λ name _.
          check-Triple steps.weaker (validate_object_id i.submission_id "submission_id") _ λ id _.
            check_none-Triple steps.weaker (validate_optional_limit 100 i.limit) _ (
              resolved _ λ org_id q. asked_json p.test_results _ org_id _ q (
                get-add_org_param _ org_id (
                  limit-keeps p i.limit _
                  ∙ put_if-keeps _ (codes "status") i.status [] refl
                  ∙ get-empty organization_key))))

  since_checked :
      {B : Type 0} (date : Text) (t : Tool B)
      → Triple Post t Post (λ _. Final)
      → Triple Post (check_since p date >>= λ _. t) Post (λ _. Final)
  since_checked date t rest s h = elim (Bool-cases (not (is_empty date) && not (p.is_date date))) [
    | inl bad ↦ rw bad (h, λ a e. absurd (cc))
    | inr fine ↦ rw fine (rest s h)
  ]

  pub find_flaky_tests-Triple :
      (i : FindFlakyInput)
      → i.organization_id ≡ raw
      → Triple Pre (find_flaky_tests p now later i) Post (λ _. Final)
  unfolding find_flaky_tests
  find_flaky_tests-Triple i e = rw e (
      check-Triple steps.weaker (validate_repo_part i.repository "repository") _ λ repo _.
        check_none-Triple steps.weaker (validate_optional_limit 100 i.limit) _ (
          resolved _ λ org_id q.
            since_checked i.since_date _
              (asked_json p.flaky_tests _ org_id _ q (flaky_params-Names p i repo org_id))))

  metric-Triple :
      (badge page : Text) (color : N → Text) (i : MetricInput)
      → i.organization_id ≡ raw
      → Triple Pre (metric p now later badge page color i) Post (λ _. Final)
  unfolding ◌==◌
  metric-Triple badge page color i e = rw e (
      check-Triple steps.weaker (validate_repo_part i.repository "repository") _ λ repo _.
        resolved _ λ org_id q. asked_text _ org_id _ q (
          get-add_org_param _ org_id
            (put-keeps [] (codes "repository") repo refl ∙ get-empty organization_key)))

  pub get_repo_flakiness-Triple :
      (i : MetricInput)
      → i.organization_id ≡ raw
      → Triple Pre (get_repo_flakiness p now later i) Post (λ _. Final)
  unfolding get_repo_flakiness
  get_repo_flakiness-Triple i e =
      metric-Triple (codes "/api/v1/flaky/badges") (codes "/flaky-tests")
        (flakiness_color p.numbers) i e

  pub get_repo_coverage-Triple :
      (i : MetricInput)
      → i.organization_id ≡ raw
      → Triple Pre (get_repo_coverage p now later i) Post (λ _. Final)
  unfolding get_repo_coverage
  get_repo_coverage-Triple i e =
      metric-Triple (codes "/api/v1/coverage/badges") (codes "/coverage") (coverage_color p.numbers)
        i e
