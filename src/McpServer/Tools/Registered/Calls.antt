-- ===== src/McpServer/Tools/Registered/Calls.antt =====
-- The remaining handlers as compositions of their steps, and with them every tool.
use buildpulse_mcp.Common.{
  ℕ, ◌≡◌, refl, sym, ap, subst, Text, ◌==◌, Map, get, map, All, List, [], ◌∷◌, ◌++◌, Option, none,
  some,
}
use buildpulse_mcp.McpServer.Validate.{validate_repo_part, validate_submissions_window}
use buildpulse_mcp.McpServer.Wire.{SubmissionLite, RecentFailuresInput, RecentFailureOut}
use buildpulse_mcp.McpServer.Wire.Runners.{RunnerUsageInput}
use buildpulse_mcp.McpServer.Platform.{Platform, Request}
use buildpulse_mcp.McpServer.Tool.{ToolError, Session, Tool, ◌>>=◌, pure}
use buildpulse_mcp.McpServer.Tool.Triples.{
  Triple, Any, pure-Triple, check-Triple, check_none-Triple, bind-Triple,
}
use buildpulse_mcp.McpServer.Tools.Failures.{
  report, tests_request, fetch_failures, get_recent_failures,
}
use buildpulse_mcp.McpServer.Tools.Runners.{
  validate_runner_days, check_days, get_runner_status, get_runner_usage, get_runner_configs,
}
use buildpulse_mcp.McpServer.Tools.Registered.{
  ScopedCall, for_repositories, for_runner_status, for_runner_configs, for_flaky_tests,
  for_test_history, for_submissions, for_test_results, for_recent_failures, for_flakiness,
  for_coverage, for_runner_usage, org_of, returning, call_scoped,
}
use buildpulse_mcp.McpServer.Tools.Registered.Params.{Names, get-add_org_param}
use buildpulse_mcp.McpServer.Tools.Registered.Composed.{
  Steps, resolved, asked_json, get_json_tool-Triple, list_repositories-Triple,
  get_test_history-Triple, list_recent_submissions-Triple, get_submission_test_results-Triple,
  find_flaky_tests-Triple, get_repo_flakiness-Triple, get_repo_coverage-Triple,
}

append-cons : {A : Type 0} (xs : List A) (y : A) (ys : List A) → (xs ++ y ∷ []) ++ ys ≡ xs ++ y ∷ ys
append-cons [] y ys = refl
append-cons (x ∷ xs) y ys = ap (◌∷◌ x) (append-cons xs y ys)

append-nil : {A : Type 0} (xs : List A) → xs ++ [] ≡ xs
append-nil [] = refl
append-nil (x ∷ xs) = ap (◌∷◌ x) (append-nil xs)

module _ {N : Type 0} (p : Platform N) (now later asked : ℕ) (raw : Text)
    (entries : Map (RecentFailureOut N) → List (RecentFailureOut N)) {Pre Post : Session → Type 0}
    {Q : Text → Type 0} {Final : Type 0} (steps : Steps p now later raw Pre Post Q Final) where
  adds_all :
      (rs : List Request) (s : Session) (org_id : Text)
      → Q org_id
      → All (Names org_id) rs
      → Post s
      → Post (record s { requests = s.requests ++ rs })
  adds_all [] s org_id q names h =
      subst (λ rs. Post (record s { requests = rs })) (sym (append-nil s.requests)) h
  adds_all (r ∷ rs) s org_id q (name, names) h =
      subst (λ l. Post (record s { requests = l })) (append-cons s.requests r rs)
        (adds_all rs (record s { requests = s.requests ++ r ∷ [] }) org_id q names
          (steps.adds s r org_id q name h))

  tests_requests-Names :
      (owner name org_id : Text) (submissions : List SubmissionLite)
      → All (Names org_id) (map (tests_request p now later entries owner name org_id) submissions)
  unfolding get ◌==◌
  tests_requests-Names owner name org_id [] = tt
  tests_requests-Names owner name org_id (s ∷ submissions) =
      (get-add_org_param _ org_id refl, tests_requests-Names owner name org_id submissions)

  get_recent_failures-Triple :
      (i : RecentFailuresInput)
      → i.organization_id ≡ raw
      → Triple Pre (get_recent_failures p now later entries i) Post (λ _. Final)
  unfolding get_recent_failures fetch_failures get ◌==◌
  get_recent_failures-Triple i e = rw e (
      check-Triple steps.weaker (validate_repo_part i.owner "owner") _ λ owner _.
        check-Triple steps.weaker (validate_repo_part i.name "name") _ λ name _.
          check_none-Triple steps.weaker (validate_submissions_window i.submissions) _ (
            resolved p now later raw steps _ λ org_id q.
              bind-Triple {Mid = Post} _ _ (λ s h. h)
                (get_json_tool-Triple p now later raw steps p.submission_ids _ org_id q
                  (get-add_org_param _ org_id refl))
                λ submissions _.
                  bind-Triple {Mid = Post} {P = Any}
                    (fetch_failures p now later entries owner name org_id submissions)
                    (λ rs. pure (report p now later entries owner name submissions rs)) (λ s h. h)
                    (λ s h. (
                      adds_all _ s org_id q (tests_requests-Names owner name org_id submissions) h,
                      λ a _. tt,
                    ))
                    λ results _.
                      pure-Triple (λ s h. h)
                        (report p now later entries owner name submissions results)
                        (steps.concludes org_id q)))

  get_runner_status-Triple : Triple Pre (get_runner_status p now later asked raw) Post (λ _. Final)
  unfolding get_runner_status get
  get_runner_status-Triple = resolved p now later raw steps _ λ org_id q.
      get_json_tool-Triple p now later raw steps p.runner_status _ org_id q
        (get-add_org_param [] org_id refl)

  get_runner_configs-Triple :
      Triple Pre (get_runner_configs p now later asked raw) Post (λ _. Final)
  unfolding get_runner_configs get
  get_runner_configs-Triple = resolved p now later raw steps _ λ org_id q.
      asked_json p now later raw steps p.runner_configs _ org_id _ q
        (get-add_org_param [] org_id refl)

  days_checked :
      {B : Type 0} (o : Option ToolError) (t : Tool B)
      → Triple Pre t Post (λ _. Final)
      → Triple Pre (check_days o >>= λ _. t) Post (λ _. Final)
  days_checked none t rest s h = rest s h
  days_checked (some e) t rest s h = (steps.weaker s h, λ a e. absurd (cc))

  get_runner_usage-Triple :
      (i : RunnerUsageInput)
      → i.organization_id ≡ raw
      → Triple Pre (get_runner_usage p now later asked i) Post (λ _. Final)
  unfolding get_runner_usage get ◌==◌
  get_runner_usage-Triple i e = rw e (
      days_checked (validate_runner_days i.days) _ (
        resolved p now later raw steps _ λ org_id q.
          asked_json p now later raw steps p.runner_usage _ org_id _ q
            (get-add_org_param _ org_id refl)))

  returned :
      {A B : Type 0} (f : A → B) (t : Tool A)
      → Triple Pre t Post (λ _. Final)
      → Triple Pre (returning f t) Post (λ _. Final)
  returned f t h =
      bind-Triple {Mid = Post} t (λ a. pure (f a)) (λ s g. g) h
        λ a final. pure-Triple (λ s g. g) (f a) final

  pub call_scoped-Triple :
      (c : ScopedCall)
      → org_of c ≡ raw
      → Triple Pre (call_scoped p now later asked entries c) Post (λ _. Final)
  unfolding call_scoped
  call_scoped-Triple (for_repositories org) e =
      rw e (returned _ _ (list_repositories-Triple p now later raw steps))
  call_scoped-Triple (for_runner_status org) e = rw e (returned _ _ get_runner_status-Triple)
  call_scoped-Triple (for_runner_configs org) e = rw e (returned _ _ get_runner_configs-Triple)
  call_scoped-Triple (for_flaky_tests i) e =
      returned _ _ (find_flaky_tests-Triple p now later raw steps i e)
  call_scoped-Triple (for_test_history test org) e =
      rw e (returned _ _ (get_test_history-Triple p now later raw steps test))
  call_scoped-Triple (for_submissions i) e =
      returned _ _ (list_recent_submissions-Triple p now later raw steps i e)
  call_scoped-Triple (for_test_results i) e =
      returned _ _ (get_submission_test_results-Triple p now later raw steps i e)
  call_scoped-Triple (for_recent_failures i) e = returned _ _ (get_recent_failures-Triple i e)
  call_scoped-Triple (for_flakiness i) e =
      returned _ _ (get_repo_flakiness-Triple p now later raw steps i e)
  call_scoped-Triple (for_coverage i) e =
      returned _ _ (get_repo_coverage-Triple p now later raw steps i e)
  call_scoped-Triple (for_runner_usage i) e = returned _ _ (get_runner_usage-Triple i e)
