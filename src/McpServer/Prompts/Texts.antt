-- ===== src/McpServer/Prompts/Texts.antt =====
-- The texts of the five prompts of internal/mcpserver/prompts.go.
use buildpulse_mcp.Common.{Text, codes, List, [], ◌∷◌, ◌++◌}

-- The pieces of a text, added up.
unfoldable pub concat_texts : List Text → Text
concat_texts [] = []
concat_texts (piece ∷ pieces) = piece ++ concat_texts pieces

-- estimateRunnerSavingsPrompt
unfoldable pub estimate_runner_savings_text : Text → Text → Text
estimate_runner_savings_text org_arg repo_step = concat_texts (
    codes
      "Estimate what BuildPulse runners save this organization. Every number must come from a tool response; do not quote a price you were not given.\n\n1. Call `get_runner_status`"
    ∷ org_arg
    ∷ codes ".\n\n2. If `has_tenant` is true: call `get_runner_usage`"
    ∷ org_arg
    ∷ codes
        " with `days=30`. Report, from `totals`: jobs, billable_minutes, cost_usd, free_minutes_used and free_minutes_value_usd, net_cost_usd, github_list_price_usd and savings_percent, and p50/p90 job duration. Then list the top entries of `breakdown` (runner size, provider, minutes, net cost, savings). Mention that `pricing.free_minutes_per_month` free minutes renew every month. Link `web_url`. Stop here.\n\n3. If `has_tenant` is false, the organization is not on BuildPulse runners yet. Build an estimate:\n   a. Call `get_runner_usage`"
    ∷ org_arg
    ∷ codes
        " anyway: its `pricing` block carries the published offer. Use `pricing.rate_card` for the per-minute prices (`buildpulse_usd_per_minute` and `github_usd_per_minute` for the matching size), `pricing.free_minutes_per_month` for the monthly grant and `pricing.speedup_vs_hosted` for the speed-up.\n   b. If the user already knows their monthly CI minutes (the GitHub Actions usage page shows it), use that number and skip c.\n   c. Otherwise estimate it: "
    ∷ repo_step
    ∷ codes
        ", call `list_recent_submissions` with `limit=50` for each to count how many CI runs land per day (use `recorded_at`), and call `get_submission_test_results` on two or three recent runs to add up `duration_us` per run as the test time of one job. Monthly minutes = runs per day x 30 x minutes per run. State plainly that this is a lower bound: it counts test time only, not checkout, install or build steps, and only runs that upload to BuildPulse.\n   d. Assume the x64 2 vCPU size unless the user says otherwise. GitHub cost = minutes x `github_usd_per_minute`. BuildPulse cost = max(0, minutes / `speedup_vs_hosted` - `free_minutes_per_month`) x `buildpulse_usd_per_minute`: the same work finishes in fewer minutes and the first free minutes are not billed. Also show the figure without the speed-up so the saving from price alone is visible.\n   e. Present both costs, the monthly and yearly saving, the assumptions in one short list, and finish with the activation link from `setup_url` (https://buildpulse.io/organizations/{orgId}/runners/setup): it is a one-line change to the workflow, 3,000 free minutes a month, no card required."
    ∷ [])

-- triageFlakyTestsPrompt
unfoldable pub triage_flaky_tests_text : Text → Text
triage_flaky_tests_text repo = concat_texts (
    codes "Triage flaky tests for the BuildPulse repository **"
    ∷ repo
    ∷ codes "**.\n\n1. Call `find_flaky_tests` with `repository=\""
    ∷ repo
    ∷ codes
        "\"`, `sort=\"recency\"`, `limit=10`. Include `tags` and `disruptiveness_ratio` in the response.\n2. For the top three tests by disruptiveness ratio, call `get_test_history` to inspect recent failures.\n3. Summarize each with: name, file, disruptiveness, recent failure message, and a suggested next action (quarantine / assign / investigate). Include the `web_url` as a clickable link for each test.\n4. End with a one-line health verdict for the repository."
    ∷ [])

-- ciHealthCheckPrompt
unfoldable pub ci_health_check_text : Text → Text
ci_health_check_text repo = concat_texts (
    codes "Produce a one-screen CI health snapshot for the BuildPulse repository **"
    ∷ repo
    ∷ codes
        "**.\n\n1. Call `get_repo_flakiness` and `get_repo_coverage`.\n2. Call `find_flaky_tests` with `limit=3`, `sort=\"disruptivenessRatio\"`.\n3. Output: \n   - Flakiness: X%  (color)\n   - Coverage:  Y%  (color)\n   - Top three flaky tests, each with disruptiveness and a `web_url` link.\n   - One-sentence overall verdict (\"healthy\" / \"watch list\" / \"action needed\")."
    ∷ [])

-- explainTestFailurePrompt
unfoldable pub explain_test_failure_text : Text → Text
explain_test_failure_text test_id = concat_texts (
    codes "Investigate BuildPulse test `"
    ∷ test_id
    ∷ codes "`.\n\n1. Call `get_test_history` with `test_id=\""
    ∷ test_id
    ∷ codes
        "\"`.\n2. Group the disruption events by `conclusion` and by similarity of `message`. Highlight any recurring failure patterns.\n3. Cross-reference the `build_url` and `commit_oid` for the most recent failure to identify what changed.\n4. Propose one or two root-cause hypotheses (timing, environment, flaky dependency, etc.) and a concrete next step."
    ∷ [])

-- whatsRedPrompt
unfoldable pub whats_red_text : Text → Text → Text
whats_red_text owner name = concat_texts (
    codes "Identify what's currently red in "
    ∷ owner
    ∷ codes "/"
    ∷ name
    ∷ codes " on BuildPulse.\n\n1. Call `list_recent_submissions` with `owner=\""
    ∷ owner
    ∷ codes "\"`, `name=\""
    ∷ name
    ∷ codes
        "\"`, `limit=10`.\n2. For each submission with a non-success status, surface the `build_url`, `recorded_at`, and `test_result_count`.\n3. If the recent runs are mostly green, call `find_flaky_tests` to check whether intermittent flakes are masking real failures.\n4. Conclude with a one-line statement: \"CI is green\" / \"CI is red on N of last M runs\" / \"CI is mostly green but flaky tests on the watch list\"."
    ∷ [])
