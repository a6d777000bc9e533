-- ===== src/McpServer/Tools/Runners.antt =====
-- The tools about runners, internal/mcpserver/tools_runners.go.
use buildpulse_mcp.Common.{
  ℕ, ◌-◌, ◌*◌, Text, codes, map, length, ltb, Option, none, some, [], ◌∷◌, if◌then◌else◌,
}
use buildpulse_mcp.McpServer.Validate.{ℤ, pos, negsuc, is_zero, out_of_range}
use buildpulse_mcp.McpServer.Wire.Runners.{
  RunnerStatus, RunnerUsageInput, PlatformUsageGroup, RunnerUsageGroup, PlatformRunnerUsage,
  RunnerUsageOutput, RunnerConfigsOutput,
}
use buildpulse_mcp.McpServer.Platform.{Platform}
use buildpulse_mcp.McpServer.Tool.{
  ToolError, days_out_of_range, Tool, pure, fail, ◌>>=◌, ◌>>◌, add_org_param, get_json_tool,
  resolve_org_id,
}

abbrev runner_usage_default_days : ℕ
runner_usage_default_days = 30

abbrev runner_usage_max_days : ℕ
runner_usage_max_days = 90

-- a day, in nanoseconds
abbrev day : ℕ
day = 24 * 60 * 60 * 1_000_000_000

unfoldable pub validate_runner_days : ℤ → Option ToolError
validate_runner_days n =
    if is_zero n
    then none
    else if out_of_range runner_usage_max_days n
    then some days_out_of_range
    else none

abbrev pub check_days : Option ToolError → Tool (Unit {0})
check_days none = pure tt
check_days (some e) = fail e

-- days <= 0 stands for the default
unfoldable pub days_or_default : ℤ → ℕ
days_or_default (pos n) = if ltb 0 n then n else runner_usage_default_days
days_or_default (negsuc n) = runner_usage_default_days

module _ {N : Type 0} where
  abbrev group_out : PlatformUsageGroup N → RunnerUsageGroup N
  group_out g = record {
    runner_type = g.runner_type;
    arch = g.arch;
    ci_provider_type = g.ci_provider_type;
    jobs = g.figures.jobs;
    billable_minutes = g.figures.billable_minutes;
    cost_usd = g.figures.cost_usd;
    free_minutes_used = g.figures.free_minutes_used;
    free_minutes_value_usd = g.figures.free_minutes_value_usd;
    net_cost_usd = g.figures.net_cost_usd;
    github_list_price_usd = g.figures.github_list_price_usd;
    savings_percent = g.figures.savings_percent;
    p50_duration_seconds = g.figures.p50_duration_seconds;
    p90_duration_seconds = g.figures.p90_duration_seconds;
    p50_queue_seconds = g.figures.p50_queue_seconds;
  }

  -- The totals, the prices and the rate card are copied.
  unfoldable pub usage_out : PlatformRunnerUsage N → RunnerUsageOutput N
  usage_out u = record {
    from = u.from;
    to = u.to;
    days = u.days;
    totals = u.totals;
    breakdown = map group_out u.breakdown;
    pricing = u.pricing;
    web_url = u.web_url;
  }

-- `now` and `later` are the times around a look-up of the organizations, `asked` the time at which the
-- window of the usage is computed, in nanoseconds since 1970, of which 90 days can be taken off.
module _ {N : Type 0} (p : Platform N) (now later asked : ℕ) where
  unfoldable pub get_runner_status : Text → Tool RunnerStatus
  get_runner_status organization_id = do
    org_id ← resolve_org_id p now later organization_id
    get_json_tool p p.runner_status
        (record { path = codes "/api/v1/runners/status"; params = add_org_param [] org_id })

  unfoldable pub runner_usage_window : ℤ → Text
  runner_usage_window days = p.rfc3339 (asked - days_or_default days * day)

  unfoldable pub get_runner_usage : RunnerUsageInput → Tool (RunnerUsageOutput N)
  get_runner_usage i = do
    check_days (validate_runner_days i.days)
    org_id ← resolve_org_id p now later i.organization_id
    usage ← get_json_tool p p.runner_usage (record {
      path = codes "/api/v1/runners/usage";
      params = add_org_param ((codes "from", runner_usage_window i.days) ∷ []) org_id;
    })
    pure (usage_out usage)

  unfoldable pub get_runner_configs : Text → Tool (RunnerConfigsOutput N)
  get_runner_configs organization_id = do
    org_id ← resolve_org_id p now later organization_id
    found ←
        get_json_tool p p.runner_configs
          (record { path = codes "/api/v1/runners/configs"; params = add_org_param [] org_id })
    pure (record { runners = found.runners; count = length found.runners; web_url = found.web_url })
