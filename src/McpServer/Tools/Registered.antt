-- ===== src/McpServer/Tools/Registered.antt =====
-- The tools that registerTools and registerRunnerTools of internal/mcpserver put on the server.
pub mod Params
pub mod Composed
pub mod Calls
pub mod Scope
pub mod Refusal
use buildpulse_mcp.Common.{ℕ, Text, codes, Map, List, []}
use buildpulse_mcp.McpServer.Wire.{
  Organization, RepositoryOut, FindFlakyInput, FindFlakyOutput, TestHistoryOutput, SubmissionsInput,
  SubmissionsOutput, TestResultsInput, TestResultsOutput, RecentFailuresInput, RecentFailureOut,
  RecentFailuresOutput, MetricInput, MetricOutput,
}
use buildpulse_mcp.McpServer.Wire.Runners.{
  RunnerStatus, RunnerUsageInput, RunnerUsageOutput, RunnerConfigsOutput,
}
use buildpulse_mcp.McpServer.Platform.{Platform}
use buildpulse_mcp.McpServer.Tool.{Tool, pure, ◌>>=◌}
use buildpulse_mcp.McpServer.Tools.{
  list_my_organizations, list_repositories, find_flaky_tests, get_test_history,
  list_recent_submissions, get_submission_test_results, get_repo_flakiness, get_repo_coverage,
}
use buildpulse_mcp.McpServer.Tools.Failures.{get_recent_failures}
use buildpulse_mcp.McpServer.Tools.Runners.{get_runner_status, get_runner_usage, get_runner_configs}

-- A tool's input, for the tools that take an organization.
pub data ScopedCall : Type 0 where
  for_repositories for_runner_status for_runner_configs : Text → ScopedCall
  for_flaky_tests : FindFlakyInput → ScopedCall
  for_test_history : Text → Text → ScopedCall
  for_submissions : SubmissionsInput → ScopedCall
  for_test_results : TestResultsInput → ScopedCall
  for_recent_failures : RecentFailuresInput → ScopedCall
  for_flakiness for_coverage : MetricInput → ScopedCall
  for_runner_usage : RunnerUsageInput → ScopedCall

pub data ToolOutput (N : Type 0) : Type 0 where
  repositories : List RepositoryOut → ToolOutput N
  runner_status : RunnerStatus → ToolOutput N
  runner_configs : RunnerConfigsOutput N → ToolOutput N
  flaky_tests : FindFlakyOutput N → ToolOutput N
  test_history : TestHistoryOutput → ToolOutput N
  submissions : SubmissionsOutput N → ToolOutput N
  test_results : TestResultsOutput N → ToolOutput N
  recent_failures : RecentFailuresOutput N → ToolOutput N
  metric : MetricOutput N → ToolOutput N
  runner_usage : RunnerUsageOutput N → ToolOutput N

-- The organization_id of the input.
abbrev pub org_of : ScopedCall → Text
org_of (for_repositories org) = org
org_of (for_runner_status org) = org
org_of (for_runner_configs org) = org
org_of (for_flaky_tests i) = i.organization_id
org_of (for_test_history test org) = org
org_of (for_submissions i) = i.organization_id
org_of (for_test_results i) = i.organization_id
org_of (for_recent_failures i) = i.organization_id
org_of (for_flakiness i) = i.organization_id
org_of (for_coverage i) = i.organization_id
org_of (for_runner_usage i) = i.organization_id

abbrev pub returning : {A B : Type 0} → (A → B) → Tool A → Tool B
returning f m = m >>= λ a. pure (f a)

module _ {N : Type 0} (p : Platform N) (now later asked : ℕ)
    (entries : Map (RecentFailureOut N) → List (RecentFailureOut N)) where
  -- The handler of a tool.
  unfoldable pub call_scoped : ScopedCall → Tool (ToolOutput N)
  call_scoped (for_repositories org) = returning repositories (list_repositories p now later org)
  call_scoped (for_runner_status org) =
      returning runner_status (get_runner_status p now later asked org)
  call_scoped (for_runner_configs org) =
      returning runner_configs (get_runner_configs p now later asked org)
  call_scoped (for_flaky_tests i) = returning flaky_tests (find_flaky_tests p now later i)
  call_scoped (for_test_history test org) =
      returning test_history (get_test_history p now later test org)
  call_scoped (for_submissions i) = returning submissions (list_recent_submissions p now later i)
  call_scoped (for_test_results i) =
      returning test_results (get_submission_test_results p now later i)
  call_scoped (for_recent_failures i) =
      returning recent_failures (get_recent_failures p now later entries i)
  call_scoped (for_flakiness i) = returning metric (get_repo_flakiness p now later i)
  call_scoped (for_coverage i) = returning metric (get_repo_coverage p now later i)
  call_scoped (for_runner_usage i) = returning runner_usage (get_runner_usage p now later asked i)
