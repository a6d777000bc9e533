-- ===== src/McpServer/Wire/Runners.antt =====
-- The records of internal/mcpserver/tools_runners.go: what the platform answers on runners, and what
-- the tools return.
use buildpulse_mcp.Common.{ℕ, Text, Option, Bool, List}
use buildpulse_mcp.McpServer.Validate.{ℤ}

pub record RunnerStatus : Type 0 where
  pub has_tenant : Bool
  pub status : Text
  pub billing_mode : Text
  pub activated_at : Text
  pub how_to_start : Text
  pub setup_url : Text
  pub pricing_url : Text
  pub web_url : Text

pub record RunnerUsageInput : Type 0 where
  pub days : ℤ
  pub organization_id : Text

-- platformUsageFigures, and runnerUsageFigures with the same fields
pub record UsageFigures (N : Type 0) : Type 0 where
  pub jobs : N
  pub billable_minutes : N
  pub cost_usd : N
  pub free_minutes_used : N
  pub free_minutes_value_usd : N
  pub net_cost_usd : N
  pub github_list_price_usd : Option N
  pub savings_percent : Option N
  pub p50_duration_seconds : Option N
  pub p90_duration_seconds : Option N
  pub p50_queue_seconds : Option N

-- A row of the platform's breakdown.
pub record PlatformUsageGroup (N : Type 0) : Type 0 where
  pub runner_type : Text
  pub arch : Text
  pub ci_provider_type : Text
  pub figures : UsageFigures N

-- The same row, flat.
pub record RunnerUsageGroup (N : Type 0) : Type 0 where
  pub runner_type : Text
  pub arch : Text
  pub ci_provider_type : Text
  pub jobs : N
  pub billable_minutes : N
  pub cost_usd : N
  pub free_minutes_used : N
  pub free_minutes_value_usd : N
  pub net_cost_usd : N
  pub github_list_price_usd : Option N
  pub savings_percent : Option N
  pub p50_duration_seconds : Option N
  pub p90_duration_seconds : Option N
  pub p50_queue_seconds : Option N

pub record RateCardRate (N : Type 0) : Type 0 where
  pub runner_type : Text
  pub arch : Text
  pub vcpu : N
  pub memory_gi : N
  pub buildpulse_usd_per_minute : N
  pub github_usd_per_minute : N

pub record RunnerPricing (N : Type 0) : Type 0 where
  pub free_minutes_per_month : N
  pub base_rate_usd_per_minute : N
  pub base_runner : Text
  pub speedup_vs_hosted : N
  pub rate_card : List (RateCardRate N)
  pub pricing_url : Text

pub record PlatformRunnerUsage (N : Type 0) : Type 0 where
  pub from : Text
  pub to : Text
  pub days : N
  pub totals : UsageFigures N
  pub breakdown : List (PlatformUsageGroup N)
  pub pricing : RunnerPricing N
  pub web_url : Text

pub record RunnerUsageOutput (N : Type 0) : Type 0 where
  pub from : Text
  pub to : Text
  pub days : N
  pub totals : UsageFigures N
  pub breakdown : List (RunnerUsageGroup N)
  pub pricing : RunnerPricing N
  pub web_url : Text

pub record ProviderConfig : Type 0 where
  pub resource_class : Text
  pub endpoint : Text
  pub agent_type : Text

pub record RunnerConfig (N : Type 0) : Type 0 where
  pub label : Text
  pub runner_type : Text
  pub ci_provider_type : Text
  pub arch : Text
  pub vcpu : N
  pub memory_gi : N
  pub cost_per_minute_usd : N
  pub status : Text
  pub variant : Text
  pub provider_config : Option ProviderConfig

pub record PlatformRunnerConfigs (N : Type 0) : Type 0 where
  pub runners : List (RunnerConfig N)
  pub web_url : Text

pub record RunnerConfigsOutput (N : Type 0) : Type 0 where
  pub runners : List (RunnerConfig N)
  pub count : ℕ
  pub web_url : Text
