-- ===== src/McpServer/Wire.antt =====
-- What the platform's API answers and what the tools return, internal/mcpserver/tools.go and
-- tools_runners.go. `N` is the type of the decoded numbers; the tools copy most of them.
pub mod Runners
use buildpulse_mcp.Common.{ℕ, Text, Option, Bool, List}
use buildpulse_mcp.McpServer.Validate.{ℤ}

-- The body of a 402 or a 403.
pub record PlanBody : Type 0 where
  pub code : Text
  pub message : Text
  pub upgrade_url : Text

-- PlanLimitError and PlanRequiredError
pub record PlanError : Type 0 where
  pub message : Text
  pub upgrade_url : Text

pub record Organization : Type 0 where
  pub id : Text
  pub name : Text
  pub slug : Text

pub record Repository : Type 0 where
  pub id : Text
  pub name : Text
  pub full_name : Text
  pub url : Text
  pub description : Text

pub record RepositoryOut : Type 0 where
  pub id : Text
  pub name : Text
  pub full_name : Text
  pub url : Text
  pub description : Text
  pub web_url : Text

pub record FlakyTest (N : Type 0) : Type 0 where
  pub id : Text
  pub name : Text
  pub suite : Text
  pub class : Text
  pub file : Text
  pub disruptor_type : Text
  pub disruptiveness_ratio : Option N
  pub disruption_count : Option N
  pub first_disruption_at : Option Text
  pub tags : List Text
  pub time_consumed : Option N
  pub pass_rate : Option N
  pub avg_duration_ms : Option N

-- A test with its link.
pub record FlakyTestOut (N : Type 0) : Type 0 where
  pub id : Text
  pub name : Text
  pub suite : Text
  pub class : Text
  pub file : Text
  pub disruptor_type : Text
  pub disruptiveness_ratio : Option N
  pub disruption_count : Option N
  pub first_disruption_at : Option Text
  pub tags : List Text
  pub time_consumed : Option N
  pub pass_rate : Option N
  pub avg_duration_ms : Option N
  pub web_url : Text

pub record FlakyTests (N : Type 0) : Type 0 where
  pub count : N
  pub tests : List (FlakyTest N)

pub record FindFlakyInput : Type 0 where
  pub repository : Text
  pub organization_id : Text
  pub tags : List Text
  pub search : Text
  pub since_date : Text
  pub sort : Text
  pub quarantined : Bool
  pub limit : ℤ

pub record FindFlakyOutput (N : Type 0) : Type 0 where
  pub repository : Text
  pub count : N
  pub tests : List (FlakyTestOut N)
  pub web_url : Text

pub record DisruptionEvent : Type 0 where
  pub id : Text
  pub build_url : Text
  pub commit_oid : Text
  pub conclusion : Text
  pub recorded_at : Text
  pub message : Option Text

pub record TestHistoryOutput : Type 0 where
  pub test_id : Text
  pub count : ℕ
  pub events : List DisruptionEvent
  pub web_url : Text

pub record Submission (N : Type 0) : Type 0 where
  pub id : Text
  pub key : Text
  pub build_url : Text
  pub commit_oid : Text
  pub recorded_at : Text
  pub status : Text
  pub test_result_count : N

-- A page of items with the cursor of the next one.
pub record Page (N A : Type 0) : Type 0 where
  pub count : N
  pub items : List A
  pub after : Option Text

pub record SubmissionsInput : Type 0 where
  pub owner : Text
  pub name : Text
  pub organization_id : Text
  pub limit : ℤ

pub record SubmissionsOutput (N : Type 0) : Type 0 where
  pub owner : Text
  pub name : Text
  pub count : N
  pub submissions : List (Submission N)
  pub next_cursor : Option Text
  pub web_url : Text

pub record TestResult (N : Type 0) : Type 0 where
  pub id : Text
  pub test_case_id : Text
  pub name : Text
  pub suite : Text
  pub class : Text
  pub file : Text
  pub conclusion : Text
  pub duration_us : N
  pub message : Option Text
  pub body : Option Text
  pub ran_at : Text
  pub run_count : N

pub record TestResultsInput : Type 0 where
  pub owner : Text
  pub name : Text
  pub submission_id : Text
  pub status : Text
  pub organization_id : Text
  pub limit : ℤ

pub record TestResultsOutput (N : Type 0) : Type 0 where
  pub owner : Text
  pub name : Text
  pub submission_id : Text
  pub status : Text
  pub count : N
  pub tests : List (TestResult N)
  pub next_cursor : Option Text
  pub web_url : Text

-- What get_recent_failures reads of a submission, and of a failed test.
pub record SubmissionLite : Type 0 where
  pub id : Text
  pub build_url : Text

pub record FailedTest (N : Type 0) : Type 0 where
  pub test_case_id : Text
  pub name : Text
  pub suite : Text
  pub class : Text
  pub file : Text
  pub duration_us : N
  pub message : Option Text
  pub body : Option Text
  pub ran_at : Text

pub record RecentFailuresInput : Type 0 where
  pub owner : Text
  pub name : Text
  pub organization_id : Text
  pub submissions : ℤ

pub record RecentFailureOut (N : Type 0) : Type 0 where
  pub test_case_id : Text
  pub name : Text
  pub suite : Text
  pub class : Text
  pub file : Text
  pub failure_count : ℕ
  pub most_recent_ran_at : Text
  pub most_recent_build_url : Text
  pub most_recent_message : Option Text
  pub most_recent_body : Option Text
  pub most_recent_duration_us : N

pub record RecentFailuresOutput (N : Type 0) : Type 0 where
  pub owner : Text
  pub name : Text
  pub submissions_inspected : ℕ
  pub unique_tests_failed : ℕ
  pub failures : List (RecentFailureOut N)
  pub web_url : Text

pub record MetricInput : Type 0 where
  pub repository : Text
  pub organization_id : Text

-- flakinessOutput and coverageOutput
pub record MetricOutput (N : Type 0) : Type 0 where
  pub repository : Text
  pub percentage : N
  pub color : Text
  pub badge_url : Text
  pub web_url : Text
