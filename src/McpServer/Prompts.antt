-- ===== src/McpServer/Prompts.antt =====
-- The prompts of internal/mcpserver/prompts.go. A prompt's one message has the role "user"; a text
-- that is returned as an error is an error of the request.
pub mod Texts
pub mod Answers
use buildpulse_mcp.Common.{
  Text, codes, String, Map, get, is_empty, Option, none, some, Bool, true, false, ◌||◌, List, [],
  ◌∷◌, ◌++◌, Result, ok, err, if◌then◌else◌,
}
use buildpulse_mcp.McpServer.Prompts.Texts.{
  estimate_runner_savings_text, triage_flaky_tests_text, ci_health_check_text,
  explain_test_failure_text, whats_red_text,
}

pub record GetPromptResult : Type 0 where
  pub description : Text
  pub text : Text

pub record PromptArgument : Type 0 where
  pub name : String
  pub description : Text
  pub required : Bool

abbrev pub PromptHandler : Type 0
PromptHandler = Map Text → Result Text GetPromptResult

pub record Prompt : Type 0 where
  pub name : Text
  pub title : Text
  pub description : Text
  pub arguments : List PromptArgument
  pub handler : PromptHandler

-- req.Params.Arguments[name], the empty text if it is missing
unfoldable pub argument : Map Text → String → Text
argument args name = elim (get args (codes name)) [ none ↦ [] | some v ↦ v ]

-- The phrase that names the organization, if one is given.
unfoldable pub org_phrase : Text → Text
org_phrase org_id =
    if is_empty org_id then [] else codes " with `organization_id=\"" ++ org_id ++ codes "\"`"

-- How the repositories to sample are found.
unfoldable pub repo_phrase : Text → Text → Text
repo_phrase repo org_arg =
    if is_empty repo
    then codes "call `list_repositories`"
      ++ org_arg
      ++ codes " and pick the two or three repositories that look busiest (most recent activity)"
    else codes "use the repository **" ++ repo ++ codes "**"

unfoldable pub estimate_runner_savings : PromptHandler
estimate_runner_savings args =
    let org_arg = org_phrase (argument args "organization_id") in
    ok (record {
      description = codes "Estimate BuildPulse runner savings";
      text =
          estimate_runner_savings_text org_arg (repo_phrase (argument args "repository") org_arg);
    })

unfoldable pub triage_flaky_tests : PromptHandler
triage_flaky_tests args =
    let repo = argument args "repository" in
    if is_empty repo
    then err (codes "repository argument is required")
    else ok (record {
      description = codes "Triage flaky tests for " ++ repo;
      text = triage_flaky_tests_text repo;
    })

unfoldable pub ci_health_check : PromptHandler
ci_health_check args =
    let repo = argument args "repository" in
    if is_empty repo
    then err (codes "repository argument is required")
    else ok (record {
      description = codes "Health snapshot for " ++ repo;
      text = ci_health_check_text repo;
    })

unfoldable pub explain_test_failure : PromptHandler
explain_test_failure args =
    let test_id = argument args "test_id" in
    if is_empty test_id
    then err (codes "test_id argument is required")
    else ok (record {
      description = codes "Explain test failure for " ++ test_id;
      text = explain_test_failure_text test_id;
    })

unfoldable pub whats_red : PromptHandler
whats_red args =
    let owner = argument args "owner" in
    let name = argument args "name" in
    if is_empty owner || is_empty name
    then err (codes "owner and name are required")
    else ok (record {
      description = codes "What broke " ++ owner ++ codes "/" ++ name;
      text = whats_red_text owner name;
    })

-- registerPrompts
abbrev pub prompts : List Prompt
prompts =
    record {
      name = codes "estimate_runner_savings";
      title = codes "Estimate BuildPulse runner savings";
      description =
          codes
            "Work out what BuildPulse runners would save (or are saving) this organization. If runners are not activated yet, estimate CI minutes from recent runs and price them at BuildPulse versus GitHub list rate, then point at the setup page. If they are, summarise the last 30 days of usage, cost and savings.";
      arguments =
          record {
            name = "organization_id";
            description =
                codes
                  "Organization UUID from list_my_organizations (required for multi-org sessions)";
            required = false;
          }
          ∷ record {
            name = "repository";
            description =
                codes
                  "Optional: a repository name to sample CI runs from when estimating; otherwise the busiest repositories are used";
            required = false;
          }
          ∷ [];
      handler = estimate_runner_savings;
    }
    ∷ record {
      name = codes "triage_flaky_tests";
      title = codes "Triage flaky tests";
      description =
          codes
            "Walk through the flakiest tests in a repository and propose next actions (quarantine, owner assignment, root-cause hypotheses).";
      arguments =
          record { name = "repository"; description = codes "Repository name"; required = true }
          ∷ [];
      handler = triage_flaky_tests;
    }
    ∷ record {
      name = codes "ci_health_check";
      title = codes "CI health snapshot";
      description =
          codes
            "One-shot health snapshot for a repository: flakiness %, coverage %, and the top three flaky tests of the week.";
      arguments =
          record { name = "repository"; description = codes "Repository name"; required = true }
          ∷ [];
      handler = ci_health_check;
    }
    ∷ record {
      name = codes "explain_test_failure";
      title = codes "Explain a test failure";
      description =
          codes
            "Given a specific BuildPulse test_id, fetch its recent disruption history and propose a hypothesis for the root cause.";
      arguments =
          record {
            name = "test_id";
            description = codes "The BuildPulse test ID (24-char hex) from find_flaky_tests";
            required = true;
          }
          ∷ [];
      handler = explain_test_failure;
    }
    ∷ record {
      name = codes "whats_red";
      title = codes "What broke my CI?";
      description =
          codes
            "Given an owner + repo, list the most-recent CI runs and identify what's currently red.";
      arguments =
          record { name = "owner"; description = codes "Repository owner"; required = true }
          ∷ record { name = "name"; description = codes "Repository name"; required = true }
          ∷ [];
      handler = whats_red;
    }
    ∷ []
