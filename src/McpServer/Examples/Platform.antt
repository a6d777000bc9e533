-- ===== src/McpServer/Examples/Platform.antt =====
-- A small platform, and the theorems about calls of the tools on it.
use buildpulse_mcp.Common.{
  ℕ, ◌+◌, ◌<◌, ◌≡◌, ◌↔◌, ◌⊎◌, refl, ◌*◌, Text, codes, ◌==◌, has_prefix, contains_text, is_empty,
  trim_space, trim_left, All, map, length, true, false, ltb, leb, eqb, Map, none, some, List, [],
  ◌∷◌, ok, err, if◌then◌else◌, arith,
}
use buildpulse_mcp.Library.{Library}
use buildpulse_mcp.Oauth.Examples.{lib, page_url}
use buildpulse_mcp.McpServer.Client.{resolve_api_url, OrgsCache, cached_organizations}
use buildpulse_mcp.McpServer.Wire.{PlanError, Organization, RecentFailureOut}
use buildpulse_mcp.McpServer.Platform.{
  answered, Platform, plan_limit, plan_required, unauthorized, not_found, plan_limit_code, Request,
  request_url, get_request,
}
use buildpulse_mcp.McpServer.Platform.Answers.{Says, get_request_iff}
use buildpulse_mcp.McpServer.Tool.{ToolError, message, start, pure, roster, refusal, resolve_org_id}
use buildpulse_mcp.McpServer.Gate.{Process}
use buildpulse_mcp.McpServer.Gate.Outcome.{admitted, IsRefused, IsServed, guarded_outcome}
use buildpulse_mcp.McpServer.Tools.Registered.{for_repositories, call_scoped}
use buildpulse_mcp.McpServer.Tools.Registered.Scope.{IsScoped, call_scoped-IsScoped}
use buildpulse_mcp.McpServer.Tools.Registered.Refusal.{OnlyLooked, Shows, call_scoped-refuses}

-- A path parses to a URL without a scheme and a host.
abbrev path_lib : Library
path_lib = record lib {
  parse_url = λ raw.
      if has_prefix raw (codes "/")
      then some (record page_url { scheme = []; host = []; hostname = [] })
      else some page_url;
}

-- Every body is one repository, and every answer a 200, but to the second request of a call.
abbrev pub small : Platform ℕ
small = record {
  base_url = codes "https://a.co";
  lib = path_lib;
  numbers = record {
    of_nat = λ n. n;
    minus_one = 0;
    parse_float = λ t. some (length t);
    lt = ltb;
    le = leb;
    eq = eqb;
  };
  resolve_reference = λ base rel. base;
  path_escape = λ t. t;
  query_escape = λ t. t;
  itoa = λ n. codes "7";
  is_date = λ t. true;
  rfc3339 = λ t. codes "2026";
  plan_body = λ t. some (record { code = t; message = codes "over"; upgrade_url = [] });
  organizations = λ t. some [];
  repositories = λ t.
      some (record { id = codes "1"; name = t; full_name = t; url = []; description = [] } ∷ []);
  flaky_tests = λ t. some (record { count = 0; tests = [] });
  disruption_events = λ t. none;
  submissions = λ t. none;
  test_results = λ t. none;
  submission_ids = λ t. none;
  failed_tests = λ t. none;
  runner_status = λ t. none;
  runner_usage = λ t. none;
  runner_configs = λ t. none;
  send = λ n u. answered (200 + n * 202) plan_limit_code [];
}

abbrev health : Request
health = record { path = codes "/api/x"; params = [] }

resolves : request_url small health ≡ ok page_url
unfolding request_url resolve_api_url has_prefix contains_text ◌==◌
resolves = refl

abbrev over : PlanError
over = record { message = codes "over"; upgrade_url = [] }

get_request_iff_example :
    ((get_request small 1 health ≡ ok (plan_limit_code, [])) ↔ (402 < 400))
    × ((get_request small 1 health ≡ err (plan_limit over))
        ↔ ((◌≡◌ {A = ℕ} 402 402) × Says small plan_limit_code (codes "plan_limit_exceeded") over))
    × ((get_request small 1 health ≡ err (plan_required over))
        ↔ ((◌≡◌ {A = ℕ} 402 403) × Says small plan_limit_code (codes "plan_required") over))
    × ((get_request small 1 health ≡ err unauthorized) ↔ (◌≡◌ {A = ℕ} 402 401))
    × ((get_request small 1 health ≡ err not_found) ↔ (◌≡◌ {A = ℕ} 402 404))
get_request_iff_example =
    get_request_iff small 1 health page_url 402 plan_limit_code [] over resolves refl

abbrev listed : Map (RecentFailureOut ℕ) → List (RecentFailureOut ℕ)
listed rows = map (λ e. e.1) rows

abbrev two : List Organization
two =
    record { id = codes "a1"; name = codes "A"; slug = codes "a" }
    ∷ record { id = codes "b2"; name = codes "B"; slug = [] }
    ∷ []

abbrev remembered : OrgsCache Organization
remembered = record { orgs = two; cached = true; expires = 100 }

abbrev one_org : Text
one_org = codes " 01234567-0123-0123-0123-0123456789ab "

call_scoped-IsScoped_example :
    IsScoped one_org
      (call_scoped small 5 6 7 listed (for_repositories one_org) (start remembered)).1
call_scoped-IsScoped_example =
    call_scoped-IsScoped small 5 6 7 listed (for_repositories one_org) remembered

bare : is_empty (trim_space (codes " ")) ≡ true
unfolding trim_space trim_left
bare = refl

known : (roster small 5 6 (start remembered)).0 ≡ ok two
unfolding cached_organizations
known = refl

call_scoped-refuses_example :
    ((e : ToolError) × ((call_scoped small 5 6 7 listed
          (for_repositories (codes " "))
          (start remembered)).0
        ≡ err e))
    × OnlyLooked
        (call_scoped small 5 6 7 listed (for_repositories (codes " ")) (start remembered)).1
    × ((resolve_org_id small 5 6 (codes " ") (start remembered)).0
        ≡ err (message (refusal small two)))
    × All (Shows (refusal small two)) two
call_scoped-refuses_example =
    call_scoped-refuses small 5 6 7 listed two (for_repositories (codes " ")) remembered bare known
      (omega arith)

-- A process with one earlier call of the token "t".
abbrev process : Process
process = record { limiter = (codes "t", 5 ∷ []) ∷ []; audit = []; session = start remembered }

guarded_outcome_example :
    ((admitted {A = ℕ} lib (codes "t") (codes "tool") [] 9 (pure 7) process ≡ false)
      × IsRefused {A = ℕ} lib (codes "t") (codes "tool") [] 9 (pure 7) process)
    ⊎ ((admitted {A = ℕ} lib (codes "t") (codes "tool") [] 9 (pure 7) process ≡ true)
        × IsServed {A = ℕ} lib (codes "t") (codes "tool") [] 9 (pure 7) process)
guarded_outcome_example = guarded_outcome lib (codes "t") (codes "tool") [] 9 (pure 7) process
