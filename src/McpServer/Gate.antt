-- ===== src/McpServer/Gate.antt =====
-- What stands around every handler: the budget and the audit line of internal/mcpserver/policy.go, and
-- the texts for errors of the organization's plan in tools.go.
pub mod Outcome
use buildpulse_mcp.Common.{
  ℕ, Text, codes, String, is_empty, trim_space, take, true, false, List, [], ◌∷◌, ◌++◌, Bool,
  Result, ok, err, if◌then◌else◌,
}
use buildpulse_mcp.Library.{Library}
use buildpulse_mcp.McpServer.Policy.{TokenLimiter, allow}
use buildpulse_mcp.McpServer.Wire.{PlanError}
use buildpulse_mcp.McpServer.Platform.{plan_limit, plan_required}
use buildpulse_mcp.McpServer.Tool.{ToolError, api, message, Session, Tool}

abbrev with_default : Text → Text → Text
with_default default msg = if is_empty msg then default else msg

abbrev with_link : Text → Text → Text
with_link lead url = if is_empty url then [] else lead ++ url

unfoldable pub plan_limit_text : PlanError → Text
plan_limit_text e =
    with_default
      (codes "Your BuildPulse organization is over its plan's monthly test-result limit.")
      (trim_space e.message)
    ++ codes
        "\n\nNothing has been lost: BuildPulse is still recording every test result for your organization. Only read access to this data is paused until you upgrade."
    ++ with_link (codes "\n\nUpgrade your plan to restore access: ") (trim_space e.upgrade_url)

unfoldable pub plan_required_text : PlanError → Text
plan_required_text e =
    with_default
      (codes
        "This BuildPulse organization's plan does not include API or MCP access. A paid Test Intelligence plan or a paid BuildPulse runner subscription unlocks it.")
      (trim_space e.message)
    ++ codes "\n\nThe sign-in itself worked; this is a plan setting, not a credential problem."
    ++ with_link (codes "\n\nPlans and runner pricing: ") (trim_space e.upgrade_url)

-- errors.As for the two types of error, of the errors that a handler returns.
unfoldable pub friendly : ToolError → ToolError
friendly (api (plan_limit e)) = message (plan_limit_text e)
friendly (api (plan_required e)) = message (plan_required_text e)
friendly e = e

abbrev pub map_error : {A : Type 0} → Result ToolError A → Result ToolError A
map_error (ok a) = ok a
map_error (err e) = err (friendly e)

unfoldable pub overage_aware : {A : Type 0} → Tool A → Tool A
overage_aware h s = (map_error (h s).0, (h s).1)

abbrev pub rate_limited_text : Text
rate_limited_text =
    codes
      "This BuildPulse token has hit the per-minute tool-call limit (120 calls / 1m0s). Wait a few seconds and retry. The session is still valid; nothing was revoked."

abbrev pub rate_limited : {A : Type 0} → Result ToolError A
rate_limited = err (message rate_limited_text)

-- the arguments of auditf, with the organization as it is printed
pub record AuditLine : Type 0 where
  pub tool : Text
  pub org : Text
  pub status : String

abbrev pub audit_line : Text → Text → String → AuditLine
audit_line tool org status = record {
  tool = tool;
  org = if is_empty org then codes "-" else org;
  status = status;
}

unfoldable pub token_key : Library → Text → Text
token_key lib token = if is_empty token then [] else lib.hex (take 8 (lib.sha256 token))

-- The process's limiter and log, and the session of the client.
pub record Process : Type 0 where
  pub limiter : TokenLimiter
  pub audit : List AuditLine
  pub session : Session

abbrev pub status_of : {A : Type 0} → Result ToolError A → String
status_of (ok a) = "ok"
status_of (err e) = "error"

abbrev pub finish :
    {A : Type 0}
    → Text
    → Text
    → Process
    → Result ToolError A × Session
    → Result ToolError A × Process
finish tool org s (r, session) =
    (r, record s { audit = s.audit ++ audit_line tool org (status_of r) ∷ []; session = session })

-- `org` is what organizationIDFrom makes of the input. The handlers return no result of their own,
-- so that only an error makes the status "error".
unfoldable pub guarded :
    {A : Type 0}
    → Library
    → Text
    → Text
    → Text
    → ℕ
    → Tool A
    → Process
    → Result ToolError A × Process
guarded lib token tool org now h s =
    let (allowed, limiter) = allow s.limiter (token_key lib token) now in
    if allowed
    then finish tool org (record s { limiter = limiter }) (overage_aware h s.session)
    else (
      rate_limited,
      record s { limiter = limiter; audit = s.audit ++ audit_line tool org "rate_limited" ∷ [] },
    )
