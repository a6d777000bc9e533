-- ===== src/McpServer/Tool.antt =====
-- A call of a tool: what it changes, how it fails, the choice of an organization in
-- internal/mcpserver/tools.go, and the wrappers around a handler in tools.go and policy.go.
pub mod Triples
use buildpulse_mcp.Common.{
  ℕ, ◌+◌, Text, codes, ◌==◌, is_empty, trim_space, Map, put, length, take, ltb, leb, ◌&&◌, Option,
  none, some, Bool, true, false, List, [], ◌∷◌, ◌++◌, Result, ok, err, if◌then◌else◌,
}
use buildpulse_mcp.Library.{Library}
use buildpulse_mcp.McpServer.Validate.{pos, ValidationError, validate_organization_id}
use buildpulse_mcp.McpServer.Client.{OrgsCache, cached_organizations}
use buildpulse_mcp.McpServer.Wire.{PlanError, Organization}
use buildpulse_mcp.McpServer.Platform.{
  Platform, ApiError, plan_limit, plan_required, Request, get_request, get_json,
}

-- `message` is an error with a text of its own.
pub data ToolError : Type 0 where
  invalid : ValidationError → ToolError
  api : ApiError → ToolError
  message bad_since : Text → ToolError
  days_out_of_range bad_uri : ToolError

-- What the client remembers of the organizations, and the GETs of the call, the first one first.
pub record Session : Type 0 where
  pub orgs : OrgsCache Organization
  pub requests : List Request

abbrev pub start : OrgsCache Organization → Session
start orgs = record { orgs = orgs; requests = [] }

abbrev pub Tool : Type 0 → Type 0
Tool A = Session → Result ToolError A × Session

abbrev pub pure : {A : Type 0} → A → Tool A
pure a s = (ok a, s)

abbrev pub fail : {A : Type 0} → ToolError → Tool A
fail e s = (err e, s)

abbrev pub continue :
    {A B : Type 0} → Result ToolError A → Session → (A → Tool B) → Result ToolError B × Session
continue (ok a) s f = f a s
continue (err e) s f = (err e, s)

infixl 5 ◌>>=◌ ◌>>◌
abbrev pub ◌>>=◌ : {A B : Type 0} → Tool A → (A → Tool B) → Tool B
◌>>=◌ m f s = continue (m s).0 (m s).1 f

abbrev pub ◌>>◌ : {B : Type 0} → Tool (Unit {0}) → Tool B → Tool B
m >> k = m >>= λ _. k

-- A check of an argument.
abbrev pub check : {A : Type 0} → Result ValidationError A → Tool A
check (ok a) = pure a
check (err e) = fail (invalid e)

abbrev pub check_none : Option ValidationError → Tool (Unit {0})
check_none none = pure tt
check_none (some e) = fail (invalid e)

abbrev pub lift : {A : Type 0} → Result ApiError A → Result ToolError A
lift (ok a) = ok a
lift (err e) = err (api e)

abbrev pub organization_key : Text
organization_key = codes "organization_id"

-- addOrgParam
unfoldable pub add_org_param : Map Text → Text → Map Text
add_org_param params raw =
    let org_id = trim_space raw in
    if is_empty org_id then params else put params organization_key org_id

abbrev pub roster_request : Request
roster_request = record { path = codes "/api/me/organizations"; params = [] }

abbrev with_request : Session → Request → Session
with_request s r = record s { requests = s.requests ++ r ∷ [] }

abbrev is_fresh : ℕ → OrgsCache Organization → Bool
is_fresh now c = c.cached && ltb now c.expires

abbrev pub org_lead : Organization → Text
org_lead o =
    codes "\n- "
    ++ o.name
    ++ (if is_empty o.slug then [] else codes " (" ++ o.slug ++ codes ")")
    ++ codes ": "

-- One line of the refusal.
unfoldable pub org_line : Organization → Text
org_line o = org_lead o ++ o.id

unfoldable pub org_lines : List Organization → Text
org_lines [] = []
org_lines (o ∷ orgs) = org_line o ++ org_lines orgs

module _ {N : Type 0} (p : Platform N) where
  unfoldable pub get_tool : Request → Tool (Text × Text)
  get_tool r s = (lift (get_request p (length s.requests) r), with_request s r)

  unfoldable pub get_json_tool : {A : Type 0} → (Text → Option A) → Request → Tool A
  get_json_tool decode r s = (lift (get_json p decode (length s.requests) r), with_request s r)

  abbrev pub refusal_lead : ℕ → Text
  refusal_lead n =
      codes "This BuildPulse session can access "
      ++ p.itoa (pos n)
      ++ codes
          " organizations, so a repository-scoped call must specify which one to use. Pass the `organization_id` argument (the `id` from list_my_organizations) set to one of:"

  unfoldable pub refusal : List Organization → Text
  refusal orgs = refusal_lead (length orgs) ++ org_lines orgs

  abbrev pub choose : List Organization → Tool Text
  choose orgs = if leb (length orgs) 1 then pure [] else fail (message (refusal orgs))

-- `now` and `later` are the times before and after a look-up of the organizations.
module _ {N : Type 0} (p : Platform N) (now later : ℕ) where
  abbrev pub roster : Session → Result ApiError (List Organization) × OrgsCache Organization
  roster s =
      cached_organizations now later (get_json p p.organizations (length s.requests) roster_request)
        s.orgs

  unfoldable pub look_up : Tool (List Organization)
  look_up s = (
    lift (roster s).0,
    record {
      orgs = (roster s).1;
      requests = if is_fresh now s.orgs then s.requests else s.requests ++ roster_request ∷ [];
    },
  )

  -- The organization that a call is about; the empty text leaves the choice to the platform.
  unfoldable pub resolve_org_id : Text → Tool Text
  unfolding look_up refusal
  resolve_org_id raw = do
    check_none (validate_organization_id raw)
    if is_empty (trim_space raw) then look_up >>= choose p else pure (trim_space raw)
