-- ===== src/McpServer/Tools/Registered/Refusal.antt =====
-- What a tool does in a session with several organizations if its input names none.
use buildpulse_mcp.Common.{
  ℕ, ◌≤◌, ◌≡◌, refl, sym, ap, ◌∙◌, Text, is_empty, trim_space, subst, true, false, Bool, ltb, ◌&&◌,
  if◌then◌else◌, none, Map, List, [], ◌∷◌, ◌++◌, append_assoc, append-nil, All, length, leb, Result,
  Result-cases, inl, inr, ok, err, arith,
}
use buildpulse_mcp.McpServer.Validate.{validate_organization_id}
use buildpulse_mcp.McpServer.Client.{OrgsCache}
use buildpulse_mcp.McpServer.Wire.{Organization, RecentFailureOut}
use buildpulse_mcp.McpServer.Platform.{Platform, Request}
use buildpulse_mcp.McpServer.Tool.{
  ToolError, message, Session, start, roster_request, roster, look_up, org_lead, refusal_lead,
  org_line, org_lines, refusal, resolve_org_id,
}
use buildpulse_mcp.McpServer.Tools.Registered.{ScopedCall, org_of, call_scoped}
use buildpulse_mcp.McpServer.Tools.Registered.Composed.{Steps}
use buildpulse_mcp.McpServer.Tools.Registered.Calls.{call_scoped-Triple}

-- A text that shows the id of an organization.
abbrev pub Shows : Text → Organization → Type 0
Shows text o = (before after : Text) × (text ≡ before ++ o.id ++ after)

Shows-prepend : (t text : Text) (o : Organization) → Shows text o → Shows (t ++ text) o
Shows-prepend t text o (before, after, e) = (
  t ++ before,
  after,
  ap (λ x. t ++ x) e
      ∙ sym (append_assoc t (before ++ o.id) after)
      ∙ ap (λ x. x ++ after) (sym (append_assoc t before o.id)),
)

Shows-append : (text t : Text) (o : Organization) → Shows text o → Shows (text ++ t) o
Shows-append text t o (before, after, e) =
    (before, after ++ t, ap (λ x. x ++ t) e ∙ append_assoc (before ++ o.id) after t)

org_line-Shows : (o : Organization) → Shows (org_line o) o
unfolding org_line
org_line-Shows o = Shows-prepend (org_lead o) o.id o ([], [], sym (append-nil o.id))

All-prepend :
    (t text : Text) (orgs : List Organization)
    → All (Shows text) orgs
    → All (Shows (t ++ text)) orgs
All-prepend t text [] h = tt
All-prepend t text (o ∷ orgs) (h, hs) = (Shows-prepend t text o h, All-prepend t text orgs hs)

org_lines-Shows : (orgs : List Organization) → All (Shows (org_lines orgs)) orgs
unfolding org_lines
org_lines-Shows [] = tt
org_lines-Shows (o ∷ orgs) = (
  Shows-append (org_line o) (org_lines orgs) o (org_line-Shows o),
  All-prepend (org_line o) (org_lines orgs) orgs (org_lines-Shows orgs),
)

abbrev pub IsLookUp : Request → Type 0
IsLookUp r = r ≡ roster_request

-- Nothing was asked but the organizations.
abbrev pub OnlyLooked : Session → Type 0
OnlyLooked s = All IsLookUp s.requests

module _ {N : Type 0} (p : Platform N) (now later asked : ℕ)
    (entries : Map (RecentFailureOut N) → List (RecentFailureOut N))
    (orgs : List Organization) where
  refusal-Shows : All (Shows (refusal p orgs)) orgs
  unfolding refusal
  refusal-Shows =
      All-prepend (refusal_lead p (length orgs)) (org_lines orgs) orgs (org_lines-Shows orgs)

  module _ (cache : OrgsCache Organization)
      (answered : (roster p now later (start cache)).0 ≡ ok orgs) (many : 2 ≤ length orgs)
      (raw : Text) (bare : is_empty (trim_space raw) ≡ true) where
    abbrev IsOpen : Session → Type 0
    IsOpen s = s ≡ start cache

    looked : (fresh : Bool) → All IsLookUp (if fresh then [] else roster_request ∷ [])
    looked true = tt
    looked false = (refl, tt)

    several : leb (length orgs) 1 ≡ false
    several = ground (arith, many)

    valid : validate_organization_id raw ≡ none
    unfolding validate_organization_id
    valid = rw bare refl

    refuses :
        ((resolve_org_id p now later raw (start cache)).0 ≡ err (message (refusal p orgs)))
        × OnlyLooked (resolve_org_id p now later raw (start cache)).1
    unfolding resolve_org_id look_up
    refuses =
        rw (valid, bare, answered, several) (refl, looked (cache.cached && ltb now cache.expires))

    clash :
        {r : Result ToolError Text} {e : ToolError} {org_id : Text} → r ≡ err e → r ≡ ok org_id → ⊥
    clash h g = absurd (cc)

    refusing_steps : Steps p now later raw IsOpen OnlyLooked (λ _. ⊥) ⊥
    refusing_steps = record {
      weaker = λ s e. subst OnlyLooked (sym e) tt;
      resolves = λ s e.
          subst
            (λ s.
              OnlyLooked (resolve_org_id p now later raw s).1
              × ((org_id : Text) → (resolve_org_id p now later raw s).0 ≡ ok org_id → ⊥))
            (sym e) (refuses.1, λ org_id g. clash (refuses.0) g);
      concludes = λ org_id q. q;
      adds = λ s r org_id q names h. absurd q;
    }

  -- In a session in which the look-up gives two or more organizations, a tool that takes an
  -- organization and is called without one, or with white space only, returns an error and sends
  -- nothing but that look-up, whatever its other arguments are. The error of the choice is the
  -- refusal, which shows the id of every one of the organizations.
  pub call_scoped-refuses :
      (c : ScopedCall) (cache : OrgsCache Organization)
      → is_empty (trim_space (org_of c)) ≡ true
      → (roster p now later (start cache)).0 ≡ ok orgs
      → 2 ≤ length orgs
      → ((e : ToolError) × ((call_scoped p now later asked entries c (start cache)).0 ≡ err e))
        × OnlyLooked (call_scoped p now later asked entries c (start cache)).1
        × ((resolve_org_id p now later (org_of c) (start cache)).0 ≡ err (message (refusal p orgs)))
        × All (Shows (refusal p orgs)) orgs
  call_scoped-refuses c cache bare answered many =
      let steps = refusing_steps cache answered many (org_of c) bare in
      let (only, impossible) =
        call_scoped-Triple p now later asked (org_of c) entries steps c refl (start cache) refl in
      (
        elim (Result-cases (call_scoped p now later asked entries c (start cache)).0) [
          | inl fails ↦ fails
          | inr (a, returns) ↦ absurd (impossible a returns)
        ],
        only,
        (refuses cache answered many (org_of c) bare).0,
        refusal-Shows,
      )
