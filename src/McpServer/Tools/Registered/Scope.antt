-- ===== src/McpServer/Tools/Registered/Scope.antt =====
-- Which organization the requests of a tool are about.
use buildpulse_mcp.Common.{
  ℕ, ◌≡◌, inl, inr, refl, ◌∙◌, Text, is_empty, trim_space, trim_space-trim_space, Bool-cases, true,
  Map, get, List, [], ◌∷◌, All, All-append, length, leb, ltb, ◌&&◌,
}
use buildpulse_mcp.McpServer.Validate.{validate_organization_id}
use buildpulse_mcp.McpServer.Client.{OrgsCache}
use buildpulse_mcp.McpServer.Wire.{Organization, RecentFailureOut}
use buildpulse_mcp.McpServer.Platform.{Platform}
use buildpulse_mcp.McpServer.Tool.{Session, start, roster_request, look_up, choose, resolve_org_id}
use buildpulse_mcp.McpServer.Tool.Triples.{
  Triple, Any, pure-Triple, fail-Triple, check_none-Triple, bind-Triple, if-Triple,
}
use buildpulse_mcp.McpServer.Tools.Registered.{ScopedCall, org_of, call_scoped}
use buildpulse_mcp.McpServer.Tools.Registered.Params.{selected, Names}
use buildpulse_mcp.McpServer.Tools.Registered.Composed.{Steps}
use buildpulse_mcp.McpServer.Tools.Registered.Calls.{call_scoped-Triple}

-- Every request of the session names the organization of `raw`.
abbrev pub IsScoped : Text → Session → Type 0
IsScoped raw s = All (Names raw) s.requests

module _ {N : Type 0} (p : Platform N) (now later asked : ℕ)
    (entries : Map (RecentFailureOut N) → List (RecentFailureOut N)) where
  module _ (raw : Text) where
    -- A resolved organization selects as `raw` does.
    abbrev SelectsAlike : Text → Type 0
    SelectsAlike org_id = selected org_id ≡ selected raw

    look_up-IsScoped :
        is_empty (trim_space raw) ≡ true
        → (s : Session) → IsScoped raw s
        → IsScoped raw (look_up p now later s).1
    unfolding look_up get
    look_up-IsScoped bare s h = elim (Bool-cases (s.orgs.cached && ltb now s.orgs.expires)) [
      | inl fresh ↦ rw fresh h
      | inr stale ↦
          rw stale (All-append (Names raw) s.requests (roster_request ∷ []) h (rw bare refl, tt))
    ]

    look_up-Triple :
        is_empty (trim_space raw) ≡ true
        → Triple (IsScoped raw) (look_up p now later) (IsScoped raw) Any
    look_up-Triple bare s h = (look_up-IsScoped bare s h, λ a e. tt)

    choose-Triple :
        (orgs : List Organization)
        → is_empty (trim_space raw) ≡ true
        → Triple (IsScoped raw) (choose p orgs) (IsScoped raw) SelectsAlike
    unfolding trim_space
    choose-Triple orgs bare =
        if-Triple (IsScoped raw) SelectsAlike (leb (length orgs) 1) _ _
          (λ few. pure-Triple (λ s h. h) [] (rw bare refl)) (λ many. fail-Triple (λ s h. h) _)

    resolve-Scoped :
        Triple (IsScoped raw) (resolve_org_id p now later raw) (IsScoped raw) SelectsAlike
    unfolding resolve_org_id
    resolve-Scoped =
        check_none-Triple (λ s h. h) (validate_organization_id raw) _
          (if-Triple (IsScoped raw) SelectsAlike (is_empty (trim_space raw)) _ _
            (λ bare.
              bind-Triple {Mid = (IsScoped raw)} (look_up p now later) (choose p) (λ s h. h)
                (look_up-Triple bare) (λ orgs _. choose-Triple orgs bare))
            (λ given. pure-Triple (λ s h. h) _ (rw (trim_space-trim_space raw) refl)))

    organization_steps : Steps p now later raw (IsScoped raw) (IsScoped raw) SelectsAlike Unit
    organization_steps = record {
      weaker = λ s h. h;
      resolves = resolve-Scoped;
      concludes = λ org_id q. tt;
      adds = λ s r org_id q names h. All-append (Names raw) s.requests (r ∷ []) h (names ∙ q, tt);
    }

  -- Whatever a tool that takes an organization is called with, and however the platform answers,
  -- every request of the call names exactly the organization of the input, without white space
  -- around it, and none if the input names none.
  pub call_scoped-IsScoped :
      (c : ScopedCall) (orgs : OrgsCache Organization)
      → IsScoped (org_of c) (call_scoped p now later asked entries c (start orgs)).1
  call_scoped-IsScoped c orgs =
      (call_scoped-Triple p now later asked (org_of c) entries (organization_steps (org_of c)) c
        refl (start orgs) tt).0
