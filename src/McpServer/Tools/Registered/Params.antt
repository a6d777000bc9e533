-- ===== src/McpServer/Tools/Registered/Params.antt =====
-- Which organization the parameters of a request name.
use buildpulse_mcp.Common.{
  ◌≡◌, refl, ◌∙◌, Text, codes, ◌==◌, is_empty, trim_space, Map, get, put, get-put, get-empty, Bool,
  true, false, Bool-cases, inl, inr, Option, none, some, [], if◌then◌else◌,
}
use buildpulse_mcp.McpServer.Platform.{Platform, Request}
use buildpulse_mcp.McpServer.Tool.{organization_key, add_org_param}
use buildpulse_mcp.McpServer.Validate.{ℤ}
use buildpulse_mcp.McpServer.Wire.{FindFlakyInput}
use buildpulse_mcp.McpServer.Tools.{in_window, put_if, put_limit, flaky_params, flaky_includes}

-- The organization that a request for `org_id` names.
abbrev pub selected : Text → Option Text
selected org_id = if is_empty (trim_space org_id) then none else some (trim_space org_id)

abbrev pub Names : Text → Request → Type 0
Names org_id r = get r.params organization_key ≡ selected org_id

-- Before the call no parameter is an organization.
pub get-add_org_param :
    (params : Map Text) (org_id : Text)
    → get params organization_key ≡ none
    → get (add_org_param params org_id) organization_key ≡ selected org_id
unfolding add_org_param get put ◌==◌
get-add_org_param params org_id h = elim (Bool-cases (is_empty (trim_space org_id))) [
  | inl bare ↦ rw bare h
  | inr given ↦ rw given refl
]

-- Another parameter does not change the organization.
pub put-keeps :
    (params : Map Text) (key value : Text)
    → (key == organization_key) ≡ false
    → get (put params key value) organization_key ≡ get params organization_key
put-keeps params key value other = rw (get-put params key organization_key value, other) refl

pub put_if-keeps :
    (given : Bool) (key value : Text) (params : Map Text)
    → (key == organization_key) ≡ false
    → get (put_if given key value params) organization_key ≡ get params organization_key
put_if-keeps true key value params other = put-keeps params key value other
put_if-keeps false key value params other = refl

module _ {N : Type 0} (p : Platform N) where
  pub limit-keeps :
      (limit : ℤ) (params : Map Text)
      → get (put_limit p limit params) organization_key ≡ get params organization_key
  unfolding ◌==◌
  limit-keeps limit params =
      put_if-keeps (in_window 100 limit) (codes "limit") (p.itoa limit) params refl

  -- find_flaky_tests sets the organization before other parameters.
  pub flaky_params-Names :
      (i : FindFlakyInput) (repo org_id : Text)
      → get (flaky_params p i repo org_id) organization_key ≡ selected org_id
  unfolding ◌==◌
  flaky_params-Names i repo org_id =
      put_if-keeps _ (codes "q") _ _ refl
      ∙ put-keeps _ (codes "quarantine") _ refl
      ∙ put_if-keeps _ (codes "sort") _ _ refl
      ∙ limit-keeps i.limit _
      ∙ get-add_org_param _ org_id (
          put-keeps _ (codes "include") flaky_includes refl
          ∙ put-keeps [] (codes "repository") repo refl
          ∙ get-empty organization_key)
