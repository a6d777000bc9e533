-- ===== src/McpServer/Resources.antt =====
-- The two resources of internal/mcpserver/resources.go. They stand outside the limiter and the choice
-- of an organization.
use buildpulse_mcp.Common.{
  ℕ, Text, codes, is_empty, Option, none, some, List, [], ◌∷◌, ◌++◌, eqb, if◌then◌else◌,
}
use buildpulse_mcp.Library.{Url}
use buildpulse_mcp.McpServer.Validate.{validate_repo_part}
use buildpulse_mcp.McpServer.Platform.{Platform}
use buildpulse_mcp.McpServer.Tool.{Tool, bad_uri, pure, fail, ◌>>=◌, check, get_tool}
use buildpulse_mcp.McpServer.Tools.{submissions_path}

abbrev push_part : Text → List Text → List Text
push_part part parts = if is_empty part then parts else part ∷ parts

-- The loop from s[i:] on; `part` is s[start:i].
unfoldable pub split_loop : ℕ → Text → Text → List Text
split_loop sep part [] = push_part part []
split_loop sep part (c ∷ s) =
    let ended = split_loop sep [] s in
    let longer = split_loop sep (part ++ c ∷ []) s in
    if eqb c sep then push_part part ended else longer

-- splitNonEmpty
unfoldable pub split_non_empty : ℕ → Text → List Text
unfolding split_loop
split_non_empty sep s = split_loop sep [] s

-- A resource's URI, its content type, and its text.
pub record ResourceContents : Type 0 where
  pub uri : Text
  pub mime_type : Text
  pub text : Text

abbrev parts_of : Option Url → Tool (List Text)
parts_of none = fail bad_uri
parts_of (some u) = pure (split_non_empty b'/' u.path)

abbrev first_part : List Text → Tool Text
first_part [] = fail bad_uri
first_part (repo ∷ parts) = pure repo

abbrev two_parts : List Text → Tool (Text × Text)
two_parts (owner ∷ name ∷ parts) = pure (owner, name)
two_parts parts = fail bad_uri

-- `canonical` is json.Marshal of the raw body.
module _ {N : Type 0} (p : Platform N) (canonical : Text → Text) where
  abbrev contents : Text → Text → ResourceContents
  contents uri text = record { uri = uri; mime_type = codes "application/json"; text = text }

  unfoldable pub flaky_tests_resource : Text → Tool ResourceContents
  flaky_tests_resource uri = do
    parts ← parts_of (p.lib.parse_url uri)
    raw ← first_part parts
    repo ← check (validate_repo_part raw "repo")
    answer ← get_tool p (record {
      path = codes "/api/v1/flaky/tests";
      params =
          (codes "repository", repo)
          ∷ (codes "include", codes "disruptiveness_ratio,tags,nondeterminism_first_recorded_at")
          ∷ (codes "limit", codes "50")
          ∷ (codes "quarantine", codes "false")
          ∷ [];
    })
    pure (contents uri answer.0)

  unfoldable pub submissions_resource : Text → Tool ResourceContents
  submissions_resource uri = do
    parts ← parts_of (p.lib.parse_url uri)
    (raw_owner, raw_name) ← two_parts parts
    owner ← check (validate_repo_part raw_owner "owner")
    name ← check (validate_repo_part raw_name "name")
    answer ←
        get_tool p (record {
          path = submissions_path p owner name;
          params = (codes "limit", codes "25") ∷ [];
        })
    pure (contents uri (canonical answer.0))
