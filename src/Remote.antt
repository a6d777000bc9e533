-- ===== src/Remote.antt =====
-- The Bearer check in front of the MCP endpoint, cmd/mcp-remote/main.go.
pub mod Bearer
pub mod Routes
pub mod Examples
use buildpulse_mcp.Common.{
  ℕ, Text, codes, ◌==◌, is_empty, trim_space, to_lower, eqb, ◌||◌, Option, none, some, List, [],
  ◌∷◌, Result, ok, err, if◌then◌else◌,
}

-- The errors of extractToken; the scheme is in the message of one of them.
pub data AuthError : Type 0 where
  missing malformed empty_credential : AuthError
  unsupported_scheme : Text → AuthError

abbrev with_byte : ℕ → Option (Text × Text) → Option (Text × Text)
with_byte c none = none
with_byte c (some (before, after)) = some (c ∷ before, after)

-- strings.SplitN(s, " ", 2), if it has two parts
unfoldable pub cut_space : Text → Option (Text × Text)
cut_space [] = none
cut_space (c ∷ s) = let rest = cut_space s in if eqb c b' ' then some ([], s) else with_byte c rest

credential : Text → Text → Result AuthError Text
credential scheme after =
    if (to_lower scheme == codes "bearer") || (to_lower scheme == codes "token")
    then (if is_empty (trim_space after) then err empty_credential else ok (trim_space after))
    else err (unsupported_scheme scheme)

pub parts : Option (Text × Text) → Result AuthError Text
unfolding credential
parts none = err malformed
parts (some (scheme, after)) = credential scheme after

unfoldable pub extract_token : Text → Result AuthError Text
unfolding parts
extract_token header =
    if is_empty (trim_space header) then err missing else parts (cut_space (trim_space header))

-- What the wrapper answers: 401 with a challenge that names the metadata document and a JSON-RPC
-- error, or what the handler behind it does.
pub data Answer (A : Type 0) : Type 0 where
  challenge : Text → AuthError → Answer A
  served : A → Answer A

abbrev answer_of : {A : Type 0} → Text → A → Result AuthError Text → Answer A
answer_of metadata next (ok token) = served next
answer_of metadata next (err e) = challenge metadata e

-- `metadata` is the URL of the metadata document, `next` what the handler answers.
unfoldable pub require_bearer : {A : Type 0} → Text → Text → A → Answer A
require_bearer metadata header next = answer_of metadata next (extract_token header)
