-- ===== src/Library.antt =====
-- Go's standard library and cryptography, as far as the server calls it and this development does
-- not implement it: every definition that uses one of these takes the record as an argument.
use buildpulse_mcp.Common.{Text, Option, List, Bool}

-- The parts of a net/url URL that the server reads; `hostname` is the result of its method.
pub record Url : Type 0 where
  pub scheme : Text
  pub user : Option Text
  pub host : Text
  pub hostname : Text
  pub path : Text
  pub raw_query : Text
  pub fragment : Text

-- The claims of a Cognito id_token that the server keeps (cognitoIDClaims).
pub record Claims : Type 0 where
  pub sub : Text
  pub email : Text

pub record Library : Type 0 where
  -- url.Parse; `none` is an error
  pub parse_url : Text → Option Url
  -- strings.ToLower and strings.EqualFold, which know all of Unicode
  pub to_lower : Text → Text
  pub equal_fold : Text → Text → Bool
  -- net.ParseIP, and IsLoopback of what it returns; `none` is a nil address
  pub parse_ip_loopback : Text → Option Bool
  -- net.SplitHostPort, its host; `none` is an error
  pub split_host : Text → Option Text
  -- url.Values.Encode of single-valued parameters
  pub encode_values : List (Text × Text) → Text
  -- sha256.Sum256
  pub sha256 : Text → Text
  -- base64.StdEncoding and base64.RawURLEncoding
  pub base64_std : Text → Text
  pub base64_std_decode : Text → Option Text
  pub base64_raw_url : Text → Text
  pub base64_raw_url_decode : Text → Option Text
  -- hex.EncodeToString
  pub hex : Text → Text
  -- json.Unmarshal into the claims; `none` is an error
  pub unmarshal_claims : Text → Option Claims
