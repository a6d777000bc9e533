-- ===== src/McpServer/Platform.antt =====
-- A GET of the platform's API, internal/mcpserver/client.go, with what it takes from outside.
pub mod Answers
use buildpulse_mcp.Common.{
  ℕ, ◌+◌, Text, codes, ◌==◌, is_empty, Map, length, take, leb, eqb, Option, none, some, bind, Bool,
  true, false, List, [], ◌∷◌, ◌++◌, Result, ok, err, if◌then◌else◌,
}
use buildpulse_mcp.Library.{Library, Url}
use buildpulse_mcp.McpServer.Validate.{ℤ, ValidationError}
use buildpulse_mcp.McpServer.Client.{ClientError, resolve_api_url}
use buildpulse_mcp.McpServer.Wire.{
  PlanBody, PlanError, Organization, Repository, FlakyTests, DisruptionEvent, Submission, Page,
  TestResult, SubmissionLite, FailedTest,
}
use buildpulse_mcp.McpServer.Wire.Runners.{RunnerStatus, PlatformRunnerUsage, PlatformRunnerConfigs}

-- What becomes of a request: it cannot be built, the server cannot be reached, the body cannot be
-- read, or there is a status, a body and a content type.
pub data HttpAnswer : Type 0 where
  unsent unreachable unread : HttpAnswer
  answered : ℕ → Text → Text → HttpAnswer

-- The numbers that are decoded, and what the tools compute with: strconv.ParseFloat, which is `none`
-- on an error, and comparisons of floats.
pub record Numbers (N : Type 0) : Type 0 where
  pub of_nat : ℕ → N
  pub minus_one : N
  pub parse_float : Text → Option N
  pub lt : N → N → Bool
  pub le : N → N → Bool
  pub eq : N → N → Bool

-- The client's base URL, functions of the standard library, json.Unmarshal into the type of each
-- answer, which is `none` on an error, and the outcome of the n-th request of a call, which is sent
-- with the client's token.
pub record Platform (N : Type 0) : Type 0 where
  pub base_url : Text
  pub lib : Library
  pub numbers : Numbers N
  pub resolve_reference : Url → Url → Url
  pub path_escape : Text → Text
  pub query_escape : Text → Text
  pub itoa : ℤ → Text
  -- whether time.Parse("2006-01-02", …) succeeds
  pub is_date : Text → Bool
  -- Format(time.RFC3339) of a time in UTC
  pub rfc3339 : ℕ → Text
  pub plan_body : Text → Option PlanBody
  pub organizations : Text → Option (List Organization)
  pub repositories : Text → Option (List Repository)
  pub flaky_tests : Text → Option (FlakyTests N)
  pub disruption_events : Text → Option (List DisruptionEvent)
  pub submissions : Text → Option (Page N (Submission N))
  pub test_results : Text → Option (Page N (TestResult N))
  pub submission_ids : Text → Option (List SubmissionLite)
  pub failed_tests : Text → Option (List (FailedTest N))
  pub runner_status : Text → Option RunnerStatus
  pub runner_usage : Text → Option (PlatformRunnerUsage N)
  pub runner_configs : Text → Option (PlatformRunnerConfigs N)
  pub send : ℕ → Url → HttpAnswer

pub data ApiError : Type 0 where
  unresolved : ClientError → ApiError
  bad_request request_failed unread_response unauthorized not_found undecodable : ApiError
  plan_required plan_limit : PlanError → ApiError
  status_error : ℕ → Text → ApiError

abbrev pub plan_limit_code : Text
plan_limit_code = codes "plan_limit_exceeded"

abbrev pub plan_required_code : Text
plan_required_code = codes "plan_required"

-- The last bytes are the UTF-8 of an ellipsis.
unfoldable pub truncate : Text → ℕ → Text
truncate b n = if leb (length b) n then b else take n b ++ 226 ∷ 128 ∷ 166 ∷ []

-- A path under the API, and the query.
pub record Request : Type 0 where
  pub path : Text
  pub params : Map Text

abbrev plan_with_code : Text → PlanBody → Option PlanError
plan_with_code code b =
    if b.code == code
    then some (record { message = b.message; upgrade_url = b.upgrade_url })
    else none

abbrev pub map_option : {A B : Type 0} → (A → B) → Option A → Option B
map_option f none = none
map_option f (some a) = some (f a)

module _ {N : Type 0} (p : Platform N) where
  -- parsePlanRequired and parsePlanLimit; `none` is nil.
  unfoldable pub parse_plan : Text → Text → Option PlanError
  parse_plan code body = bind (p.plan_body body) (plan_with_code code)

  -- The switch on the status.
  unfoldable pub special_status : ℕ → Text → Option ApiError
  unfolding parse_plan
  special_status status body =
      if eqb status 401
      then some unauthorized
      else if eqb status 403
      then map_option plan_required (parse_plan plan_required_code body)
      else if eqb status 404
      then some not_found
      else if eqb status 402
      then map_option plan_limit (parse_plan plan_limit_code body)
      else none

  abbrev after_switch : ℕ → Text → Text → Option ApiError → Result ApiError (Text × Text)
  after_switch status body content_type (some e) = err e
  after_switch status body content_type none =
      if leb 400 status
      then err (status_error status (truncate body 200))
      else ok (body, content_type)

  -- The body and the content type, or an error.
  unfoldable pub read_answer : HttpAnswer → Result ApiError (Text × Text)
  read_answer unsent = err bad_request
  read_answer unreachable = err request_failed
  read_answer unread = err unread_response
  read_answer (answered status body content_type) =
      after_switch status body content_type (special_status status body)

  abbrev pub encoded : Map Text → Option Text
  encoded [] = none
  encoded (kv ∷ params) = some (p.lib.encode_values (kv ∷ params))

  unfoldable pub request_url : Request → Result ClientError Url
  request_url r = resolve_api_url p.lib p.resolve_reference p.base_url r.path (encoded r.params)

  abbrev send_resolved : ℕ → Result ClientError Url → Result ApiError (Text × Text)
  send_resolved n (err e) = err (unresolved e)
  send_resolved n (ok u) = read_answer (p.send n u)

  -- `n` is the number of the call's requests before this one.
  unfoldable pub get_request : ℕ → Request → Result ApiError (Text × Text)
  get_request n r = send_resolved n (request_url r)

  abbrev decode_body :
      {A : Type 0} → (Text → Option A) → Result ApiError (Text × Text) → Result ApiError A
  decode_body decode (err e) = err e
  decode_body decode (ok (body, content_type)) = elim (decode body) [
    | none ↦ err undecodable
    | some a ↦ ok a
  ]

  unfoldable pub get_json : {A : Type 0} → (Text → Option A) → ℕ → Request → Result ApiError A
  get_json decode n r = decode_body decode (get_request n r)
