-- ===== src/McpServer/Tools/Failures/Outcome.antt =====
-- What a call of get_recent_failures returns.
use buildpulse_mcp.Common.{
  ℕ, ◌≡◌, ◌≢◌, refl, sym, ap, subst, inl, inr, Text, ◌==◌, Map, count, All, length, Option, none,
  some, List, [], ◌∷◌, ◌++◌, Result, Result-cases, ok, err,
}
use buildpulse_mcp.McpServer.Validate.{
  ValidationError, validate_repo_part, validate_submissions_window,
}
use buildpulse_mcp.McpServer.Wire.{
  SubmissionLite, FailedTest, RecentFailuresInput, RecentFailureOut, RecentFailuresOutput,
}
use buildpulse_mcp.McpServer.Platform.{ApiError, Platform, get_json}
use buildpulse_mcp.McpServer.Tool.{
  ToolError, Session, Tool, pure, ◌>>=◌, check, check_none, lift, get_json_tool, resolve_org_id,
}
use buildpulse_mcp.McpServer.Tools.Fetch.{fetch_all}
use buildpulse_mcp.McpServer.Tools.Failures.{
  submissions_request, numbered, fetch_failed, fetch_failures, report, get_recent_failures,
}
use buildpulse_mcp.McpServer.Tools.Failures.Ranked.{IsRanked}
use buildpulse_mcp.McpServer.Tools.Failures.Rows.{present}
use buildpulse_mcp.McpServer.Tools.Failures.Report.{
  VisitsOnce, IsExpected, expected_row, report_rows,
}

bind-eq-ok :
    {A B : Type 0} (m : Tool A) (f : A → Tool B) (s : Session) (b : B)
    → ((m >>= f) s).0 ≡ ok b
    → (a : A) × ((m s).0 ≡ ok a) × ((f a (m s).1).0 ≡ ok b)
bind-eq-ok m f s b h = elim (Result-cases (m s).0) [
  | inl (e, fails) ↦ absurd (cc (rw fails at h))
  | inr (a, returns) ↦ (a, returns, rw returns at h)
]

check-eq-ok :
    {A B : Type 0} (r : Result ValidationError A) (f : A → Tool B) (s : Session) (b : B)
    → ((check r >>= f) s).0 ≡ ok b
    → (a : A) × (r ≡ ok a) × ((f a s).0 ≡ ok b)
check-eq-ok (ok a) f s b h = (a, refl, h)
check-eq-ok (err e) f s b h = absurd (cc)

check_none-eq-ok :
    {B : Type 0} (o : Option ValidationError) (t : Tool B) (s : Session) (b : B)
    → ((check_none o >>= λ _. t) s).0 ≡ ok b
    → (o ≡ none) × ((t s).0 ≡ ok b)
check_none-eq-ok none t s b h = (refl, h)
check_none-eq-ok (some e) t s b h = absurd (cc)

lift-eq-ok : {A : Type 0} (r : Result ApiError A) (a : A) → lift r ≡ ok a → r ≡ ok a
lift-eq-ok (ok b) a h = cc
lift-eq-ok (err e) a h = absurd (cc)

ok_injective : {A : Type 0} {a b : A} → ◌≡◌ {A = Result ToolError A} (ok a) (ok b) → a ≡ b
ok_injective h = cc

-- A call that returned, by its steps.
pub record Returned {N : Type 0} (p : Platform N) (now later : ℕ)
    (entries : Map (RecentFailureOut N) → List (RecentFailureOut N)) (i : RecentFailuresInput)
    (s : Session) (out : RecentFailuresOutput N) : Type 0 where
  pub org_id : Text
  pub submissions : List SubmissionLite
  pub chosen : (resolve_org_id p now later i.organization_id s).0 ≡ ok org_id
  pub owned : validate_repo_part i.owner "owner" ≡ ok out.owner
  pub called : validate_repo_part i.name "name" ≡ ok out.name
  pub in_window : validate_submissions_window i.submissions ≡ none
  -- the submissions that the platform listed, for the number of requests before
  pub listed :
      get_json p p.submission_ids
        (length (resolve_org_id p now later i.organization_id s).1.requests)
        (submissions_request p now later entries i out.owner out.name org_id)
      ≡ ok submissions
  pub fetched : List (Option (List (FailedTest N)))
  -- each submission's failed tests, by the requests that follow
  pub by_fetching :
      fetched
      ≡ fetch_all (fetch_failed p now later entries out.owner out.name org_id) (
          numbered
            (length (
              (resolve_org_id p now later i.organization_id s).1.requests
              ++ submissions_request p now later entries i out.owner out.name org_id ∷ []))
            submissions)
  pub reported : out ≡ report p now later entries out.owner out.name submissions fetched

module _ {N : Type 0} (p : Platform N) (now later : ℕ)
    (entries : Map (RecentFailureOut N) → List (RecentFailureOut N)) where
  returned :
      (i : RecentFailuresInput) (s : Session) (out : RecentFailuresOutput N)
      → (get_recent_failures p now later entries i s).0 ≡ ok out
      → Returned p now later entries i s out
  unfolding get_recent_failures get_json_tool fetch_failures report
  returned i s out h =
      let (owner, owned, h₁) = check-eq-ok (validate_repo_part i.owner "owner") _ s out h in
      let (name, called, h₂) = check-eq-ok (validate_repo_part i.name "name") _ s out h₁ in
      let (small, h₃) = check_none-eq-ok (validate_submissions_window i.submissions) _ s out h₂ in
      let (org_id, chosen, h₄) =
        bind-eq-ok (resolve_org_id p now later i.organization_id) _ s out h₃ in
      let s' = (resolve_org_id p now later i.organization_id s).1 in
      let asked = submissions_request p now later entries i owner name org_id in
      let (submissions, answered, h₅) =
        bind-eq-ok (get_json_tool p p.submission_ids asked) _ s' out h₄ in
      let s'' = (get_json_tool p p.submission_ids asked s').1 in
      let (results, got, h₆) =
        bind-eq-ok (fetch_failures p now later entries owner name org_id submissions)
          (λ rs. pure (report p now later entries owner name submissions rs)) s'' out h₅ in
      let same : report p now later entries owner name submissions results ≡ out =
        ok_injective h₆ in
      subst (Returned p now later entries i s) same (record {
        org_id = org_id;
        submissions = submissions;
        chosen = chosen;
        owned = owned;
        called = called;
        in_window = small;
        listed = lift-eq-ok _ submissions answered;
        fetched = results;
        by_fetching = sym (ok_injective got);
        reported = refl;
      })

  -- If the tool returns, the platform listed the submissions, the results are those of fetching the
  -- failed tests of each submission with the organization that was chosen, and the report is of
  -- them: each test with an id that failed in a submission whose results were fetched has exactly
  -- one row, no other test has one, a row shows the details of the test's first result in the first
  -- such submission, with that submission's build URL, and in how many of them the test failed, and
  -- the rows are ranked by that number and then by name. The loop over the map can visit it in any
  -- order in which it visits each entry once.
  pub get_recent_failures_rows :
      (i : RecentFailuresInput) (s : Session) (out : RecentFailuresOutput N) (key : Text)
      → VisitsOnce entries
      → key ≢ []
      → (get_recent_failures p now later entries i s).0 ≡ ok out
      → (r : Returned p now later entries i s out) × All
          (IsExpected r.submissions r.fetched)
          out.failures
        × (count (λ row. row.test_case_id == key) out.failures
            ≡ present (expected_row r.submissions r.fetched key))
        × IsRanked out.failures
        × (out.submissions_inspected ≡ length r.submissions)
  unfolding report
  get_recent_failures_rows i s out key visits named h =
      let r = returned i s out h in
      let rows = report_rows p now later entries r.submissions r.fetched key visits named in
      let same : (report p now later entries [] [] r.submissions r.fetched).failures
          ≡ out.failures =
        sym (ap (λ o. o.failures) r.reported) in
      (
        r,
        subst (All (IsExpected r.submissions r.fetched)) same rows.0,
        subst
            (λ f.
              count (λ row. row.test_case_id == key) f
              ≡ present (expected_row r.submissions r.fetched key))
            same rows.1,
        subst IsRanked same rows.2,
        ap (λ o. o.submissions_inspected) r.reported,
      )
