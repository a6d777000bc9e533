-- ===== src/McpServer/Platform/Answers.antt =====
-- What a GET returns of the server's answer.
use buildpulse_mcp.Common.{
  ℕ, ◌<◌, ◌≡◌, ◌↔◌, refl, sym, ap, ◌∙◌, inl, inr, Text, codes, ◌==◌, eq_iff, some, Option-cases,
  Bool-cases, Result, ok, err, arith,
}
use buildpulse_mcp.Library.{Url}
use buildpulse_mcp.McpServer.Wire.{PlanBody, PlanError}
use buildpulse_mcp.McpServer.Platform.{
  answered, Platform, ApiError, plan_limit, plan_required, unauthorized, not_found, plan_limit_code,
  plan_required_code, parse_plan, special_status, read_answer, Request, request_url, get_request,
}

some-injective : {A : Type 0} {a b : A} → some a ≡ some b → a ≡ b
some-injective h = cc

plan_error-eq :
    {e : PlanError} {m u : Text}
    → m ≡ e.message
    → u ≡ e.upgrade_url
    → record { message = m; upgrade_url = u } ≡ e
plan_error-eq h g = rw (h, g) refl

module _ {N : Type 0} (p : Platform N) (body : Text) where
  -- The body decodes to one with this code, and with the error's message and upgrade URL.
  abbrev pub Says : Text → PlanError → Type 0
  Says code e =
      (b : PlanBody) × (p.plan_body body ≡ some b)
      × (b.code ≡ code)
      × (b.message ≡ e.message)
      × (b.upgrade_url ≡ e.upgrade_url)

  parse_plan_iff : (code : Text) (e : PlanError) → (parse_plan p code body ≡ some e) ↔ Says code e
  unfolding parse_plan
  parse_plan_iff code e = elim (Option-cases (p.plan_body body)) [
    | inl bad ↦ (
      λ h. absurd (cc (rw bad at h)),
      λ (b, found, code_is, message_is, url_is). absurd (cc (bad, found)),
    )
    | inr (b, found) ↦ elim (Bool-cases (b.code == code)) [
      | inl same ↦ (
        λ h.
            let e_is = some-injective (rw (found, same) at h) in
            (
              b,
              found,
              (eq_iff b.code code).0 same,
              ap (λ x. x.message) e_is,
              ap (λ x. x.upgrade_url) e_is,
            ),
        λ (b', found', code_is, message_is, url_is).
            let b_is : b' ≡ b = some-injective (sym found' ∙ found) in
            rw (found, same)
              (ap some (
                plan_error-eq (sym (ap (λ x. x.message) b_is) ∙ message_is)
                  (sym (ap (λ x. x.upgrade_url) b_is) ∙ url_is))),
      )
      | inr other ↦ (
        λ h. absurd (cc (rw (found, other) at h)),
        λ (b', found', code_is, message_is, url_is).
            let b_is : b' ≡ b = some-injective (sym found' ∙ found) in
            absurd (ground (arith, eq_iff b.code code, sym (ap (λ x. x.code) b_is) ∙ code_is)),
      )
    ]
  ]

module _ {N : Type 0} (p : Platform N) (status : ℕ) (body content_type : Text) where
  abbrev read : Result ApiError (Text × Text)
  read = read_answer p (answered status body content_type)

  read_ok : (read ≡ ok (body, content_type)) ↔ (status < 400)
  unfolding read_answer special_status
  read_ok = ground arith

  read_limit :
      (e : PlanError)
      → (read ≡ err (plan_limit e)) ↔ ((status ≡ 402) × Says p body (codes "plan_limit_exceeded") e)
  unfolding read_answer special_status
  read_limit e = ground (arith, parse_plan_iff p body plan_limit_code e)

  read_required :
      (e : PlanError)
      → (read ≡ err (plan_required e)) ↔ ((status ≡ 403) × Says p body (codes "plan_required") e)
  unfolding read_answer special_status
  read_required e = ground (arith, parse_plan_iff p body plan_required_code e)

  read_unauthorized : (read ≡ err unauthorized) ↔ (status ≡ 401)
  unfolding read_answer special_status
  read_unauthorized = ground arith

  read_not_found : (read ≡ err not_found) ↔ (status ≡ 404)
  unfolding read_answer special_status
  read_not_found = ground arith

module _ {N : Type 0} (p : Platform N) where
  -- If the URL of a request resolves and the server answers it, the GET returns the body and the
  -- content type exactly for a status below 400, an error of the plan exactly for a 402 or a 403
  -- whose body decodes with the code "plan_limit_exceeded" or "plan_required", with the message and
  -- the upgrade URL of that body, and the errors of a missing token and of a missing resource
  -- exactly for a 401 and a 404.
  pub get_request_iff :
      (n : ℕ) (r : Request) (u : Url) (status : ℕ) (body content_type : Text) (e : PlanError)
      → request_url p r ≡ ok u
      → p.send n u ≡ answered status body content_type
      → ((get_request p n r ≡ ok (body, content_type)) ↔ (status < 400))
        × ((get_request p n r ≡ err (plan_limit e))
            ↔ ((status ≡ 402) × Says p body (codes "plan_limit_exceeded") e))
        × ((get_request p n r ≡ err (plan_required e))
            ↔ ((status ≡ 403) × Says p body (codes "plan_required") e))
        × ((get_request p n r ≡ err unauthorized) ↔ (status ≡ 401))
        × ((get_request p n r ≡ err not_found) ↔ (status ≡ 404))
  unfolding get_request
  get_request_iff n r u status body content_type e resolves answers =
      rw (resolves, answers)
        (
          read_ok p status body content_type,
          read_limit p status body content_type e,
          read_required p status body content_type e,
          read_unauthorized p status body content_type,
          read_not_found p status body content_type,
        )
