-- ===== src/McpServer/Gate/Outcome.antt =====
-- What the wrappers make of a handler.
use buildpulse_mcp.Common.{
  ◌≡◌, ◌↔◌, ◌⊎◌, Bool-cases, subst, inl, inr, refl, ℕ, Text, Bool, true, false, Result-cases,
  Result, ok, err, [], ◌∷◌, ◌++◌,
}
use buildpulse_mcp.Library.{Library}
use buildpulse_mcp.McpServer.Policy.{allow}
use buildpulse_mcp.McpServer.Platform.{
  plan_limit, plan_required, unresolved, bad_request, request_failed, unread_response, unauthorized,
  not_found, undecodable, status_error,
}
use buildpulse_mcp.McpServer.Tool.{
  ToolError, api, invalid, message, bad_since, days_out_of_range, bad_uri, Tool,
}
use buildpulse_mcp.McpServer.Gate.{
  Process, friendly, overage_aware, token_key, audit_line, status_of, rate_limited, guarded,
}

-- An error of the organization's plan.
abbrev pub is_plan_error : ToolError → Bool
is_plan_error (api (plan_limit e)) = true
is_plan_error (api (plan_required e)) = true
is_plan_error e = false

-- The error is replaced by one that is not a plan's.
friendly_not_plan : (e : ToolError) → is_plan_error (friendly e) ≡ false
unfolding friendly
friendly_not_plan (invalid e) = refl
friendly_not_plan (message t) = refl
friendly_not_plan (bad_since t) = refl
friendly_not_plan days_out_of_range = refl
friendly_not_plan bad_uri = refl
friendly_not_plan (api (plan_limit e)) = refl
friendly_not_plan (api (plan_required e)) = refl
friendly_not_plan (api (unresolved e)) = refl
friendly_not_plan (api bad_request) = refl
friendly_not_plan (api request_failed) = refl
friendly_not_plan (api unread_response) = refl
friendly_not_plan (api unauthorized) = refl
friendly_not_plan (api not_found) = refl
friendly_not_plan (api undecodable) = refl
friendly_not_plan (api (status_error status body)) = refl

module _ {A : Type 0} (lib : Library) (token tool org : Text) (now : ℕ) (h : Tool A)
    (s : Process) where
  abbrev pub admitted : Bool
  admitted = (allow s.limiter (token_key lib token) now).0

  abbrev outcome : Result ToolError A × Process
  outcome = guarded lib token tool org now h s

  -- The call is refused with the limit's text, and the handler does not run.
  abbrev pub IsRefused : Type 0
  IsRefused =
      (outcome.0 ≡ rate_limited)
      × (outcome.1.session ≡ s.session)
      × (outcome.1.audit ≡ s.audit ++ audit_line tool org "rate_limited" ∷ [])

  -- The handler runs, its value is returned, and its error without the plan's errors.
  abbrev pub IsServed : Type 0
  IsServed =
      (outcome.1.session ≡ (h s.session).1)
      × ((a : A) → (outcome.0 ≡ ok a) ↔ ((h s.session).0 ≡ ok a))
      × ((e : ToolError) → outcome.0 ≡ err e → is_plan_error e ≡ false)
      × (outcome.1.audit ≡ s.audit ++ audit_line tool org (status_of (h s.session).0) ∷ [])

  -- A call of a tool is refused if the limiter does not admit its token, with the text of the limit,
  -- without running the handler, and with the status "rate_limited" in the log. If the limiter admits
  -- it, the handler runs once on the session, the call returns a value exactly when the handler
  -- does, and the same value, an error that it returns is never one of the organization's plan, and
  -- the log gets one line, with the handler's status.
  pub guarded_outcome : ((admitted ≡ false) × IsRefused) ⊎ ((admitted ≡ true) × IsServed)
  unfolding guarded overage_aware
  guarded_outcome = elim (Bool-cases admitted) [
    | inr refused ↦ inl (refused, rw refused (refl, refl, refl))
    | inl admits ↦ inr (
      admits,
      elim (Result-cases (h s.session).0) [
        | inl (e, fails) ↦
            rw (admits, fails)
              (
                refl,
                λ a. (λ g. absurd (cc), λ g. absurd (cc)),
                λ e' g. subst (λ x. is_plan_error x ≡ false) (cc) (friendly_not_plan e),
                refl,
              )
        | inr (a, returns) ↦
            rw (admits, returns) (refl, λ b. (λ g. cc, λ g. cc), λ e g. absurd (cc), refl)
      ],
    )
  ]
