-- ===== src/Oauth/Register/Outcome.antt =====
-- What a registration can do.
use buildpulse_mcp.Common.{
  ◌≡◌, refl, inl, inr, Text, Option, none, some, Option-cases, Bool-cases, Bool, false, ok, err,
}
use buildpulse_mcp.Library.{Library}
use buildpulse_mcp.Oauth.Store.{StoreError}
use buildpulse_mcp.Oauth.Guard.{client_ip, validate_registration}
use buildpulse_mcp.Oauth.Guard.Safety.{IsRegistrable, validate_registration_iff}
use buildpulse_mcp.Oauth.Limiter.{RateLimiter}
use buildpulse_mcp.Oauth.Server.{OauthServer, World, Call, Response, created}
use buildpulse_mcp.Oauth.Register.{
  RegisterRequest, too_many_registrations, undecoded_body, invalid_registration, unsaved_client,
  limited, new_client, registering,
}

module _ {S D : Type 0} (lib : Library) (srv : OauthServer S D) (call : Call) where
  limited-keeps :
      (rl : Option RateLimiter) (ip : Text) (w : World S D)
      → ((limited lib srv call rl ip w).1.store ≡ w.store)
        × ((limited lib srv call rl ip w).1.sessions ≡ w.sessions)
  unfolding limited
  limited-keeps none ip w = (refl, refl)
  limited-keeps (some rl) ip w = (refl, refl)

  module _ (xff remote : Text) (body : Option RegisterRequest) where
    abbrev pub gate : World S D → Bool × World S D
    gate w = limited lib srv call w.limiter (client_ip lib xff remote) w

    abbrev pub added : World S D → RegisterRequest → Option StoreError × S
    added w req = srv.store.put_client w.store (new_client lib srv call req)

    -- Everything that a registration can do.
    pub data Outcome (w : World S D) : Type 0 where
      refused :
          (r : Response)
          → (registering lib srv call xff remote body w).0 ≡ err r
          → (registering lib srv call xff remote body w).1.store ≡ w.store
          → Outcome w
      unsaved :
          (req : RegisterRequest)
          → body ≡ some req
          → IsRegistrable lib req.client_name req.redirect_uris
          → (registering lib srv call xff remote body w).0 ≡ err unsaved_client
          → (registering lib srv call xff remote body w).1.store ≡ (added w req).1
          → Outcome w
      registered :
          (req : RegisterRequest)
          → body ≡ some req
          → (gate w).0 ≡ false
          → IsRegistrable lib req.client_name req.redirect_uris
          → (added w req).0 ≡ none
          → (registering lib srv call xff remote body w).0
            ≡ ok (created (new_client lib srv call req))
          → (registering lib srv call xff remote body w).1.store ≡ (added w req).1
          → Outcome w

    admitted_cases :
        (w : World S D) (req : RegisterRequest)
        → (gate w).0 ≡ false
        → body ≡ some req
        → IsRegistrable lib req.client_name req.redirect_uris
        → validate_registration lib req.client_name req.redirect_uris ≡ none
        → Outcome w
    unfolding registering
    admitted_cases w req admitted decoded fine valid =
        let kept = (limited-keeps w.limiter (client_ip lib xff remote) w).0 in
        elim (Option-cases (added w req).0) [
          | inl saved ↦
              registered req decoded admitted fine saved
                (rw (admitted, decoded, valid, kept, saved))
                (rw (admitted, decoded, valid, kept, saved))
          | inr (e, lost) ↦
              unsaved req decoded fine (rw (admitted, decoded, valid, kept, lost))
                (rw (admitted, decoded, valid, kept, lost))
        ]

    pub registering_cases : (w : World S D) → Outcome w
    unfolding registering
    registering_cases w =
        let kept = (limited-keeps w.limiter (client_ip lib xff remote) w).0 in
        elim (Bool-cases (gate w).0) [
          | inl limits ↦ refused too_many_registrations (rw limits) (rw limits kept)
          | inr admitted ↦ elim (Option-cases body) [
            | inl undecoded ↦
                refused undecoded_body (rw (admitted, undecoded)) (rw (admitted, undecoded) kept)
            | inr (req, decoded) ↦
                elim (Option-cases (validate_registration lib req.client_name req.redirect_uris)) [
                  | inr (e, invalid) ↦
                      refused (invalid_registration e) (rw (admitted, decoded, invalid))
                        (rw (admitted, decoded, invalid) kept)
                  | inl valid ↦
                      admitted_cases w req admitted decoded
                        ((validate_registration_iff lib req.client_name req.redirect_uris).0 valid)
                        valid
                ]
          ]
        ]
