-- ===== src/Oauth/Consent/Decision.antt =====
-- What POST /oauth/consent can do, and when it grants a code.
use buildpulse_mcp.Common.{
  String, ◌≤◌, ◌≡◌, ◌≢◌, ◌⊎◌, refl, inl, inr, Text, codes, ◌==◌, eq_iff, is_empty, is_empty_iff,
  contains, Map, ltb, [], ◌++◌, true, false, Option, none, some, Option-cases, Bool-cases, Result,
  ok, err, Result-cases, arith,
}
use buildpulse_mcp.Library.{Library}
use buildpulse_mcp.Oauth.Model.{RegisteredClient, PendingAuth}
use buildpulse_mcp.Oauth.Store.{StoreError}
use buildpulse_mcp.Oauth.Server.{OauthServer, World, Call, Response, consent_error, value}
use buildpulse_mcp.Oauth.Callback.{consent_prefix}
use buildpulse_mcp.Oauth.Authorize.Hop.{IsOauthError}
use buildpulse_mcp.Oauth.Consent.{
  missing_key, already_used, expired_decision, no_longer_registered, unsaved_code, registered_now,
  granted_code, denial, approval, deciding,
}

-- An error, as JSON or as a page.
abbrev pub IsRefusal : Response → Type 0
IsRefusal r =
    IsOauthError r ⊎ ((title : String) × (detail : String) × (r ≡ consent_error title detail))

module _ {S D : Type 0} (lib : Library) (srv : OauthServer S D) (call : Call)
    (form : Map Text) where
  abbrev pub decision_key : Text
  decision_key = consent_prefix ++ value form "consent_key"

  abbrev pub decided : World S D → Result StoreError PendingAuth × S
  decided w = srv.store.pop_pending w.store decision_key

  abbrev pub after_decision : World S D → World S D
  after_decision w = record w { store = (decided w).1 }

  -- The decision is on a record that is not expired, and whose client still has the redirect URI.
  pub record IsDecidable (w : World S D) (p : PendingAuth) : Type 0 where
    pub given : value form "consent_key" ≢ []
    pub taken : (decided w).0 ≡ ok p
    pub in_time : call.now ≤ p.expires
    pub client : RegisteredClient
    pub found : srv.store.get_client (decided w).1 p.client_id ≡ ok client
    pub registered : contains client.redirect_uris p.redirect_uri ≡ true

  abbrev pub coded : World S D → PendingAuth → Option StoreError × S
  coded w p = srv.store.put_code (decided w).1 (granted_code lib srv call p)

  abbrev pub after_grant : World S D → PendingAuth → World S D
  after_grant w p = record w { store = (coded w p).1 }

  -- Everything that a decision can do.
  pub data Decision (w : World S D) : Type 0 where
    stopped :
        (r : Response) → IsRefusal r → deciding lib srv call (some form) w ≡ (err r, w) → Decision w
    dropped :
        (r : Response)
        → IsRefusal r
        → deciding lib srv call (some form) w ≡ (err r, after_decision w)
        → Decision w
    denied :
        (p : PendingAuth)
        → IsDecidable w p
        → value form "action" ≢ codes "approve"
        → deciding lib srv call (some form) w ≡ (err (denial lib srv call p), after_decision w)
        → Decision w
    unsaved :
        (p : PendingAuth)
        → IsDecidable w p
        → value form "action" ≡ codes "approve"
        → deciding lib srv call (some form) w ≡ (err unsaved_code, after_grant w p)
        → Decision w
    approved :
        (p : PendingAuth)
        → IsDecidable w p
        → value form "action" ≡ codes "approve"
        → (coded w p).0 ≡ none
        → deciding lib srv call (some form) w ≡ (ok (approval lib srv call p), after_grant w p)
        → Decision w

  registered_now-IsTrue :
      (r : Result StoreError RegisteredClient) (uri : Text)
      → registered_now lib srv call r uri ≡ true
      → (c : RegisteredClient) × (r ≡ ok c) × (contains c.redirect_uris uri ≡ true)
  registered_now-IsTrue (err e) uri h = cc
  registered_now-IsTrue (ok c) uri h = (c, refl, h)

  approved_cases :
      (w : World S D) (p : PendingAuth)
      → IsDecidable w p
      → is_empty (value form "consent_key") ≡ false
      → ltb p.expires call.now ≡ false
      → (value form "action" == codes "approve") ≡ true
      → Decision w
  unfolding deciding
  approved_cases w p may given in_time approves = elim (Option-cases (coded w p).0) [
    | inl kept ↦
        approved p may ((eq_iff (value form "action") (codes "approve")).0 approves) kept
          (rw (given, may.taken, in_time, may.found, may.registered, approves, kept))
    | inr (e, lost) ↦
        unsaved p may ((eq_iff (value form "action") (codes "approve")).0 approves)
          (rw (given, may.taken, in_time, may.found, may.registered, approves, lost))
  ]

  popped_cases :
      (w : World S D) (p : PendingAuth)
      → is_empty (value form "consent_key") ≡ false
      → (decided w).0 ≡ ok p
      → Decision w
  unfolding deciding
  popped_cases w p given taken = elim (Bool-cases (ltb p.expires call.now)) [
    | inl late ↦ dropped expired_decision (inr (_, _, refl)) (rw (given, taken, late))
    | inr in_time ↦
        let is_registered =
          registered_now lib srv call (srv.store.get_client (decided w).1 p.client_id)
            p.redirect_uri in
        elim (Bool-cases is_registered) [
          | inr gone ↦
              dropped no_longer_registered (inl (_, _, _, refl)) (rw (given, taken, in_time, gone))
          | inl still ↦
              let (c, found, registered) = registered_now-IsTrue _ p.redirect_uri still in
              let may : IsDecidable w p = record {
                given = ground (arith, is_empty_iff (value form "consent_key"));
                taken = taken;
                in_time = ground arith;
                client = c;
                found = found;
                registered = registered;
              } in
              elim (Bool-cases (value form "action" == codes "approve")) [
                | inl approves ↦ approved_cases w p may given in_time approves
                | inr refuses ↦
                    denied p may (ground (arith, eq_iff (value form "action") (codes "approve")))
                      (rw (given, taken, in_time, found, registered, refuses))
              ]
        ]
  ]

  pub deciding_cases : (w : World S D) → Decision w
  unfolding deciding
  deciding_cases w = elim (Bool-cases (is_empty (value form "consent_key"))) [
    | inl bare ↦ stopped missing_key (inl (_, _, _, refl)) (rw bare)
    | inr given ↦ elim (Result-cases (decided w).0) [
      | inl (e, unknown) ↦ dropped already_used (inr (_, _, refl)) (rw (given, unknown))
      | inr (p, taken) ↦ popped_cases w p given taken
    ]
  ]
