-- ===== src/Oauth/Examples/Flow.antt =====
-- The theorems about the OAuth routes on the example server.
use buildpulse_mcp.Common.{
  ◌≡◌, ◌≢◌, ◌↔◌, ◌⊎◌, refl, Text, codes, Map, get, put, ◌==◌, eq_iff, true, contains, split, none,
  some, [], ◌∷◌, ok, err,
}
use buildpulse_mcp.Library.{Claims}
use buildpulse_mcp.Oauth.Model.{AuthorizationCode, RefreshToken, RegisteredClient}
use buildpulse_mcp.Oauth.Store.Contract.{Within}
use buildpulse_mcp.Oauth.Store.Memory.{
  get_client, put_code, pop_code, pop_pending, put_refresh, pop_refresh,
}
use buildpulse_mcp.Oauth.Store.MemoryContract.{memory_view, memory-Contract}
use buildpulse_mcp.Oauth.Destination.{append_query}
use buildpulse_mcp.Oauth.Sessions.{hash_token_b64, resolve_user_orgs, persist_mcp_session}
use buildpulse_mcp.Oauth.Cognito.{refresh_cognito, post_cognito_token, parse_id_token_claims}
use buildpulse_mcp.Oauth.Server.{TokenResponse, issued, redirect, value, random_hex, request_failed}
use buildpulse_mcp.Oauth.Authorize.{authorize, cognito_url}
use buildpulse_mcp.Oauth.Authorize.Hop.{
  IsOauthError, MayAuthorize, stashed, authorize_redirects_iff,
}
use buildpulse_mcp.Oauth.Consent.{consent, granted_code, approval}
use buildpulse_mcp.Oauth.Token.{
  token_authorization_code, token_refresh, next_refresh, code_tests, refresh_tests, grant_code,
  renew, rotated, refreshed_orgs,
}
use buildpulse_mcp.Oauth.Pkce.{verify_pkce, subtle_constant_time_eq}
use buildpulse_mcp.Oauth.Token.Exchange.{Redeems, popped_by, exchange_issues_iff}
use buildpulse_mcp.Oauth.Token.Refresh.{Revives, taken_by, refresh_issues_iff}
use buildpulse_mcp.Oauth.Token.Rotation.{
  Rotates, refresh_never_prolongs, refresh_spends, rejected_upstream_ends_session,
}
use buildpulse_mcp.Oauth.System.{to_consent, handle, start, next}
use buildpulse_mcp.Oauth.System.Soundness.{IsSound}
use buildpulse_mcp.Oauth.System.Codes.{IsApproved, code_needs_approval}
use buildpulse_mcp.Oauth.System.Traces.{Destination, Reach-IsSound, consent_redirect_safe}
use buildpulse_mcp.Oauth.System.SingleUse.{start_without, code_exchanged_once}
use buildpulse_mcp.Oauth.Examples.{
  lib, srv, call, broken_call, uri, stored_code, stored_refresh, world, form_of,
}
use buildpulse_mcp.Oauth.Examples.Tables.{world-IsSound}

abbrev approving : Map Text
approving = form_of ((codes "consent_key", codes "x") ∷ (codes "action", codes "approve") ∷ [])

abbrev pub redeeming : Map Text
redeeming = form_of (
    (codes "code", codes "k")
    ∷ (codes "client_id", codes "c")
    ∷ (codes "code_verifier", codes "v")
    ∷ [])

abbrev refreshing_form : Map Text
refreshing_form = form_of ((codes "refresh_token", codes "t") ∷ [])

abbrev authorizing_query : Map Text
authorizing_query = form_of (
    (codes "response_type", codes "code")
    ∷ (codes "client_id", codes "c")
    ∷ (codes "redirect_uri", uri)
    ∷ (codes "code_challenge", codes "v")
    ∷ (codes "code_challenge_method", codes "S256")
    ∷ [])

Reach-IsSound_example :
    IsSound lib memory_view (handle lib srv call (to_consent (some approving)) world).1.store
Reach-IsSound_example =
    Reach-IsSound lib srv memory_view memory-Contract
      (next call (to_consent (some approving)) start) world-IsSound

consents : (consent lib srv call (some approving) world).0 ≡ redirect (append_query lib uri [])
unfolding consent approval append_query get put contains pop_pending get_client put_code value ◌==◌
consents = refl

consent_redirect_safe_example :
    Destination lib srv memory_view memory-Contract world (append_query lib uri [])
consent_redirect_safe_example =
    consent_redirect_safe lib srv memory_view memory-Contract call approving world
      (append_query lib uri []) world-IsSound consents

abbrev new_code : AuthorizationCode
new_code = record stored_code { code = codes "r"; expires = 60_000_000_011 }

grants :
    get (handle lib srv call (to_consent (some approving)) world).1.store.codes (codes "r")
    ≡ some new_code
unfolding handle consent granted_code get put contains pop_pending get_client put_code value ◌==◌
    random_hex
grants = refl

code_needs_approval_example :
    (get world.store.codes (codes "r") ≡ some new_code)
    ⊎ ((form : Map Text) × (to_consent (some approving) ≡ to_consent (some form))
        × IsApproved lib srv memory_view memory-Contract call form world (codes "r") new_code)
code_needs_approval_example =
    code_needs_approval lib srv memory_view memory-Contract call (to_consent (some approving)) world
      (codes "r") new_code grants

abbrev granted_token : TokenResponse
granted_token = record {
  access_token = codes "r";
  expires_in = 3600;
  scope = codes "s";
  refresh_token = none;
}

exchanges : (token_authorization_code lib srv call redeeming world).0 ≡ issued granted_token
unfolding token_authorization_code get put pop_code value ◌==◌ code_tests verify_pkce
    subtle_constant_time_eq grant_code random_hex
exchanges = refl

pub redeeming_code : value redeeming "code" ≡ codes "k"
unfolding value get put ◌==◌
redeeming_code = refl

code_exchanged_once_example :
    (token_authorization_code lib srv broken_call redeeming
      (token_authorization_code lib srv call redeeming world).1).0
    ≢ issued granted_token
code_exchanged_once_example =
    code_exchanged_once lib srv memory_view memory-Contract (codes "k") call broken_call redeeming
      redeeming world (token_authorization_code lib srv call redeeming world).1 granted_token
      granted_token redeeming_code exchanges start_without redeeming_code

exchange_issues_iff_example :
    ((r : TokenResponse) × ((token_authorization_code lib srv call redeeming world).0 ≡ issued r))
    ↔ ((auth : AuthorizationCode) × ((popped_by lib srv call redeeming world).0 ≡ ok auth)
        × Redeems lib srv call redeeming auth)
exchange_issues_iff_example = exchange_issues_iff lib srv call redeeming world

refresh_issues_iff_example :
    ((r : TokenResponse) × ((token_refresh lib srv call refreshing_form world).0 ≡ issued r)) ↔ (
      (value refreshing_form "refresh_token" ≢ [])
      × ((rt : RefreshToken) × (claims : Claims) × ((taken_by lib srv call refreshing_form world).0
            ≡ ok rt)
          × Revives lib srv call refreshing_form rt claims))
refresh_issues_iff_example = refresh_issues_iff lib srv call refreshing_form world

abbrev rotated_refresh : RefreshToken
rotated_refresh = record stored_refresh { hashed_token = codes "r" }

rotates :
    get (token_refresh lib srv call refreshing_form world).1.store.refresh (codes "r")
    ≡ some rotated_refresh
unfolding token_refresh get put pop_refresh put_refresh value ◌==◌ hash_token_b64 refresh_tests
    refresh_cognito post_cognito_token parse_id_token_claims split renew rotated refreshed_orgs
    resolve_user_orgs persist_mcp_session random_hex
rotates = refl

refresh_never_prolongs_example :
    (get world.store.refresh (codes "r") ≡ some rotated_refresh)
    ⊎ Rotates lib srv memory_view memory-Contract call refreshing_form world rotated_refresh
refresh_never_prolongs_example =
    refresh_never_prolongs lib srv memory_view memory-Contract call refreshing_form world
      (codes "r") rotated_refresh rotates

abbrev refreshed_token : TokenResponse
refreshed_token = record granted_token { refresh_token = some (codes "r") }

refreshes : (token_refresh lib srv call refreshing_form world).0 ≡ issued refreshed_token
unfolding token_refresh get put pop_refresh put_refresh value ◌==◌ hash_token_b64 refresh_tests
    refresh_cognito post_cognito_token parse_id_token_claims split renew rotated refreshed_orgs
    resolve_user_orgs persist_mcp_session random_hex
refreshes = refl

other_hash :
    hash_token_b64 lib (value refreshing_form "refresh_token")
    ≢ hash_token_b64 lib (next_refresh lib srv call)
unfolding get put value ◌==◌ hash_token_b64 random_hex
other_hash e =
    let same : (codes "t" == codes "r") ≡ true = (eq_iff (codes "t") (codes "r")).1 e in cc

refresh_spends_example :
    get
      (token_refresh lib srv call refreshing_form world).1.store.refresh
      (hash_token_b64 lib (value refreshing_form "refresh_token"))
    ≡ none
refresh_spends_example =
    refresh_spends lib srv memory_view memory-Contract call refreshing_form world refreshed_token
      refreshes other_hash

taken : (taken_by lib srv broken_call refreshing_form world).0 ≡ ok stored_refresh
unfolding get put pop_refresh value ◌==◌ hash_token_b64
taken = refl

rejects : refresh_cognito lib srv broken_call (codes "up") ≡ err request_failed
unfolding refresh_cognito post_cognito_token
rejects = refl

rejected_upstream_ends_session_example :
    ((r : TokenResponse) → (token_refresh lib srv broken_call refreshing_form world).0 ≢ issued r)
    × ((token_refresh lib srv broken_call refreshing_form world).1.sessions ≡ tt)
    × Within
        (get world.store.refresh)
        (get (token_refresh lib srv broken_call refreshing_form world).1.store.refresh)
rejected_upstream_ends_session_example =
    rejected_upstream_ends_session lib srv memory_view memory-Contract broken_call refreshing_form
      world stored_refresh (codes "up") request_failed taken refl rejects

authorize_redirects_iff_example :
    (((url : Text) × ((authorize lib srv call authorizing_query world).0 ≡ redirect url)) ↔ (
      (c : RegisteredClient) × (get_client world.store (value authorizing_query "client_id") ≡ ok c)
      × MayAuthorize lib srv call authorizing_query c
      × ((stashed lib srv call authorizing_query world).0 ≡ none)))
    × (((authorize lib srv call authorizing_query world).0
          ≡ redirect (cognito_url lib srv call (random_hex lib call 0 16)))
        ⊎ IsOauthError (authorize lib srv call authorizing_query world).0)
authorize_redirects_iff_example = authorize_redirects_iff lib srv call authorizing_query world
