-- ===== src/Oauth/Server.antt =====
-- The authorization server of cmd/mcp-remote/oauth.go: its configuration, the state that a request
-- can change, what a request is answered, and requests as actions that may end early.
use buildpulse_mcp.Common.{
  ◌≡◌, subst, All, true, false, if◌then◌else◌, ℕ, Text, codes, Map, get, String, Bool, Option, none,
  some, List, [], ◌∷◌, Result, ok, err,
}
use buildpulse_mcp.Library.{Library}
use buildpulse_mcp.Oauth.Model.{RegisteredClient}
use buildpulse_mcp.Oauth.Store.{Store}
use buildpulse_mcp.Oauth.Guard.{RegistrationError}
use buildpulse_mcp.Oauth.Limiter.{RateLimiter}
use buildpulse_mcp.Oauth.Crypter.{Crypter}
use buildpulse_mcp.Oauth.Sessions.{Mongo}

-- `database` is mongo.go's dbClient.
pub record OauthServer (S D : Type 0) : Type 0 where
  pub issuer : Text
  pub cognito_domain : Text
  pub cognito_client_id : Text
  pub cognito_secret : Text
  pub store : Store S
  pub crypter : Crypter
  pub database : Option (Mongo D)

-- What the handlers change: the store, DocumentDB, and the limiter of registrations, which may be
-- nil.
pub record World (S D : Type 0) : Type 0 where
  pub store : S
  pub sessions : D
  pub limiter : Option RateLimiter

-- Cognito's answer: the two tokens of the body that the server reads.
pub record CognitoTokenResponse : Type 0 where
  pub id_token : Text
  pub refresh_token : Text

-- http.Client.Do: an error, or a status and the decoded body, `none` if it does not decode.
pub data HttpOutcome : Type 0 where
  unreachable : HttpOutcome
  answered : ℕ → Option CognitoTokenResponse → HttpOutcome

-- What a handler takes from outside: its first and its next time.Now(), the bytes of its i-th
-- rand.Read of n bytes, and the outcome of a POST to a URL with the user and password of its Basic
-- auth, if any, and its body.
pub record Call : Type 0 where
  pub now : ℕ
  pub later : ℕ
  pub rand_read : ℕ → ℕ → Text
  pub post : Text → Option (Text × Text) → Text → HttpOutcome

pub data CognitoError : Type 0 where
  request_failed no_id_token not_a_jwt bad_payload bad_claims no_sub_claim undecodable :
      CognitoError
  status_code : ℕ → CognitoError

pub data Description : Type 0 where
  literal : String → Description
  registration : RegistrationError → Description
  upstream : String → CognitoError → Description

pub record ConsentView : Type 0 where
  pub client_name : Text
  pub redirect_uri : Text
  pub user_email : Text
  pub consent_key : Text
  pub recognised : Bool
  pub dest_label : Text

-- The JSON of a token response; token_type is always "Bearer", expires_in is in seconds.
pub record TokenResponse : Type 0 where
  pub access_token : Text
  pub expires_in : ℕ
  pub scope : Text
  pub refresh_token : Option Text

pub data Response : Type 0 where
  -- a status, and the members error and error_description
  oauth_error : ℕ → String → Description → Response
  -- the same with a Retry-After header, in seconds
  retry_after : ℕ → Response → Response
  -- 201 with the client as JSON
  created : RegisteredClient → Response
  -- 302 to a location
  redirect : Text → Response
  consent_page : ConsentView → Response
  -- 400 with a title and a detail
  consent_error : String → String → Response
  issued : TokenResponse → Response
  -- 200 with no body
  empty : Response

-- q.Get(key) and r.PostFormValue(key)
unfoldable pub value : Map Text → String → Text
value form key = elim (get form (codes key)) [ none ↦ [] | some v ↦ v ]

unfoldable pub random_hex : Library → Call → ℕ → ℕ → Text
random_hex lib call i n = lib.hex (call.rand_read i n)

-- A handler, or a part of one that may answer early.
abbrev pub Handler : Type 0 → Type 0 → Type 0 → Type 0
Handler S D A = World S D → Result Response A × World S D

module _ {S D A : Type 0} where
  abbrev pub pure : A → Handler S D A
  pure a w = (ok a, w)

  abbrev pub answer : Response → Handler S D A
  answer r w = (err r, w)

  -- The error of a call is answered by `r`.
  abbrev pub or_answer :
      {E : Type 0} → Response → World S D → Result E A → Result Response A × World S D
  or_answer r w (ok a) = (ok a, w)
  or_answer r w (err e) = (err r, w)

  -- The result of a call that also changes the store.
  abbrev pub popped :
      {E : Type 0} → Response → World S D → Result E A × S → Result Response A × World S D
  popped r w (result, s) = or_answer r (record w { store = s }) result

-- The answer of the first test that holds, in a row of `if test { answer; return }`.
abbrev pub first_answer : List (Bool × Response) → Option Response
first_answer [] = none
first_answer ((test, r) ∷ cs) = if test then some r else first_answer cs

module _ {S D : Type 0} where
  -- `if test { answer; return }`
  abbrev pub answer_if : Bool → Response → Handler S D (Unit {0})
  answer_if test r w = if test then (err r, w) else (ok tt, w)

  -- An answer, if there is one, ends the handler.
  abbrev pub answer_some : World S D → Option Response → Result Response (Unit {0}) × World S D
  answer_some w none = (ok tt, w)
  answer_some w (some r) = (err r, w)

  -- A row of such tests.
  abbrev pub answer_first : List (Bool × Response) → Handler S D (Unit {0})
  answer_first cs w = answer_some w (first_answer cs)

  abbrev or_fail :
      {E : Type 0} → Response → World S D → Option E → Result Response (Unit {0}) × World S D
  or_fail r w none = (ok tt, w)
  or_fail r w (some e) = (err r, w)

  -- A Put whose error is answered by `r`.
  abbrev pub stored :
      {E : Type 0} → Response → World S D → Option E × S → Result Response (Unit {0}) × World S D
  stored r w (error, s) = or_fail r (record w { store = s }) error

module _ {S D A B : Type 0} where
  abbrev continue :
      (A → Handler S D B) → World S D → Result Response A → Result Response B × World S D
  continue f w (ok a) = f a w
  continue f w (err r) = (err r, w)

  infixl 10 ◌>>=◌ ◌>>◌
  abbrev pub ◌>>=◌ : Handler S D A → (A → Handler S D B) → Handler S D B
  ◌>>=◌ m f w = let r = m w in continue f r.1 r.0

  abbrev pub ◌>>◌ : Handler S D A → Handler S D B → Handler S D B
  m >> n = m >>= λ _. n

-- The response that is written in the end.
abbrev pub response : Result Response Response → Response
response (ok r) = r
response (err r) = r

abbrev pub serve : {S D : Type 0} → Handler S D Response → World S D → Response × World S D
serve h w = let r = h w in (response r.0, r.1)

-- What holds of each answer of a row holds of the one that is given.
pub first_answer_all :
    (P : Response → Type 0) (cs : List (Bool × Response)) (r : Response)
    → All (λ c. P c.1) cs
    → first_answer cs ≡ some r
    → P r
first_answer_all P [] r h e = cc
first_answer_all P ((true, a) ∷ cs) r (p, h) e = subst P (cc) p
first_answer_all P ((false, a) ∷ cs) r (p, h) e = first_answer_all P cs r h e
