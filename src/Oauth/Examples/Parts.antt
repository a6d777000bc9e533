-- ===== src/Oauth/Examples/Parts.antt =====
-- The theorems about the parts of the OAuth server on small inputs.
use buildpulse_mcp.Library.{Url}
use buildpulse_mcp.Oauth.Destination.{classify_destination}
use buildpulse_mcp.Oauth.Destination.Recognised.{IsKnown, classify_destination_iff}
use buildpulse_mcp.Common.{
  ◌≡◌, ◌≤◌, ◌*◌, ◌↔◌, refl, ℕ, Text, codes, get, put, sweep, ◌==◌, false, true, none, some, List,
  [], ◌∷◌, arith,
}
use buildpulse_mcp.Oauth.Crypter.{Kms, Decodes, build_crypter, kms_encrypt, decrypt-encrypt}
use buildpulse_mcp.Oauth.Guard.{validate_redirect_uri, validate_registration}
use buildpulse_mcp.Oauth.Guard.Safety.{
  IsSafeUri, IsRegistrable, validate_redirect_uri_iff, validate_registration_iff,
}
use buildpulse_mcp.Oauth.Limiter.{RateBucket, RateLimiter, new_rate_limiter, allow, admit, live}
use buildpulse_mcp.Oauth.Limiter.Window.{
  allow-IsValid, IsValid, admissions, WithinWindow, admissions-le_twice, admissions-le_new,
}
use buildpulse_mcp.Oauth.Limiter.Buckets.{allow-refuses_iff, allow-reaps}
use buildpulse_mcp.Oauth.Pkce.{verify_pkce, verify_pkce_iff}
use buildpulse_mcp.Oauth.Examples.{lib, uri}

validate_redirect_uri_iff_example : (validate_redirect_uri lib uri ≡ none) ↔ IsSafeUri lib uri
validate_redirect_uri_iff_example = validate_redirect_uri_iff lib uri

validate_registration_iff_example :
    (validate_registration lib (codes "App") (uri ∷ []) ≡ none)
    ↔ IsRegistrable lib (codes "App") (uri ∷ [])
validate_registration_iff_example = validate_registration_iff lib (codes "App") (uri ∷ [])

verify_pkce_iff_example : (verify_pkce lib (codes "v") (codes "v") ≡ true) ↔ (codes "v" ≡ codes "v")
verify_pkce_iff_example = verify_pkce_iff lib (codes "v") (codes "v")

echo : Kms
echo = record { encrypt = λ t. some t; decrypt = λ t. some t }

echo-Decodes : Decodes lib (some echo)
unfolding echo
echo-Decodes = record { base64 = λ t. refl; kms = λ k t blob same done. ground arith }

encrypts : (build_crypter lib (codes "arn") (some echo)).encrypt (codes "up") ≡ some (codes "up")
unfolding build_crypter kms_encrypt echo
encrypts = refl

decrypt-encrypt_example :
    (build_crypter lib (codes "arn") (some echo)).decrypt (codes "up") ≡ some (codes "up")
decrypt-encrypt_example =
    decrypt-encrypt lib (codes "arn") (some echo) (codes "up") (codes "up") echo-Decodes encrypts

abbrev limiter : RateLimiter
limiter = new_rate_limiter 1 10

limiter-IsValid : IsValid limiter
unfolding get
limiter-IsValid = record { distinct = tt; positive = omega arith; bounded = λ k b h. cc }

-- The limiter after the one call that it admits.
abbrev used : RateLimiter
used = (allow limiter (codes "ip") 5).1

used-IsValid : IsValid used
used-IsValid = allow-IsValid limiter 5 limiter-IsValid (codes "ip")

abbrev calls : List (ℕ × Text)
calls = (16, codes "ip") ∷ (17, codes "ip") ∷ []

within : WithinWindow used.window 24 calls
unfolding allow admit get put sweep live ◌==◌
within = ((omega arith, omega arith), ((omega arith, omega arith), tt))

admissions-le_twice_example : admissions used (codes "ip") calls ≤ 2 * used.limit
admissions-le_twice_example = admissions-le_twice used (codes "ip") 24 calls used-IsValid within

unseen : get used.buckets (codes "other") ≡ none
unfolding allow admit get put sweep live ◌==◌
unseen = refl

admissions-le_new_example : admissions used (codes "other") calls ≤ used.limit
admissions-le_new_example =
    admissions-le_new used (codes "other") 24 calls used-IsValid unseen within

allow-refuses_iff_example : ((allow used (codes "ip") 6).0 ≡ false) ↔ (
    (b : RateBucket) × (get used.buckets (codes "ip") ≡ some b)
    × (6 ≤ b.reset)
    × (used.limit ≤ b.count))
allow-refuses_iff_example = allow-refuses_iff used (codes "ip") 6 used-IsValid

abbrev bucket : RateBucket
bucket = record { count = 1; reset = 15 }

kept : get (allow used (codes "ip") 6).1.buckets (codes "ip") ≡ some bucket
unfolding allow admit get put sweep live ◌==◌
kept = refl

allow-reaps_example : 6 ≤ 15
allow-reaps_example = allow-reaps used (codes "ip") 6 used-IsValid (codes "ip") bucket kept

classify_destination_iff_example :
    ((classify_destination lib (codes "com.x.y://claude.ai/cb")).1 ≡ true) ↔ (
      (u : Url) × (lib.parse_url (codes "com.x.y://claude.ai/cb") ≡ some u)
      × IsKnown lib (lib.to_lower u.hostname))
classify_destination_iff_example = classify_destination_iff lib (codes "com.x.y://claude.ai/cb")
