-- ===== src/Middleware/Jwt/Laws.antt =====
-- What middleware/jwt/jwt.go lets through, and what it answers otherwise.
use ecommerce_gateway.Common.{
  ◌≡◌, ◌∙◌, ap, ◌⊎◌, inl, inr, refl, arith, Bool, true, false, not, Option, some, List, Text, bytes,
  text_eq, text_eq_iff, has_prefix, trim_prefix, any, if◌then◌else◌, pos, get, canonical,
  set_header, get-set_header,
}
use ecommerce_gateway.Http.{Request}
use ecommerce_gateway.Errors.Codes.{KratosError, kratos}
use ecommerce_gateway.Proxy.Loop.{Outcome, failed, stops_retry}
use ecommerce_gateway.Middleware.Jwt.{
  User, Parsed, token, JwtLibrary, expired, other_error, claims_of, key_func, parse_jwt, with_user,
  proceed, authorization, round_trip, missing_auth_token, token_expired, token_parse_failed,
  invalid_token_claims,
}

-- A token whose method has no key is not valid.
abbrev pub ChecksKeys : JwtLibrary → Type 0
ChecksKeys lib =
    (keys : Text → Option (Option Text)) (text : Text) (user : User)
    → lib.parse_with_claims keys text ≡ token true user
    → (key : Option Text) × (keys (lib.alg text) ≡ some key)

-- An error of status 401 after which the retry loop goes on.
abbrev pub IsRetried401 : KratosError → Type 0
IsRetried401 e = (e.code ≡ pos 401) × (stops_retry (kratos e) ≡ false)

-- The token is one that is valid.
abbrev pub is_valid : Parsed → Bool
is_valid (token valid user) = valid
is_valid other = false

-- What golang-jwt makes of the text behind "Bearer " under the gateway's key.
abbrev pub parsed_of : JwtLibrary → Option Text → Request → Parsed
parsed_of lib public_key r =
    lib.parse_with_claims (key_func public_key) (trim_prefix (authorization r) (bytes "Bearer "))

key_func-some :
    (public_key : Option Text) (method : Text) (key : Option Text)
    → key_func public_key method ≡ some key
    → method ≡ bytes "RS256"
unfolding key_func
key_func-some public_key method key h = ground (arith, text_eq_iff method (bytes "RS256"), h)

-- What becomes of a bearer token: a valid one is signed with RS256, and the request goes on with
-- the headers of its user; for any other one the answer is such an error.
abbrev pub Judged : JwtLibrary → Option Text → (Request → Outcome) → Request → Outcome → Type 0
Judged lib public_key next r result =
    ((user : User) × (parsed_of lib public_key r ≡ token true user)
      × (lib.alg (trim_prefix (authorization r) (bytes "Bearer ")) ≡ bytes "RS256")
      × (result ≡ next (with_user user r)))
    ⊎ ((is_valid (parsed_of lib public_key r) ≡ false)
        × ((e : KratosError) × (result ≡ failed (kratos e)) × IsRetried401 e))

-- The cases of the middleware: a rule that skips the request, a request without a bearer token, and
-- one with a token.
abbrev pub Guarded :
    List (Request → Bool)
    → JwtLibrary
    → Option Text
    → (Request → Outcome)
    → Request
    → Outcome
    → Type 0
Guarded matchers lib public_key next r result =
    ((any (λ matches. matches r) matchers ≡ true) × (result ≡ next r))
    ⊎ ((any (λ matches. matches r) matchers ≡ false)
        × (((has_prefix (authorization r) (bytes "Bearer ") ≡ false)
              × (result ≡ failed (kratos missing_auth_token))
              × IsRetried401 missing_auth_token)
            ⊎ ((has_prefix (authorization r) (bytes "Bearer ") ≡ true)
                × Judged lib public_key next r result)))

parsed-Judged :
    (lib : JwtLibrary) (public_key : Option Text) (next : Request → Outcome) (r : Request)
    (p : Parsed)
    → parsed_of lib public_key r ≡ p
    → ((user : User)
        → p ≡ token true user
        → lib.alg (trim_prefix (authorization r) (bytes "Bearer ")) ≡ bytes "RS256")
    → Judged lib public_key next r (proceed next r (claims_of p))
unfolding proceed claims_of stops_retry
parsed-Judged lib public_key next r expired e valid =
    inr (ap is_valid e, (token_expired, refl, (refl, refl)))
parsed-Judged lib public_key next r other_error e valid =
    inr (ap is_valid e, (token_parse_failed, refl, (refl, refl)))
parsed-Judged lib public_key next r (token true user) e valid = inl (user, e, valid user refl, refl)
parsed-Judged lib public_key next r (token false user) e valid =
    inr (ap is_valid e, (invalid_token_claims, refl, (refl, refl)))

bearer-Judged :
    (lib : JwtLibrary) (public_key : Option Text) (next : Request → Outcome) (r : Request)
    → ChecksKeys lib
    → Judged lib public_key next r (
        proceed next r (parse_jwt lib public_key (trim_prefix (authorization r) (bytes "Bearer "))))
unfolding parse_jwt
bearer-Judged lib public_key next r checks =
    let text = trim_prefix (authorization r) (bytes "Bearer ") in
    parsed-Judged lib public_key next r (parsed_of lib public_key r) refl (λ user valid.
      let found = checks (key_func public_key) text user valid in
      key_func-some public_key (lib.alg text) found.0 found.1)

bearer-Guarded :
    (matchers : List (Request → Bool)) (lib : JwtLibrary) (public_key : Option Text)
    (next : Request → Outcome) (r : Request) (bearer : Bool)
    → ChecksKeys lib
    → any (λ matches. matches r) matchers ≡ false
    → has_prefix (authorization r) (bytes "Bearer ") ≡ bearer
    → Guarded matchers lib public_key next r (
        if not bearer
        then failed (kratos missing_auth_token)
        else proceed next r
            (parse_jwt lib public_key (trim_prefix (authorization r) (bytes "Bearer "))))
unfolding stops_retry
bearer-Guarded matchers lib public_key next r false checks checked h =
    inr (checked, inl (h, refl, (refl, refl)))
bearer-Guarded matchers lib public_key next r true checks checked h =
    inr (checked, inr (h, bearer-Judged lib public_key next r checks))

skip-Guarded :
    (matchers : List (Request → Bool)) (lib : JwtLibrary) (public_key : Option Text)
    (next : Request → Outcome) (r : Request) (skips : Bool)
    → ChecksKeys lib
    → any (λ matches. matches r) matchers ≡ skips
    → Guarded matchers lib public_key next r (
        if skips
        then next r
        else if not (has_prefix (authorization r) (bytes "Bearer "))
        then failed (kratos missing_auth_token)
        else proceed next r
            (parse_jwt lib public_key (trim_prefix (authorization r) (bytes "Bearer "))))
skip-Guarded matchers lib public_key next r true checks h = inl (h, refl)
skip-Guarded matchers lib public_key next r false checks h =
    bearer-Guarded matchers lib public_key next r (has_prefix (authorization r) (bytes "Bearer "))
      checks h refl

-- With a JWT library that accepts a token only if it is given the key of its method, a request
-- that a skip rule matches goes on unchanged. Any other one without a bearer token is answered by
-- MISSING_AUTH_TOKEN. One with a token that is valid under the key, which is then an RS256 token,
-- goes on with the headers of that token's user, and one with any other token is answered by an
-- error. These errors have the status 401, and the retry loop goes on after them.
pub round_trip-Guarded :
    (matchers : List (Request → Bool)) (lib : JwtLibrary) (public_key : Option Text)
    (next : Request → Outcome) (r : Request)
    → ChecksKeys lib
    → Guarded matchers lib public_key next r (round_trip matchers lib public_key next r)
unfolding round_trip
round_trip-Guarded matchers lib public_key next r checks =
    skip-Guarded matchers lib public_key next r (any (λ matches. matches r) matchers) checks refl

-- The headers that name the user come from the token, whatever the client sent, and no other
-- header of the request is changed.
pub with_user-get :
    (user : User) (r : Request) (name : Text)
    → get (with_user user r).header name ≡ (
        if text_eq (bytes "X-Md-Global-Name") (canonical name)
        then user.name
        else if text_eq (bytes "X-Md-Global-User-Id") (canonical name)
        then user.id
        else get r.header name)
unfolding with_user canonical
with_user-get user r name =
    get-set_header (set_header r.header (bytes "x-md-global-user-id") user.id)
      (bytes "x-md-global-name") name user.name
    ∙ ap
        (λ t.
          if text_eq (canonical (bytes "x-md-global-name")) (canonical name) then user.name else t)
        (get-set_header r.header (bytes "x-md-global-user-id") name user.id)
