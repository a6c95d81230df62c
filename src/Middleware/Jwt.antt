-- ===== src/Middleware/Jwt.antt =====
-- middleware/jwt/jwt.go: ParseJwt and the middleware that authenticates a request. The library
-- golang-jwt is a parameter, and so is the decision of each skip rule on a request.
mod Laws
mod Tests
use ecommerce_gateway.Common.{
  Bool, true, false, not, ◌≡◌, Option, none, some, List, Text, bytes, text_eq, has_prefix,
  trim_prefix, any, if◌then◌else◌, get, set_header,
}
use ecommerce_gateway.Http.{Request}
use ecommerce_gateway.Errors.Codes.{KratosError, kratos, new_error}
use ecommerce_gateway.Proxy.Loop.{Outcome, failed}

-- auth.User: the fields that the middleware reads.
pub record User : Type 0 where
  pub id : Text
  pub name : Text

-- What jwt.ParseWithClaims returns: an error that is ErrTokenExpired, another error, or a token
-- with its claims, which says whether it is valid.
pub data Parsed : Type 0 where
  expired other_error : Parsed
  token : Bool → User → Parsed

-- golang-jwt with a leeway: the signing method that a token names, and the parser, which asks the
-- key function for the key of that method. A key is its encoding, or nil.
pub record JwtLibrary : Type 0 where
  pub alg : Text → Text
  pub parse_with_claims : (Text → Option (Option Text)) → Text → Parsed

-- The key function: the key is given for RS256 only, even when it is nil.
pub key_func : Option Text → Text → Option (Option Text)
key_func public_key method = if text_eq method (bytes "RS256") then some public_key else none

pub data Claims : Type 0 where
  rejected : KratosError → Claims
  claims : User → Claims

abbrev token_expired : KratosError
token_expired = new_error 401 (bytes "TOKEN_EXPIRED") (bytes "令牌已过期")

abbrev token_parse_failed : KratosError
token_parse_failed = new_error 401 (bytes "TOKEN_PARSE_FAILED") (bytes "令牌解析失败")

abbrev invalid_token_claims : KratosError
invalid_token_claims = new_error 401 (bytes "INVALID_TOKEN_CLAIMS") (bytes "无效的令牌声明")

abbrev missing_auth_token : KratosError
missing_auth_token = new_error 401 (bytes "MISSING_AUTH_TOKEN") (bytes "缺少Bearer token")

claims_of : Parsed → Claims
claims_of expired = rejected token_expired
claims_of other_error = rejected token_parse_failed
claims_of (token true user) = claims user
claims_of (token false user) = rejected invalid_token_claims

-- ParseJwt
pub parse_jwt : JwtLibrary → Option Text → Text → Claims
unfolding claims_of key_func
parse_jwt lib public_key text = claims_of (lib.parse_with_claims (key_func public_key) text)

-- The request with the headers of the user, under the names of constants/env.go.
pub with_user : User → Request → Request
with_user user r = record r {
  header =
      set_header (set_header r.header (bytes "x-md-global-user-id") user.id)
        (bytes "x-md-global-name") user.name;
}

proceed : (Request → Outcome) → Request → Claims → Outcome
unfolding with_user
proceed next r (rejected e) = failed (kratos e)
proceed next r (claims user) = next (with_user user r)

abbrev pub authorization : Request → Text
authorization r = get r.header (bytes "Authorization")

-- The tripper that Middleware wraps around `next`; `matchers` are the rules that skip it.
pub round_trip :
    List (Request → Bool) → JwtLibrary → Option Text → (Request → Outcome) → Request → Outcome
unfolding proceed parse_jwt any
round_trip matchers lib public_key next r =
    if any (λ matches. matches r) matchers
    then next r
    else if not (has_prefix (authorization r) (bytes "Bearer "))
    then failed (kratos missing_auth_token)
    else proceed next r (parse_jwt lib public_key (trim_prefix (authorization r) (bytes "Bearer ")))
