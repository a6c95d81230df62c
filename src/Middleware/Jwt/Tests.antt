-- ===== src/Middleware/Jwt/Tests.antt =====
-- The JWT middleware with a library that accepts one token.
use ecommerce_gateway.Common.{
  ◌≡◌, refl, true, Option, none, some, [], ◌∷◌, Text, bytes, text_eq, has_prefix, trim_prefix, get,
  set_header, canonical, lookup, insert, any, strip,
}
use ecommerce_gateway.Http.{Request, Response}
use ecommerce_gateway.Proxy.Loop.{Outcome, failed, answered}
use ecommerce_gateway.Errors.Codes.{kratos}
use ecommerce_gateway.Middleware.Jwt.{
  User, Parsed, other_error, token, JwtLibrary, with_user, round_trip, parse_jwt, key_func,
  missing_auth_token, claims_of,
}
use ecommerce_gateway.Middleware.Jwt.Laws.{ChecksKeys, Guarded, round_trip-Guarded}

abbrev ann : User
ann = record { id = bytes "7"; name = bytes "ann" }

-- A token is its method; only a method with a key is accepted.
verdict : Option (Option Text) → Parsed
verdict none = other_error
verdict (some key) = token true ann

library : JwtLibrary
unfolding verdict
library = record { alg = λ text. text; parse_with_claims = λ keys text. verdict (keys text) }

accepted_has_key :
    (key : Option (Option Text)) (user : User)
    → verdict key ≡ token true user
    → (k : Option Text) × (key ≡ some k)
unfolding verdict
accepted_has_key none user h = absurd (cc)
accepted_has_key (some key) user h = (key, refl)

library-ChecksKeys : ChecksKeys library
unfolding library
library-ChecksKeys keys text user h = accepted_has_key (keys text) user h

abbrev ok : Response
ok = record { status_code = 200; header = []; trailer = []; body = [] }

abbrev request_with : Text → Request
request_with value = record {
  method = bytes "GET";
  host = bytes "h";
  path = bytes "/";
  header =
      (bytes "Authorization", some (value ∷ []))
      ∷ (bytes "X-Md-Global-User-Id", some (bytes "1" ∷ []))
      ∷ [];
  remote_addr = bytes "1.1.1.1:80";
  body = [];
}

abbrev upstream : Request → Outcome
upstream r = answered (record ok { body = get r.header (bytes "x-md-global-user-id") })

abbrev signed : Request
signed = request_with (bytes "Bearer RS256")

-- The id that the client sent is replaced by the token's.
passes : round_trip [] library none upstream signed ≡ answered (record ok { body = bytes "7" })
unfolding round_trip any has_prefix get canonical lookup parse_jwt claims_of key_func library
    verdict trim_prefix text_eq with_user set_header insert strip
passes = refl

other_method :
    round_trip [] library none upstream (request_with (bytes "Basic x"))
    ≡ failed (kratos missing_auth_token)
unfolding round_trip any has_prefix get canonical lookup text_eq
other_method = refl

round_trip-Guarded_example :
    Guarded [] library none upstream signed (round_trip [] library none upstream signed)
round_trip-Guarded_example = round_trip-Guarded [] library none upstream signed library-ChecksKeys
