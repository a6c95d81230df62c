-- ===== src/Middleware/Cors.antt =====
-- middleware/cors/cors.go: which origins may call, the answer to a preflight request, and the
-- headers of the other answers. url.Parse is a parameter.
mod Laws
mod Tests
use ecommerce_gateway.Common.{
  ℕ, ◌/◌, Bool, true, false, not, ◌&&◌, ◌||◌, Option, none, some, List, [], ◌∷◌, ◌++◌, map, Text,
  bytes, text_eq, has_prefix, has_suffix, trim_prefix, to_lower, to_upper, trim_space, itoa, join,
  canonical, any, is_empty, Map, Slice, Header, insert, get, set_header, add_header, if◌then◌else◌,
}
use ecommerce_gateway.Http.{Request, Response, Url, Parse}
use ecommerce_gateway.Proxy.Loop.{Outcome, failed, answered}
use ecommerce_gateway.Middleware.Registry.{Tripper}

-- The host of an allowed URL; a bare domain is parsed as a path.
unfoldable pub allowed_host : Url → Text
unfolding to_lower
allowed_host u = if is_empty (to_lower u.host) then to_lower u.path else to_lower u.host

-- Whether an allowed host with its port is that of the origin, itself or by its wildcard.
unfoldable pub host_matches : (allowed origin : Text) → Bool
unfolding text_eq has_prefix has_suffix trim_prefix
host_matches allowed origin =
    text_eq allowed origin
    || (has_prefix allowed (bytes "*.")
        && has_suffix origin (b'.' ∷ trim_prefix allowed (bytes "*.")))

unfoldable pub matches_parsed : Option Url → (origin : Text) → Bool
unfolding host_matches allowed_host
matches_parsed none origin = false
matches_parsed (some u) origin = host_matches (allowed_host u) origin

-- One round of the loop.
unfoldable pub entry_allows : Parse → (origin : Text) → (entry : Text) → Bool
unfolding text_eq matches_parsed
entry_allows parse origin entry = text_eq entry (bytes "*") || matches_parsed (parse entry) origin

-- isOriginAllowed
unfoldable pub is_origin_allowed : Parse → Text → List Text → Bool
unfolding any entry_allows to_lower
is_origin_allowed parse origin allow_origins = elim (parse origin) [
  | none ↦ false
  | some u ↦ any (entry_allows parse (to_lower u.host)) allow_origins
]

-- The loop of normalize, with the values seen so far.
unfoldable pub normalize_onto : (seen : List Text) → List Text → List Text
unfolding any text_eq trim_space to_lower
normalize_onto seen [] = []
normalize_onto seen (value ∷ values) =
    let plain = to_lower (trim_space value) in
    let is_seen = any (λ s. text_eq s plain) seen in
    let rest = normalize_onto (if is_seen then seen else plain ∷ seen) values in
    if is_seen then rest else plain ∷ rest

-- normalize
unfoldable pub normalize : List Text → List Text
unfolding normalize_onto
normalize values = normalize_onto [] values

-- v1.Cors; the age is in nanoseconds.
pub record Cors : Type 0 where
  pub allow_credentials : Bool
  pub allow_origins : List Text
  pub allow_methods : List Text
  pub allow_headers : List Text
  pub expose_headers : List Text
  pub max_age : Option ℕ
  pub allow_private_network : Bool

abbrev pub comma : Text
comma = bytes ","

-- convert of normalize, joined.
abbrev pub listed : (Text → Text) → List Text → Text
listed c values = join comma (map c (normalize values))

-- A header of a list that is not empty.
unfoldable pub set_listed : Text → (Text → Text) → List Text → Header → Header
unfolding normalize join set_header
set_listed name c [] h = h
set_listed name c (v ∷ values) h = set_header h name (listed c (v ∷ values))

abbrev pub credentials : Bool → Header → Header
credentials true h = set_header h (bytes "Access-Control-Allow-Credentials") (bytes "true")
credentials false h = h

-- generateNormalHeaders
unfoldable pub generate_normal_headers : Cors → Header
unfolding set_listed add_header to_upper canonical
generate_normal_headers c =
    let first = credentials c.allow_credentials [] in
    let methods =
      set_listed (bytes "Access-Control-Allow-Methods") to_upper c.allow_methods first in
    let exposed =
      set_listed (bytes "Access-Control-Expose-Headers") canonical c.expose_headers methods in
    add_header exposed (bytes "Vary") (bytes "Origin")

abbrev pub with_max_age : Option ℕ → Header → Header
with_max_age none h = h
with_max_age (some age) h = set_header h (bytes "Access-Control-Max-Age") (itoa (age / 1000000000))

-- generatePreflightHeaders
unfoldable pub generate_preflight_headers : Cors → Header
unfolding set_listed add_header to_upper canonical
generate_preflight_headers c =
    let first = credentials c.allow_credentials [] in
    let methods =
      set_listed (bytes "Access-Control-Allow-Methods") to_upper c.allow_methods first in
    let headers =
      set_listed (bytes "Access-Control-Allow-Headers") canonical c.allow_headers methods in
    let aged = with_max_age c.max_age headers in
    add_header
      (add_header (add_header aged (bytes "Vary") (bytes "Origin")) (bytes "Vary")
        (bytes "Access-Control-Request-Method"))
      (bytes "Vary") (bytes "Access-Control-Request-Headers")

-- The loop that writes one map into another.
unfoldable pub write_all : Header → Header → Header
unfolding insert
write_all [] h = h
write_all ((key, value) ∷ rest) h = write_all rest (insert key value h)

-- newResponse
unfoldable pub new_response : (status_code : ℕ) → Header → Response
new_response status_code header = record {
  status_code = status_code;
  header = header;
  trailer = [];
  body = [];
}

abbrev pub allow_origin : Text
allow_origin = bytes "Access-Control-Allow-Origin"

-- The header of a private network, when it is asked for and allowed.
unfoldable pub private_network : Cors → Request → Header
unfolding get set_header text_eq
private_network c r =
    if c.allow_private_network
      && text_eq (get r.header (bytes "Access-Control-Request-Private-Network")) (bytes "true")
    then set_header [] (bytes "Access-Control-Allow-Private-Network") (bytes "true")
    else []

-- The answer to a preflight request.
unfoldable pub preflight : Cors → Request → (origin : Text) → Response
unfolding generate_preflight_headers write_all new_response set_header private_network
preflight c r origin = new_response 200 (
    set_header (write_all (generate_preflight_headers c) (private_network c r)) allow_origin origin)

unfoldable pub with_cors_headers : Cors → (origin : Text) → Outcome → Outcome
unfolding generate_normal_headers write_all set_header
with_cors_headers c origin (failed e) = failed e
with_cors_headers c origin (answered resp) = answered (record resp {
  header = set_header (write_all (generate_normal_headers c) resp.header) allow_origin origin;
})

abbrev pub origin_of : Request → Text
origin_of r = get r.header (bytes "Origin")

-- The answer to a request with an origin: whether it is allowed, and whether the method is OPTIONS.
unfoldable pub answer_origin : (allowed options : Bool) → Cors → Tripper → Tripper
unfolding preflight with_cors_headers new_response get
answer_origin false options c next r = answered (new_response 403 [])
answer_origin true true c next r = answered (preflight c r (origin_of r))
answer_origin true false c next r = with_cors_headers c (origin_of r) (next r)

-- The tripper that Middleware wraps around `next`.
unfoldable pub cors_trip : Parse → Cors → Tripper → Tripper
unfolding is_origin_allowed answer_origin text_eq get
cors_trip parse c next r =
    if is_empty (origin_of r)
    then next r
    else answer_origin (is_origin_allowed parse (origin_of r) c.allow_origins)
        (text_eq r.method (bytes "OPTIONS")) c next r
