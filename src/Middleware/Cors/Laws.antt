-- ===== src/Middleware/Cors/Laws.antt =====
-- Which origins middleware/cors/cors.go admits, and who may read its answers.
use ecommerce_gateway.Common.{
  ◌≡◌, ◌∙◌, refl, Bool, true, false, some, ◌⊎◌, inl, inr, List, [], ◌∷◌, ◌++◌, Text, bytes, text_eq,
  text_eq_refl, is_empty, Header, get, set_header, get-set_header, canonical,
}
use ecommerce_gateway.Http.{Request, Response, Url, Parse}
use ecommerce_gateway.Proxy.Loop.{Outcome, failed, answered}
use ecommerce_gateway.Middleware.Registry.{Tripper}
use ecommerce_gateway.Middleware.Cors.{
  allowed_host, is_origin_allowed, Cors, preflight, new_response, with_cors_headers, allow_origin,
  origin_of, cors_trip, answer_origin, write_all, generate_normal_headers,
  generate_preflight_headers, private_network,
}

-- The host stands below the domain.
abbrev pub IsBelow : (host domain : Text) → Type 0
IsBelow host domain = (label : Text) × (host ≡ label ++ (b'.' ∷ domain))

-- An allowed host is the host itself, or "*." and a domain that the host is below.
abbrev pub Covers : (allowed host : Text) → Type 0
Covers allowed host =
    (allowed ≡ host) ⊎ ((domain : Text) × (allowed ≡ bytes "*." ++ domain) × IsBelow host domain)

-- An entry that admits the host: it is "*", or its URL has a host, or a path where it has no host,
-- that covers it.
abbrev pub Admits : Parse → (entry host : Text) → Type 0
Admits parse entry host =
    (entry ≡ bytes "*") ⊎ ((u : Url) × (parse entry ≡ some u) × Covers (allowed_host u) host)

-- The first entry of a list that admits the host.
abbrev pub SomeAdmits : Parse → (host : Text) → List Text → Type 0
SomeAdmits parse host entries =
    (before : List Text) × (entry : Text) × (after : List Text) × (entries
      ≡ before ++ (entry ∷ after))
    × Admits parse entry host

-- An answer with the headers of the configuration that names the origin.
abbrev pub Names : Cors → Request → Response → Type 0
Names c r resp = get resp.header allow_origin ≡ origin_of r

-- What a request of an allowed origin gets: a preflight request an answer 200 that names the
-- origin, and any other one the outcome of the next tripper, where an answer keeps its status, its
-- trailer and its body and names the origin.
abbrev pub Admitted : (options : Bool) → Cors → Request → (next result : Outcome) → Type 0
Admitted true c r next (failed e) = ⊥
Admitted true c r next (answered resp) = (resp.status_code ≡ 200) × Names c r resp
Admitted false c r (failed e) result = result ≡ failed e
Admitted false c r (answered there) (failed e) = ⊥
Admitted false c r (answered there) (answered resp) =
    (resp.status_code ≡ there.status_code)
    × (resp.trailer ≡ there.trailer)
    × (resp.body ≡ there.body)
    × Names c r resp

-- An allowed origin is admitted; for any other one the answer is 403 without a header.
abbrev pub Shared : Parse → Cors → Tripper → Request → Outcome → Type 0
Shared parse c next r result =
    ((is_origin_allowed parse (origin_of r) c.allow_origins ≡ true)
      × Admitted (text_eq r.method (bytes "OPTIONS")) c r (next r) result)
    ⊎ ((is_origin_allowed parse (origin_of r) c.allow_origins ≡ false)
        × (result ≡ answered (new_response 403 [])))

get-set_same : (h : Header) (k v : Text) → get (set_header h k v) k ≡ v
get-set_same h k v = get-set_header h k k v ∙ rw (text_eq_refl (canonical k)) refl

with_cors_headers-Admitted :
    (c : Cors) (r : Request) (result : Outcome)
    → Admitted false c r result (with_cors_headers c (origin_of r) result)
unfolding with_cors_headers
with_cors_headers-Admitted c r (failed e) = refl
with_cors_headers-Admitted c r (answered resp) = (
  refl,
  refl,
  refl,
  get-set_same (write_all (generate_normal_headers c) resp.header) allow_origin (origin_of r),
)

preflight-origin :
    (c : Cors) (r : Request) (origin : Text)
    → get (preflight c r origin).header allow_origin ≡ origin
unfolding preflight new_response
preflight-origin c r origin =
    get-set_same (write_all (generate_preflight_headers c) (private_network c r)) allow_origin
      origin

answer_origin-Admitted :
    (c : Cors) (next : Tripper) (r : Request) (options : Bool)
    → Admitted options c r (next r) (answer_origin true options c next r)
unfolding answer_origin preflight new_response
answer_origin-Admitted c next r true = (refl, preflight-origin c r (origin_of r))
answer_origin-Admitted c next r false = with_cors_headers-Admitted c r (next r)

answer_origin-Shared :
    (parse : Parse) (c : Cors) (next : Tripper) (r : Request) (allowed : Bool)
    → is_origin_allowed parse (origin_of r) c.allow_origins ≡ allowed
    → Shared parse c next r (answer_origin allowed (text_eq r.method (bytes "OPTIONS")) c next r)
unfolding answer_origin
answer_origin-Shared parse c next r false h = inr (h, refl)
answer_origin-Shared parse c next r true h =
    inl (h, answer_origin-Admitted c next r (text_eq r.method (bytes "OPTIONS")))

-- A request with an origin that is not allowed is answered 403 with no header at all, whatever the
-- next tripper is. When the origin is allowed, a preflight request is answered 200 with that origin
-- in Access-Control-Allow-Origin, and any other request gets the outcome of the next tripper: its
-- error, or its answer with the same status, trailer and body and with the origin in that header.
pub cors_trip-Shared :
    (parse : Parse) (c : Cors) (next : Tripper) (r : Request)
    → is_empty (origin_of r) ≡ false
    → Shared parse c next r (cors_trip parse c next r)
unfolding cors_trip
cors_trip-Shared parse c next r cross =
    rw (cors_trip, cross)
      (answer_origin-Shared parse c next r (is_origin_allowed parse (origin_of r) c.allow_origins)
        refl)
