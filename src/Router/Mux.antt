-- ===== src/Router/Mux.antt =====
-- router/mux/mux.go: the paths that reach the router, and the kinds of its routes. The matching of
-- path templates is that of gorilla/mux, a parameter.
pub mod Laws
mod Tests
use ecommerce_gateway.Common.{
  ℕ, Bool, true, false, not, ◌&&◌, ◌||◌, ◌==◌, Option, none, some, List, [], ◌∷◌, ◌++◌, Text, bytes,
  text_eq, has_prefix, has_suffix, reverse, strip, trim_prefix, to_upper, get, is_empty, any,
  if◌then◌else◌,
}
use ecommerce_gateway.Http.{Request, Response}
use ecommerce_gateway.Loader.Path.{clean}

abbrev pub ends_in_slash : Text → Bool
ends_in_slash p = has_suffix p (bytes "/")

abbrev pub rooted_path : Text → Text
rooted_path [] = bytes "/"
rooted_path (c ∷ p) = if c == b'/' then c ∷ p else b'/' ∷ c ∷ p

-- cleanPath
unfoldable pub clean_path : Text → Text
unfolding clean has_suffix text_eq
clean_path p =
    if is_empty p
    then bytes "/"
    else let np = clean (rooted_path p) in
      if ends_in_slash (rooted_path p) && not (text_eq np (bytes "/")) then np ++ bytes "/" else np

unfoldable pub drop_stars : Text → Text
drop_stars [] = []
drop_stars (c ∷ s) = let rest = drop_stars s in if c == b'*' then rest else c ∷ s

-- strings.TrimRight with "*".
unfoldable pub trim_stars : Text → Text
unfolding drop_stars
trim_stars s = reverse (drop_stars (reverse s))

-- How a route matches the path: by its template, by a prefix, or by a gRPC service.
pub data Matcher : Type 0 where
  path_template : Text → Matcher
  path_prefix : Text → Matcher
  grpc_service : Text → Matcher

unfoldable pub grpc_matcher : (prefix service : Text) → Matcher
grpc_matcher prefix [] = Matcher.path_prefix prefix
grpc_matcher prefix (c ∷ service) = Matcher.grpc_service (c ∷ service)

-- The matcher that Handle gives a route.
unfoldable pub matcher_of : (pattern protocol : Text) → Matcher
unfolding has_suffix trim_stars to_upper text_eq trim_prefix grpc_matcher
matcher_of pattern protocol =
    if has_suffix pattern (bytes "*")
    then if text_eq (to_upper protocol) (bytes "GRPC")
      then grpc_matcher (trim_stars pattern) (trim_prefix (trim_stars pattern) (bytes "/"))
      else Matcher.path_prefix (trim_stars pattern)
    else Matcher.path_template pattern

unfoldable pub starts_part : Text → Bool
starts_part [] = false
starts_part (c ∷ s) = (c == b'.') || (c == b'/')

-- The test of a path, for what gorilla/mux makes of templates and prefixes. A gRPC service is the
-- first part of the path, up to a dot or a slash.
unfoldable pub matches_path : (template prefix : Text → Text → Bool) → Matcher → Text → Bool
unfolding has_prefix strip starts_part
matches_path template prefix (Matcher.path_template p) path = template p path
matches_path template prefix (Matcher.path_prefix p) path = prefix p path
matches_path template prefix (Matcher.grpc_service service) path =
    has_prefix path (b'/' ∷ service) && starts_part (strip path (b'/' ∷ service))

-- The methods of a route; none means all of them.
unfoldable pub methods_of : Text → List Text
unfolding text_eq
methods_of method =
    if is_empty method || text_eq method (bytes "*") then [] else method ∷ bytes "OPTIONS" ∷ []

pub record MuxRoute : Type 0 where
  pub host : Text
  pub matcher : Matcher
  pub methods : List Text

-- The routes and the closers, which are named by numbers.
pub record MuxRouter : Type 0 where
  pub routes : List MuxRoute
  pub all_closer : List ℕ

abbrev pub mux_route : (pattern method host protocol : Text) → MuxRoute
unfolding matcher_of methods_of
mux_route pattern method host protocol = record {
  host = host;
  matcher = matcher_of pattern protocol;
  methods = methods_of method;
}

-- Handle, with the error that the route has; the route stays in either case.
unfoldable pub handle_route :
    (error : Option Text) (pattern method host protocol : Text) (closer : ℕ)
    → MuxRouter
    → Option Text × MuxRouter
unfolding matcher_of methods_of
handle_route error pattern method host protocol closer r =
    let routed = record r { routes = r.routes ++ (mux_route pattern method host protocol ∷ []) } in
    elim error [
      | some e ↦ (some e, routed)
      | none ↦ (none, record routed { all_closer = r.all_closer ++ (closer ∷ []) })
    ]

-- SyncClose: each closer is closed, whatever the errors; here are those that fail.
unfoldable pub sync_close : (fails : ℕ → Bool) → MuxRouter → List ℕ × List ℕ
sync_close fails r = (r.all_closer, failing r.all_closer)
  where
    failing : List ℕ → List ℕ
    failing [] = []
    failing (c ∷ closers) = let rest = failing closers in if fails c then c ∷ rest else rest

-- ProtectedHandler: a request that came through a proxy is refused.
unfoldable pub is_protected : Request → Bool
is_protected r = not (is_empty (get r.header (bytes "X-Forwarded-For")))
