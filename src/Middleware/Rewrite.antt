-- ===== src/Middleware/Rewrite.antt =====
-- middleware/rewrite/rewrite.go: the host, the path and the headers of a request, and the headers
-- of its answer. Go goes through a map in an order of its own: the maps of the options are lists
-- in that order.
mod Laws
mod Tests
use ecommerce_gateway.Common.{
  Bool, true, false, not, ◌==◌, Option, none, some, List, [], ◌∷◌, Text, bytes, trim_prefix, Header,
  set_header, add_header, del_header, if◌then◌else◌,
}
use ecommerce_gateway.Http.{Request, Response}
use ecommerce_gateway.Loader.Path.{join_path}
use ecommerce_gateway.Proxy.Loop.{Outcome, failed, answered}
use ecommerce_gateway.Middleware.Registry.{Tripper}

-- HeadersPolicy
pub record HeadersPolicy : Type 0 where
  pub set : List (Text × Text)
  pub add : List (Text × Text)
  pub remove : List Text

-- The options; nil is `none`.
pub record Rewrite : Type 0 where
  pub path_rewrite : Option Text
  pub host_rewrite : Option Text
  pub strip_prefix : Option Text
  pub request_headers : Option HeadersPolicy
  pub response_headers : Option HeadersPolicy

unfoldable pub rooted_path : Text → Text
unfolding join_path
rooted_path [] = bytes "/"
rooted_path (c ∷ out) = if not (c == b'/') then join_path (bytes "/") (c ∷ out) else c ∷ out

-- stripPrefix
unfoldable pub strip_prefix : (origin prefix : Text) → Text
unfolding trim_prefix rooted_path
strip_prefix origin prefix = rooted_path (trim_prefix origin prefix)

unfoldable pub set_all : List (Text × Text) → Header → Header
set_all [] h = h
set_all ((key, value) ∷ rest) h = set_all rest (set_header h key value)

unfoldable pub add_all : List (Text × Text) → Header → Header
add_all [] h = h
add_all ((key, value) ∷ rest) h = add_all rest (add_header h key value)

unfoldable pub remove_all : List Text → Header → Header
remove_all [] h = h
remove_all (key ∷ rest) h = remove_all rest (del_header h key)

unfoldable pub rewrite_headers : Option HeadersPolicy → Header → Header
unfolding set_all add_all remove_all
rewrite_headers none h = h
rewrite_headers (some p) h = remove_all p.remove (add_all p.add (set_all p.set h))

abbrev pub or_keep : Option Text → Text → Text
or_keep none old = old
or_keep (some new) old = new

unfoldable pub stripped_path : Option Text → Text → Text
unfolding strip_prefix
stripped_path none path = path
stripped_path (some prefix) path = strip_prefix path prefix

unfoldable pub joined_path : Option Text → Text → Text
unfolding join_path
joined_path none path = path
joined_path (some base) path = join_path base path

-- The request that the next tripper gets.
unfoldable pub rewrite_request : Rewrite → Request → Request
unfolding stripped_path joined_path rewrite_headers
rewrite_request o r = record r {
  host = or_keep o.host_rewrite r.host;
  path = joined_path o.path_rewrite (stripped_path o.strip_prefix r.path);
  header = rewrite_headers o.request_headers r.header;
}

unfoldable pub rewrite_outcome : Rewrite → Outcome → Outcome
unfolding rewrite_headers
rewrite_outcome o (failed e) = failed e
rewrite_outcome o (answered resp) =
    answered (record resp { header = rewrite_headers o.response_headers resp.header })

-- The tripper that Middleware wraps around `next`.
unfoldable pub rewrite_trip : Rewrite → Tripper → Tripper
unfolding rewrite_request rewrite_outcome
rewrite_trip o next r = rewrite_outcome o (next (rewrite_request o r))
