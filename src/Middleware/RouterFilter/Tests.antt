-- ===== src/Middleware/RouterFilter/Tests.antt =====
-- Patterns and requests on examples: middleware/routerfilter/routerfilter.go.
use ecommerce_gateway.Common.{all, ◌≡◌, refl, none, inl, [], ◌∷◌, ◌++◌, bytes}
use ecommerce_gateway.Middleware.RouterFilter.{regex_of, rooted, new_path_matcher, PatternError}
use ecommerce_gateway.Middleware.RouterFilter.Laws.{regex_of-plain}

parameter : regex_of (bytes "/user/{id}") ≡ bytes "^/user/(?P<id>[^/]+)$"
unfolding regex_of
parameter = refl

all_below : regex_of (bytes "/user/**") ≡ bytes "^/user(?:/.*)?$"
unfolding regex_of
all_below = refl

one_level : regex_of (bytes "/user/*") ≡ bytes "^/user(?:/[^/]+)?$"
unfolding regex_of
one_level = refl

prefix : regex_of (bytes "/v1.0/user*") ≡ bytes "^/v1\\.0/user.*$"
unfolding regex_of
prefix = refl

with_slash : rooted (bytes "user/") ≡ bytes "/user"
unfolding rooted
with_slash = refl

empty : new_path_matcher (λ p. none) (bytes "  ") [] ≡ inl PatternError.empty_pattern
unfolding new_path_matcher
empty = refl

regex_of-plain_example : regex_of (bytes "/v1.0/user") ≡ (b'^' ∷ (bytes "/v1.0/user" ++ bytes "$"))
unfolding all
regex_of-plain_example = regex_of-plain (bytes "/v1.0/user") refl
