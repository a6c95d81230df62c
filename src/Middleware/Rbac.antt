-- ===== src/Middleware/Rbac.antt =====
-- middleware/rbac/rbac.go: whether the role of a user may call a route. The answers of Casdoor and
-- the library casbin are parameters; the rules that skip the check are matchers of the router
-- filter.
pub mod Roles
pub mod Enforcer
pub mod Laws
mod Tests
use ecommerce_gateway.Common.{
  ℕ, Bool, true, false, Option, none, some, ◌⊎◌, inl, inr, List, [], ◌∷◌, Text, bytes, text_eq,
  is_empty, if◌then◌else◌, get, set_header, first_or_empty, not, ◌&&◌, insert, Map, any, map,
  to_upper,
}
use ecommerce_gateway.Config.Types.{FilterRule}
use ecommerce_gateway.Http.{Request}
use ecommerce_gateway.Errors.Codes.{
  KratosError, kratos, err_permission_denied, err_auth_check_failed, err_forbidden_route,
  err_service_unavailable, err_invalid_request,
}
use ecommerce_gateway.Proxy.Loop.{Outcome, failed}
use ecommerce_gateway.Middleware.RouterFilter.{
  Compile, PathMatcher, compile_rules, any_match, matches,
}
use ecommerce_gateway.Middleware.Rbac.Roles.{Cache, set_item}

-- What asking Casdoor for a user comes to: the URL with the user's ID does not parse, the call or
-- the decoding of its answer fails, or it gives the ID and the names of the roles.
pub data Fetch : Type 0 where
  invalid_url unreachable undecodable : Fetch
  user : (id : Text) (roles : List Text) → Fetch

-- A call that panics, or what it returns.
pub data Call {ℓ} (A : Type ℓ) : Type ℓ where
  panicked : Call A
  returned : A → Call A

-- The role that fetchRolesFromCasdoor takes from an answer.
unfoldable pub role_of : (id : Text) (roles : List Text) → Text
role_of id roles =
    let role = if not (is_empty id) then first_or_empty roles else [] in
    if is_empty role then bytes "user" else role

-- fetchRolesFromCasdoor; the request is nil when the URL does not parse, and its URL is read.
unfoldable pub fetch_roles : Fetch → Call (KratosError ⊎ Text)
unfolding role_of
fetch_roles Fetch.invalid_url = Call.panicked
fetch_roles Fetch.unreachable = Call.returned (inl err_service_unavailable)
fetch_roles Fetch.undecodable = Call.returned (inl err_invalid_request)
fetch_roles (Fetch.user id roles) = Call.returned (inr (role_of id roles))

-- getUserRoles: the role goes into the cache, which is not asked for it.
unfoldable pub get_user_roles :
    (now : ℕ) (user_id : Text)
    → Call (KratosError ⊎ Text)
    → Cache
    → Call (KratosError ⊎ Text) × Cache
unfolding set_item
get_user_roles now user_id Call.panicked cache = (Call.panicked, cache)
get_user_roles now user_id (Call.returned (inl e)) cache = (Call.returned (inl e), cache)
get_user_roles now user_id (Call.returned (inr role)) cache =
    (Call.returned (inr role), set_item now user_id role cache)

-- The request with the headers of the user, under the names of constants/env.go.
unfoldable pub with_role : (role owner user_id : Text) → Request → Request
with_role role owner user_id r = record r {
  header =
      set_header
        (set_header (set_header r.header (bytes "x-md-global-role") role)
          (bytes "x-md-global-owner") owner)
        (bytes "x-md-global-user-id") user_id;
}

-- What the request meets: the time, Casdoor, the enforcer, and the environment's user owner.
pub record Env : Type 0 where
  pub now : ℕ
  pub casdoor : Text → Fetch
  -- Enforce on a role, a path and a method
  pub enforce : Text → Text → Text → Text ⊎ Bool
  pub owner : Text

unfoldable pub decide_route :
    Env → (Request → Outcome) → Request → (user_id role : Text) → Text ⊎ Bool → Outcome
unfolding with_role
decide_route env next r user_id role (inl e) = failed (kratos err_auth_check_failed)
decide_route env next r user_id role (inr true) = next (with_role role env.owner user_id r)
decide_route env next r user_id role (inr false) = failed (kratos err_forbidden_route)

unfoldable pub enforce_role :
    Env
    → (Request → Outcome)
    → Request
    → (user_id : Text) → Call (KratosError ⊎ Text)
    → Call Outcome
unfolding decide_route
enforce_role env next r user_id Call.panicked = Call.panicked
enforce_role env next r user_id (Call.returned (inl e)) =
    Call.returned (failed (kratos err_auth_check_failed))
enforce_role env next r user_id (Call.returned (inr role)) =
    Call.returned (decide_route env next r user_id role (env.enforce role r.path r.method))

abbrev pub user_id_of : Request → Text
user_id_of r = get r.header (bytes "x-md-global-user-id")

-- The tripper that Middleware wraps around `next`, with the cache that it writes.
unfoldable pub rbac_trip :
    List PathMatcher → Env → (Request → Outcome) → Request → Cache → Call Outcome × Cache
unfolding any matches fetch_roles get_user_roles enforce_role
rbac_trip matchers env next r cache =
    let (role, after) =
      get_user_roles env.now (user_id_of r) (fetch_roles (env.casdoor (user_id_of r))) cache in
    if any_match matchers r
    then (Call.returned (next r), cache)
    else if is_empty (user_id_of r)
    then (Call.returned (failed (kratos err_permission_denied)), cache)
    else (enforce_role env next r (user_id_of r) role, after)

-- Middleware: its rules as matchers, or ErrInvalidRequest.
unfoldable pub rbac_matchers : Compile → Option (List FilterRule) → KratosError ⊎ List PathMatcher
unfolding compile_rules
rbac_matchers compile none = inr []
rbac_matchers compile (some rules) = elim (compile_rules compile rules) [
  | inl e ↦ inl err_invalid_request
  | inr matchers ↦ inr matchers
]
