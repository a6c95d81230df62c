-- ===== src/Middleware/Rbac/Laws.antt =====
-- What middleware/rbac/rbac.go lets through, and what it answers otherwise.
use ecommerce_gateway.Common.{
  ◌≡◌, ◌∙◌, ap, sym, refl, Bool, true, false, not, ◌||◌, if◌then◌else◌, first_or_empty, ◌⊎◌, inl,
  inr, List, [], ◌∷◌, Text, bytes, text_eq, is_empty, get, set_header, get-set_header, canonical,
  Bool-cases,
}
use ecommerce_gateway.Http.{Request}
use ecommerce_gateway.Errors.Codes.{
  KratosError, kratos, err_permission_denied, err_auth_check_failed, err_forbidden_route,
}
use ecommerce_gateway.Proxy.Loop.{Outcome, failed, stops_retry}
use ecommerce_gateway.Middleware.RouterFilter.{PathMatcher, any_match}
use ecommerce_gateway.Middleware.Rbac.Roles.{Cache}
use ecommerce_gateway.Middleware.Rbac.{
  Fetch, Call, role_of, fetch_roles, get_user_roles, with_role, Env, decide_route, enforce_role,
  user_id_of, rbac_trip,
}

-- Casdoor answers for the user, and this is the role that its answer stands for: the first one of
-- its roles, and "user" when it names no ID, no role or an empty one.
abbrev pub HasRole : Env → (user_id role : Text) → Type 0
HasRole env user_id role =
    (id : Text) × (roles : List Text) × (env.casdoor user_id ≡ Fetch.user id roles)
    × (((is_empty id || is_empty (first_or_empty roles) ≡ true) × (role ≡ bytes "user"))
        ⊎ ((is_empty id || is_empty (first_or_empty roles) ≡ false)
            × (role ≡ first_or_empty roles)))

-- An answer by an error, after which the retry loop goes on.
abbrev pub IsRefusal : Outcome → KratosError → Type 0
IsRefusal result e = (result ≡ failed (kratos e)) × (stops_retry (kratos e) ≡ false)

-- What becomes of a request of a user with a role: by the answer of casbin, the next tripper gets
-- it with the header of the role, or it is refused.
abbrev pub Decided : Env → (Request → Outcome) → Request → (role : Text) → Outcome → Type 0
Decided env next r role result =
    ((env.enforce role r.path r.method ≡ inr true)
      × (result ≡ next (with_role role env.owner (user_id_of r) r))
      × (get (with_role role env.owner (user_id_of r) r).header (bytes "X-Md-Global-Role") ≡ role))
    ⊎ ((env.enforce role r.path r.method ≡ inr false) × IsRefusal result err_forbidden_route)
    ⊎ ((e : Text) × (env.enforce role r.path r.method ≡ inl e)
        × IsRefusal result err_auth_check_failed)

-- The cases by the answer of Casdoor: the user has a role, which decides; the request to Casdoor
-- fails, or its answer is not decoded; or the URL does not parse.
abbrev pub Enforced : Env → (Request → Outcome) → Request → Call Outcome → Type 0
Enforced env next r result =
    ((role : Text) × HasRole env (user_id_of r) role
      × ((outcome : Outcome) × (result ≡ Call.returned outcome) × Decided env next r role outcome))
    ⊎ (((env.casdoor (user_id_of r) ≡ Fetch.unreachable)
          ⊎ (env.casdoor (user_id_of r) ≡ Fetch.undecodable))
        × ((outcome : Outcome) × (result ≡ Call.returned outcome)
            × IsRefusal outcome err_auth_check_failed))
    ⊎ ((result ≡ Call.panicked) × (env.casdoor (user_id_of r) ≡ Fetch.invalid_url))

picked-role :
    (id first : Text)
    → let role = if not (is_empty id) then first else [] in
      let picked = if is_empty role then bytes "user" else role in
      ((is_empty id || is_empty first ≡ true) × (picked ≡ bytes "user"))
      ⊎ ((is_empty id || is_empty first ≡ false) × (picked ≡ first))
picked-role [] first = inl (refl, refl)
picked-role (c ∷ id) [] = inl (refl, refl)
picked-role (c ∷ id) (d ∷ first) = inr (refl, refl)

role_of-HasRole :
    (env : Env) (user_id id : Text) (roles : List Text)
    → env.casdoor user_id ≡ Fetch.user id roles
    → HasRole env user_id (role_of id roles)
unfolding role_of
role_of-HasRole env user_id id roles h = (id, roles, h, picked-role id (first_or_empty roles))

with_role-get :
    (role owner user_id : Text) (r : Request)
    → get (with_role role owner user_id r).header (bytes "X-Md-Global-Role") ≡ role
unfolding with_role canonical text_eq get
with_role-get role owner user_id r =
    let role_name = bytes "x-md-global-role" in
    let owner_name = bytes "x-md-global-owner" in
    let with_name = set_header r.header role_name role in
    get-set_header (set_header with_name owner_name owner) (bytes "x-md-global-user-id") role_name
      user_id
    ∙ get-set_header with_name owner_name role_name owner
    ∙ get-set_header r.header role_name role_name role

decide_route-Decided :
    (env : Env) (next : Request → Outcome) (r : Request) (role : Text) (answer : Text ⊎ Bool)
    → env.enforce role r.path r.method ≡ answer
    → Decided env next r role (decide_route env next r (user_id_of r) role answer)
unfolding decide_route stops_retry
decide_route-Decided env next r role (inl e) h = inr (inr (e, h, (refl, refl)))
decide_route-Decided env next r role (inr true) h =
    inl (h, refl, with_role-get role env.owner (user_id_of r) r)
decide_route-Decided env next r role (inr false) h = inr (inl (h, (refl, refl)))

enforce_role-Enforced :
    (env : Env) (next : Request → Outcome) (r : Request) (fetch : Fetch) (cache : Cache)
    → env.casdoor (user_id_of r) ≡ fetch
    → Enforced env next r (
        enforce_role env next r
          (user_id_of r)
          (get_user_roles env.now (user_id_of r) (fetch_roles fetch) cache).0)
unfolding enforce_role get_user_roles fetch_roles stops_retry
enforce_role-Enforced env next r Fetch.invalid_url cache h = inr (inr (refl, h))
enforce_role-Enforced env next r Fetch.unreachable cache h =
    inr (inl (inl h, (failed (kratos err_auth_check_failed), refl, (refl, refl))))
enforce_role-Enforced env next r Fetch.undecodable cache h =
    inr (inl (inr h, (failed (kratos err_auth_check_failed), refl, (refl, refl))))
enforce_role-Enforced env next r (Fetch.user id roles) cache h = inl (
  role_of id roles,
  role_of-HasRole env (user_id_of r) id roles h,
  (_, refl, decide_route-Decided env next r (role_of id roles) _ refl),
)

-- A request that no rule skips and that names a user is judged by the role that Casdoor's answer
-- stands for: the first one of the user's roles, or "user" when the answer names no ID, no role or
-- an empty one. It is passed on, under the header of that role, when casbin allows the role on the
-- route; it is refused with FORBIDDEN_ROUTE when casbin does not, and with the error of a failed
-- check when casbin or the request to Casdoor fails, and the retry loop goes on after both. The
-- call panics when the URL with the user's ID does not parse.
pub rbac_trip-Enforced :
    (matchers : List PathMatcher) (env : Env) (next : Request → Outcome) (r : Request)
    (cache : Cache)
    → any_match matchers r ≡ false
    → is_empty (user_id_of r) ≡ false
    → Enforced env next r (rbac_trip matchers env next r cache).0
unfolding rbac_trip
rbac_trip-Enforced matchers env next r cache unmatched named =
    rw (unmatched, named) (enforce_role-Enforced env next r (env.casdoor (user_id_of r)) cache refl)

-- A request without a user that no rule skips is refused with PERMISSION_DENIED, which ends the
-- retry loop, and the cache stays.
pub rbac_trip-anonymous :
    (matchers : List PathMatcher) (env : Env) (next : Request → Outcome) (r : Request)
    (cache : Cache)
    → any_match matchers r ≡ false
    → is_empty (user_id_of r) ≡ true
    → (rbac_trip matchers env next r cache
        ≡ (Call.returned (failed (kratos err_permission_denied)), cache))
      × (stops_retry (kratos err_permission_denied) ≡ true)
unfolding rbac_trip stops_retry
rbac_trip-anonymous matchers env next r cache unmatched unnamed =
    (rw (unmatched, unnamed) refl, refl)

get_user_roles-role :
    (env : Env) (user_id : Text) (fetched : Call (KratosError ⊎ Text)) (cache : Cache)
    → (get_user_roles env.now user_id fetched cache).0 ≡ fetched
unfolding get_user_roles
get_user_roles-role env user_id Call.panicked cache = refl
get_user_roles-role env user_id (Call.returned (inl e)) cache = refl
get_user_roles-role env user_id (Call.returned (inr role)) cache = refl

-- The decision does not depend on the cache, which is written and not read.
pub rbac_trip-uncached :
    (matchers : List PathMatcher) (env : Env) (next : Request → Outcome) (r : Request)
    (cache other : Cache)
    → (rbac_trip matchers env next r cache).0 ≡ (rbac_trip matchers env next r other).0
unfolding rbac_trip
rbac_trip-uncached matchers env next r cache other =
    let fetched = fetch_roles (env.casdoor (user_id_of r)) in
    elim (Bool-cases (any_match matchers r)) [
      | inl skipped ↦ rw skipped refl
      | inr checked ↦ elim (Bool-cases (is_empty (user_id_of r))) [
        | inl unnamed ↦ rw (checked, unnamed) refl
        | inr named ↦
            rw (checked, named)
              (ap (enforce_role env next r (user_id_of r)) (
                get_user_roles-role env (user_id_of r) fetched cache
                ∙ sym (get_user_roles-role env (user_id_of r) fetched other)))
      ]
    ]
