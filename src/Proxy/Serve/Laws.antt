-- ===== src/Proxy/Serve/Laws.antt =====
-- Which handler a request reaches, and which errors the handlers of proxy/proxy.go,
-- proxy/auth/auth.go and router/mux/mux.go write.
use ecommerce_gateway.Common.{
  ◌≡◌, refl, ℕ, ◌⊎◌, inl, inr, Bool, true, false, Option, none, some, [], bytes, has_prefix, Map,
  lookup, if◌then◌else◌,
}
use ecommerce_gateway.Http.{Request}
use ecommerce_gateway.Errors.Codes.{err_forbidden_route, err_internal_server}
use ecommerce_gateway.Router.Mux.{is_protected}
use ecommerce_gateway.Proxy.Serve.{
  Ending, Sent, RouteMatch, recover, call_handler, protected_handler, auth_serve, auth_handler,
  serve,
}

module _ {A : Type 0} (metrics : Request → Ending A) (endpoints : ℕ → Request → Ending A) where
  -- What the handlers below "/auth" make of a request.
  abbrev pub IsAuthAnswer : Map (Request → Ending A) → Request → Sent A → Type 0
  IsAuthAnswer handlers r answer =
      ((is_protected r ≡ true) × (answer ≡ Sent.wrote err_forbidden_route []))
      ⊎ ((is_protected r ≡ false)
          × (((lookup r.path handlers ≡ none) × (answer ≡ Sent.wrote err_internal_server []))
              ⊎ ((h : Request → Ending A) × (lookup r.path handlers ≡ some h)
                  × (answer ≡ recover err_internal_server (h r)))))

  called-IsAuthAnswer :
      (handlers : Map (Request → Ending A)) (r : Request) (found : Option (Request → Ending A))
      → is_protected r ≡ false
      → lookup r.path handlers ≡ found
      → IsAuthAnswer handlers r (recover err_internal_server (call_handler found r))
  unfolding call_handler recover
  called-IsAuthAnswer handlers r none direct e = inr (direct, inl (e, refl))
  called-IsAuthAnswer handlers r (some h) direct e = inr (direct, inr (h, e, refl))

  direct-IsAuthAnswer :
      (handlers : Map (Request → Ending A)) (r : Request) (proxied : Bool)
      → is_protected r ≡ proxied
      → IsAuthAnswer handlers r
          (if proxied then Sent.wrote err_forbidden_route [] else auth_serve handlers r)
  unfolding auth_serve
  direct-IsAuthAnswer handlers r true e = inl (e, refl)
  direct-IsAuthAnswer handlers r false e =
      called-IsAuthAnswer handlers r (lookup r.path handlers) e refl

  -- A request whose path begins with "/auth", with a slash behind it or not, never reaches the
  -- routes: one with the header X-Forwarded-For is forbidden; of the others, one for which no
  -- handler is registered gets the internal error, and one that has a handler gets what that
  -- answers or, where it panics, the internal error, behind the part of its answer that it had
  -- begun to send if there is one.
  pub serve-IsAuthAnswer :
      (handlers : Map (Request → Ending A)) (choose : Request → RouteMatch A) (r : Request)
      → has_prefix r.path (bytes "/auth") ≡ true
      → IsAuthAnswer handlers r (serve metrics endpoints handlers choose r)
  unfolding serve auth_handler protected_handler
  serve-IsAuthAnswer handlers choose r below =
      rw below (direct-IsAuthAnswer handlers r (is_protected r) refl)
