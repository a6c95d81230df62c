-- ===== src/Proxy/Forwarded/Laws.antt =====
-- The list of addresses that setXFFHeader of proxy/proxy.go leaves.
use ecommerce_gateway.Common.{
  ◌≡◌, ◌∙◌, ap, refl, none, some, List, [], ◌∷◌, ◌++◌, Text, bytes, lookup, text_eq, join,
  append_assoc, Header, canonical, get, set_header, get-set_header, split_host_port,
}
use ecommerce_gateway.Http.{Request}
use ecommerce_gateway.Proxy.Forwarded.{forwarded, with_forwarded, set_xff_header}

forwarded-join :
    (client_ip : Text) (prior : List Text)
    → forwarded client_ip prior ≡ join (bytes ", ") (prior ++ client_ip ∷ [])
unfolding forwarded join
forwarded-join client_ip [] = refl
forwarded-join client_ip (v ∷ []) = refl
forwarded-join client_ip (v ∷ w ∷ prior) =
    append_assoc v (bytes ", " ++ join (bytes ", ") (w ∷ prior)) (bytes ", " ++ client_ip)
    ∙ ap (λ t. v ++ (bytes ", " ++ t)) (forwarded-join client_ip (w ∷ prior))

get-forwarded :
    (h : Header) (v : Text)
    → get (set_header h (bytes "X-Forwarded-For") v) (bytes "X-Forwarded-For") ≡ v
unfolding canonical text_eq
get-forwarded h v = get-set_header h (bytes "X-Forwarded-For") (bytes "X-Forwarded-For") v

-- A request whose remote address has a host and a port is passed on with the values of
-- X-Forwarded-For that it had and that host, joined in one value; with a header that is there and
-- nil it is passed on as it is.
pub set_xff_header_lem :
    (r : Request) (client_ip : Text)
    → split_host_port r.remote_addr ≡ some client_ip
    → (lookup (bytes "X-Forwarded-For") r.header ≡ none
        → get (set_xff_header r).header (bytes "X-Forwarded-For") ≡ client_ip)
      × ((prior : List Text)
          → lookup (bytes "X-Forwarded-For") r.header ≡ some (some prior)
          → get (set_xff_header r).header (bytes "X-Forwarded-For")
            ≡ join (bytes ", ") (prior ++ client_ip ∷ []))
      × (lookup (bytes "X-Forwarded-For") r.header ≡ some none → set_xff_header r ≡ r)
unfolding set_xff_header with_forwarded
set_xff_header_lem r client_ip host = (
  λ missing.
      rw (set_xff_header, host)
        (rw missing (get-forwarded r.header (forwarded client_ip []))
          ∙ forwarded-join client_ip []),
  λ prior there.
      rw (set_xff_header, host)
        (rw there (get-forwarded r.header (forwarded client_ip prior))
          ∙ forwarded-join client_ip prior),
  λ omit. rw (set_xff_header, host) (rw omit refl),
)
