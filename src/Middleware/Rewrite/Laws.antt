-- ===== src/Middleware/Rewrite/Laws.antt =====
-- What middleware/rewrite/rewrite.go promises of paths and headers.
use ecommerce_gateway.Common.{
  ◌≡◌, ◌∙◌, ap, refl, arith, Bool, true, ◌==◌, some, List, [], ◌∷◌, Text, text_eq, trim_prefix,
  has_prefix, any, Header, get, get-del_header, del_header, canonical, Bool-cases, inl, inr,
}
use ecommerce_gateway.Http.{Request}
use ecommerce_gateway.Loader.Path.{join_path, clean, render, is_rooted}
use ecommerce_gateway.Middleware.Rewrite.{
  HeadersPolicy, Rewrite, rooted_path, strip_prefix, remove_all, rewrite_headers, rewrite_request,
}

rooted_path-rooted : (out : Text) → is_rooted (rooted_path out) ≡ true
unfolding rooted_path has_prefix join_path clean render
rooted_path-rooted [] = refl
rooted_path-rooted (c ∷ out) = elim (Bool-cases (c == b'/')) [
  | inl slash ↦ ground (arith, slash)
  | inr other ↦ rw other refl
]

-- A path whose prefix was stripped starts at the root.
pub strip_prefix-rooted : (origin prefix : Text) → is_rooted (strip_prefix origin prefix) ≡ true
unfolding strip_prefix
strip_prefix-rooted origin prefix = rooted_path-rooted (trim_prefix origin prefix)

del_header-gone : (h : Header) (n name : Text) → get h name ≡ [] → get (del_header h n) name ≡ []
del_header-gone h n name gone = ground (arith, get-del_header h n name, gone)

remove_all-gone :
    (names : List Text) (h : Header) (name : Text)
    → get h name ≡ []
    → get (remove_all names h) name ≡ []
unfolding remove_all
remove_all-gone [] h name gone = gone
remove_all-gone (n ∷ names) h name gone =
    remove_all-gone names (del_header h n) name (del_header-gone h n name gone)

-- One of the names is this one, up to its spelling.
abbrev pub is_named : (names : List Text) (name : Text) → Bool
is_named names name = any (λ n. text_eq (canonical n) (canonical name)) names

remove_all-listed :
    (names : List Text) (h : Header) (name : Text)
    → is_named names name ≡ true
    → get (remove_all names h) name ≡ []
unfolding remove_all any
remove_all-listed [] h name listed = cc
remove_all-listed (n ∷ names) h name listed =
    elim (Bool-cases (text_eq (canonical n) (canonical name))) [
      | inl here ↦
          remove_all-gone names (del_header h n) name (get-del_header h n name ∙ rw here refl)
      | inr later ↦ remove_all-listed names (del_header h n) name (ground (arith, later, listed))
    ]

-- A header that the policy of the options removes is gone from the request that the next tripper
-- gets, whatever the policy sets or adds under that name, in any spelling.
pub rewrite_request-removed :
    (o : Rewrite) (p : HeadersPolicy) (r : Request) (name : Text)
    → o.request_headers ≡ some p
    → is_named p.remove name ≡ true
    → get (rewrite_request o r).header name ≡ []
unfolding rewrite_request rewrite_headers
rewrite_request-removed o p r name given listed =
    ap (λ policy. get (rewrite_headers policy r.header) name) given
    ∙ remove_all-listed p.remove _ name listed
