-- ===== src/Client/Target.antt =====
-- client/target.go: the target of a backend, and the address among the endpoints of an instance.
-- url.Parse is a parameter.
use ecommerce_gateway.Common.{
  Bool, true, false, not, ◌||◌, ◌&&◌, Option, none, some, List, [], ◌∷◌, ◌++◌, Text, bytes, text_eq,
  has_prefix, any, if◌then◌else◌,
}
use ecommerce_gateway.Http.{Url, Parse}

pub record Target : Type 0 where
  pub scheme : Text
  pub authority : Text
  pub endpoint : Text

-- strings.Contains
unfoldable pub contains_text : Text → Text → Bool
unfolding has_prefix
contains_text [] p = has_prefix [] p
contains_text (c ∷ s) p = has_prefix (c ∷ s) p || contains_text s p

-- The path without its first byte, which is a slash, if there is more.
abbrev pub path_tail : Text → Text
path_tail [] = []
path_tail (c ∷ s) = s

-- parseTarget; `none` is the error of url.Parse.
unfoldable pub parse_target : Parse → Text → Option Target
unfolding contains_text
parse_target parse endpoint =
    let full =
      if contains_text endpoint (bytes "://") then endpoint else bytes "direct:///" ++ endpoint in
    elim (parse full) [
      | none ↦ none
      | some u ↦
          some (record { scheme = u.scheme; authority = u.host; endpoint = path_tail u.path })
    ]

-- strconv.ParseBool, with false for its error.
unfoldable pub parse_bool : Text → Bool
unfolding any text_eq
parse_bool s =
    any (λ t. text_eq t s)
      (bytes "1" ∷ bytes "t" ∷ bytes "T" ∷ bytes "true" ∷ bytes "TRUE" ∷ bytes "True" ∷ [])

-- IsSecure
unfoldable pub is_secure : Url → Bool
unfolding parse_bool
is_secure u = parse_bool u.is_secure_value

abbrev pub same_bool : Bool → Bool → Bool
same_bool true b = b
same_bool false b = not b

-- parseEndpoint: the host, which is empty when no endpoint fits, or the error of url.Parse.
unfoldable pub parse_endpoint : Parse → List Text → (scheme : Text) → (secure : Bool) → Option Text
unfolding is_secure text_eq
parse_endpoint parse [] scheme secure = some []
parse_endpoint parse (e ∷ endpoints) scheme secure =
    let rest = parse_endpoint parse endpoints scheme secure in
    elim (parse e) [
      | none ↦ none
      | some u ↦
          if text_eq u.scheme scheme && same_bool (is_secure u) secure then some u.host else rest
    ]
