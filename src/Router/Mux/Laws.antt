-- ===== src/Router/Mux/Laws.antt =====
-- Which paths reach the routes of router/mux/mux.go.
use ecommerce_gateway.Common.{
  ◌≡◌, Bool, true, not, ◌&&◌, ◌⊎◌, List, ◌++◌, Text, bytes, text_eq, any, all, ◌==◌, is_empty,
}
use ecommerce_gateway.Loader.Path.{render}

-- An element that names something: it is not empty, "." or "..", and has no slash.
abbrev pub is_plain : Text → Bool
is_plain e =
    not (is_empty e)
    && not (text_eq e (bytes "."))
    && not (text_eq e (bytes ".."))
    && not (any (λ b. b == b'/') e)

-- A path from the root that is made of such elements, and a slash behind it or none.
abbrev pub IsPlainPath : Text → Type 0
IsPlainPath p =
    (stack : List Text) × (all is_plain stack ≡ true)
    × ((p ≡ render true stack) ⊎ (p ≡ render true stack ++ bytes "/"))

abbrev no_slash : Text → Bool
no_slash e = not (any (λ b. b == b'/') e)
