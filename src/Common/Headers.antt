-- ===== src/Common/Headers.antt =====
-- http.Header of the standard library: values under canonical keys.
use Prim.Native.Nat.{ℕ}
use mathlib.Core.Path.{◌≡◌}
use mathlib.Core.Bool.{Bool, true, ◌||◌}
use mathlib.Core.List.{List, [], ◌∷◌, ◌++◌}
use mathlib.Core.Option.{Option, none, some}
use native.Mathlib.Omega.{arith}
use ecommerce_gateway.Common.Bools.{◌==◌, if◌then◌else◌}
use ecommerce_gateway.Common.Lists.{any, all}
use ecommerce_gateway.Common.Strings.{
  Text, bytes, is_upper, is_lower, is_digit, lower_byte, upper_byte, text_eq, text_eq_iff,
}
use ecommerce_gateway.Common.Maps.{Map, lookup, insert, delete, lookup-insert, lookup-delete}

-- A value of the map is a slice; `none` is the nil slice.
abbrev pub Slice : Type 0
Slice = Option (List Text)

abbrev pub elements : Slice → List Text
elements none = []
elements (some vs) = vs

abbrev pub Header : Type 0
Header = Map Slice

-- The bytes of a header field name.
is_token_byte : ℕ → Bool
unfolding any
is_token_byte c =
    is_upper c || is_lower c || is_digit c || any (λ p. c == p) (bytes "!#$%&'*+-.^_`|~")

capitalise : Bool → Text → Text
capitalise first [] = []
capitalise first (c ∷ s) = (if first then upper_byte c else lower_byte c) ∷ capitalise (c == b'-') s

-- http.CanonicalHeaderKey
unfoldable pub canonical : Text → Text
unfolding is_token_byte capitalise all
canonical k = if all is_token_byte k then capitalise true k else k

abbrev pub first_or_empty : List Text → Text
first_or_empty [] = []
first_or_empty (v ∷ vs) = v

abbrev pub first_value : Option Slice → Text
first_value none = []
first_value (some vs) = first_or_empty (elements vs)

-- Header.Get, Set, Add and Del
unfoldable pub get : Header → Text → Text
unfolding canonical
get h k = first_value (lookup (canonical k) h)

unfoldable pub set_header : Header → Text → Text → Header
unfolding canonical
set_header h k v = insert (canonical k) (some (v ∷ [])) h

abbrev pub appended : Option Slice → Text → List Text
appended none v = v ∷ []
appended (some vs) v = elements vs ++ v ∷ []

unfoldable pub add_header : Header → Text → Text → Header
unfolding canonical
add_header h k v = insert (canonical k) (some (appended (lookup (canonical k) h) v)) h

unfoldable pub del_header : Header → Text → Header
unfolding canonical
del_header h k = delete (canonical k) h

pub get-set_header :
    (h : Header) (k j v : Text)
    → get (set_header h k v) j ≡ (if text_eq (canonical k) (canonical j) then v else get h j)
unfolding get set_header
get-set_header h k j v = ground (
  arith,
  text_eq_iff (canonical k) (canonical j),
  lookup-insert (canonical k) (canonical j) (some (v ∷ [])) h,
)

pub get-del_header :
    (h : Header) (k j : Text)
    → get (del_header h k) j ≡ (if text_eq (canonical k) (canonical j) then [] else get h j)
unfolding get del_header
get-del_header h k j =
    ground
      (arith, text_eq_iff (canonical k) (canonical j), lookup-delete (canonical k) (canonical j) h)
