-- ===== src/Loader/Path.antt =====
-- Lexical cleaning of slash-separated paths, as package path of Go's standard library does it for
-- pkg/loader/source.go: Clean, Join, Dir and Base.
pub mod Laws
use ecommerce_gateway.Common.{
  ℕ, Bool, true, false, not, ◌&&◌, ◌||◌, ◌==◌, List, [], ◌∷◌, ◌++◌, reverse, Text, bytes, text_eq,
  has_prefix, split, join, is_empty, if◌then◌else◌,
}

abbrev pub dot : Text
dot = bytes "."

abbrev pub dot_dot : Text
dot_dot = bytes ".."

abbrev pub is_dot_dot : Text → Bool
is_dot_dot s = text_eq s dot_dot

-- The stack behind an element "..": the element before it goes, unless that one is ".." itself; a
-- path that does not start at the root keeps the ones that lead out of it.
unfoldable pub climb : (rooted : Bool) → List Text → List Text
unfolding text_eq
climb rooted [] = if rooted then [] else dot_dot ∷ []
climb rooted (top ∷ stack) = if is_dot_dot top then dot_dot ∷ top ∷ stack else stack

-- The stack behind one more element.
unfoldable pub enter : (rooted : Bool) → List Text → Text → List Text
unfolding text_eq climb
enter rooted stack e =
    if is_empty e || text_eq e dot
    then stack
    else if is_dot_dot e
    then climb rooted stack
    else e ∷ stack

-- The elements that are left, the last one first.
unfoldable pub walk : (rooted : Bool) → List Text → List Text → List Text
unfolding enter
walk rooted stack [] = stack
walk rooted stack (e ∷ rest) = walk rooted (enter rooted stack e) rest

abbrev pub is_rooted : Text → Bool
is_rooted s = has_prefix s (b'/' ∷ [])

-- The elements of a cleaned path, the last one first.
unfoldable pub elements : Text → List Text
unfolding walk split has_prefix
elements s = walk (is_rooted s) [] (split b'/' s)

unfoldable pub render : Bool → List Text → Text
unfolding join
render true stack = b'/' ∷ join (b'/' ∷ []) (reverse stack)
render false [] = dot
render false (top ∷ stack) = join (b'/' ∷ []) (reverse (top ∷ stack))

-- path.Clean
unfoldable pub clean : Text → Text
unfolding elements render has_prefix
clean s = render (is_rooted s) (elements s)

-- path.Join of two elements.
unfoldable pub join_path : Text → Text → Text
unfolding clean
join_path [] t = if is_empty t then [] else clean t
join_path (c ∷ s) [] = clean (c ∷ s)
join_path (c ∷ s) (d ∷ t) = clean ((c ∷ s) ++ (b'/' ∷ d ∷ t))

-- The text up to the last slash, that slash included, and the text behind it.
unfoldable pub cut_last : Text → Text → Text → Text × Text
cut_last dir file [] = (reverse dir, reverse file)
cut_last dir file (c ∷ s) =
    if c == b'/' then cut_last (c ∷ (file ++ dir)) [] s else cut_last dir (c ∷ file) s

-- path.Dir
unfoldable pub dir_of : Text → Text
unfolding cut_last clean
dir_of s = clean (cut_last [] [] s).0

unfoldable pub last_or : Text → List Text → Text
last_or d [] = d
last_or d (e ∷ rest) = if is_empty e then last_or d rest else last_or e rest

-- path.Base: the last element that is not empty.
unfoldable pub base_of : Text → Text
unfolding split last_or
base_of [] = dot
base_of (c ∷ s) = last_or (b'/' ∷ []) (split b'/' (c ∷ s))
