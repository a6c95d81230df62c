-- ===== src/Common/Runes.antt =====
-- The UTF-8 sequences of a Go string, and what package strings does rune by rune.
use Prim.Native.Nat.{ℕ, zero, suc, ◌+◌, ◌-◌, ◌*◌}
use mathlib.Core.Bool.{Bool, true, false, ◌&&◌, ◌||◌}
use mathlib.Core.Path.{◌≡◌, refl, sym}
use native.Mathlib.Omega.{arith}
use mathlib.Core.List.{List, [], ◌∷◌, ◌++◌, map, reverse, reverse_aux, reverse-reverse}
use ecommerce_gateway.Common.Lists.{all, all-reverse}
use ecommerce_gateway.Common.Bools.{ltb, leb, ◌==◌, if◌then◌else◌}
use ecommerce_gateway.Common.Strings.{Text}

abbrev within : ℕ → ℕ → ℕ → Bool
within lo hi c = leb lo c && leb c hi

-- Whether the first bytes of `s` are `n` continuation bytes, the first of them from `lo` to `hi`.
continues : ℕ → ℕ → ℕ → Text → Bool
continues zero lo hi s = true
continues (suc n) lo hi [] = false
continues (suc n) lo hi (c ∷ s) = within lo hi c && continues n 0x80 0xBF s

-- How many bytes follow the lead byte `b` in its rune; an invalid sequence is one byte long.
width : ℕ → Text → ℕ
width b s =
    if within 0xC2 0xDF b
    then if continues 1 0x80 0xBF s then 1 else 0
    else if within 0xE0 0xEF b
    then if continues 2 (if b == 0xE0 then 0xA0 else 0x80) (if b == 0xED then 0x9F else 0xBF) s
      then 2
      else 0
    else if within 0xF0 0xF4 b
    then if continues 3 (if b == 0xF0 then 0x90 else 0x80) (if b == 0xF4 then 0x8F else 0xBF) s
      then 3
      else 0
    else 0

-- The byte `c` goes to the rune before it, or starts one of its own.
attach : ℕ → List Text → List Text
attach c [] = (c ∷ []) ∷ []
attach c (r ∷ rs) = (c ∷ r) ∷ rs

chars_from : ℕ → Text → List Text
unfolding attach
chars_from k [] = []
chars_from zero (b ∷ s) =
    let n = width b s in
    let rest = chars_from n s in if n == 0 then (b ∷ []) ∷ rest else attach b rest
chars_from (suc zero) (c ∷ s) = (c ∷ []) ∷ chars_from zero s
chars_from (suc (suc k)) (c ∷ s) = attach c (chars_from (suc k) s)

-- The string cut into its runes, as `range` walks it.
unfoldable pub chars : Text → List Text
unfolding chars_from width continues
chars s = chars_from 0 s

unfoldable pub concat : List Text → Text
concat [] = []
concat (r ∷ rs) = r ++ concat rs

-- The code point of a rune; utf8.RuneError for a lone byte that is not ASCII.
unfoldable pub rune_of : Text → ℕ
rune_of (a ∷ []) = if ltb a 0x80 then a else 0xFFFD
rune_of (a ∷ b ∷ []) = (a - 0xC0) * 64 + (b - 0x80)
rune_of (a ∷ b ∷ c ∷ []) = (a - 0xE0) * 4096 + (b - 0x80) * 64 + (c - 0x80)
rune_of (a ∷ b ∷ c ∷ d ∷ []) =
    (a - 0xF0) * 262144 + (b - 0x80) * 4096 + (c - 0x80) * 64 + (d - 0x80)
rune_of _ = 0xFFFD

-- unicode.IsSpace
is_space : ℕ → Bool
is_space c =
    within 9 13 c
    || (c == 32)
    || (c == 0x85)
    || (c == 0xA0)
    || (c == 0x1680)
    || within 0x2000 0x200A c
    || within 0x2028 0x2029 c
    || (c == 0x202F)
    || (c == 0x205F)
    || (c == 0x3000)

trim_left : List Text → List Text
unfolding is_space rune_of
trim_left [] = []
trim_left (r ∷ rs) = let rest = trim_left rs in if is_space (rune_of r) then rest else r ∷ rs

-- strings.TrimSpace
unfoldable pub trim_space : Text → Text
unfolding chars concat trim_left
trim_space s = concat (reverse (trim_left (reverse (trim_left (chars s)))))

-- A printable ASCII byte that is not a space.
abbrev pub is_visible : ℕ → Bool
is_visible c = leb 0x21 c && leb c 0x7E

abbrev single : ℕ → Text
single c = c ∷ []

width-visible : (c : ℕ) (s : Text) → is_visible c ≡ true → width c s ≡ 0
unfolding width
width-visible c s h = ground arith

chars_from-visible : (t : Text) → all is_visible t ≡ true → chars_from 0 t ≡ map single t
unfolding chars_from all
chars_from-visible [] h = refl
chars_from-visible (c ∷ t) h = ground (arith, width-visible c t, chars_from-visible t)

pub chars-visible : (t : Text) → all is_visible t ≡ true → chars t ≡ map single t
unfolding chars
chars-visible t h = chars_from-visible t h

concat-single : (t : Text) → concat (map single t) ≡ t
unfolding concat
concat-single [] = refl
concat-single (c ∷ t) = ground (arith, concat-single t)

trim_left-visible : (t : Text) → all is_visible t ≡ true → trim_left (map single t) ≡ map single t
unfolding trim_left all
trim_left-visible [] h = refl
trim_left-visible (c ∷ t) h = ground arith

map-reverse_aux :
    (t acc : Text) → map single (reverse_aux t acc) ≡ reverse_aux (map single t) (map single acc)
map-reverse_aux [] acc = refl
map-reverse_aux (c ∷ t) acc = map-reverse_aux t (c ∷ acc)

map-reverse : (t : Text) → reverse (map single t) ≡ map single (reverse t)
map-reverse t = sym (map-reverse_aux t [])

-- Trimming leaves a text without spaces as it is.
pub trim_space-visible : (t : Text) → all is_visible t ≡ true → trim_space t ≡ t
unfolding trim_space
trim_space-visible t h =
    rw
      (
        chars_from-visible t h,
        trim_left-visible t h,
        map-reverse t,
        trim_left-visible (reverse t) (all-reverse is_visible t h),
        map-reverse (reverse t),
        reverse-reverse t,
      )
      (concat-single t)
