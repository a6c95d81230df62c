-- ===== src/Middleware/RouterFilter/Laws.antt =====
-- What patterns of middleware/routerfilter/routerfilter.go stand for.
use ecommerce_gateway.Common.{
  ℕ, ◌≡◌, ap, refl, arith, Bool, true, false, not, ◌||◌, ◌==◌, [], ◌∷◌, ◌++◌, Text, bytes,
  has_prefix, has_suffix, reverse, all, all-reverse,
}
use ecommerce_gateway.Middleware.RouterFilter.{replacement, replace_from, is_wildcard, regex_of}

-- A byte that no wildcard and no parameter of a pattern is made of.
abbrev pub is_plain : ℕ → Bool
is_plain c = not (c == b'*' || c == b'{' || c == b'}')

replacement-plain :
    (c : ℕ) (s : Text) → all is_plain (c ∷ s) ≡ true → replacement (c ∷ s) ≡ (c ∷ [], 0)
unfolding replacement has_prefix all
replacement-plain c [] h = ground arith
replacement-plain c (d ∷ s) h = ground arith

replace_from-plain : (s : Text) → all is_plain s ≡ true → replace_from 0 s ≡ s
unfolding replace_from all
replace_from-plain [] h = refl
replace_from-plain (c ∷ s) h =
    rw (replacement-plain c s h) (ap (λ rest. c ∷ rest) (replace_from-plain s (ground arith)))

starts_plain : (s : Text) (p : Text) → all is_plain s ≡ true → has_prefix s (b'*' ∷ p) ≡ false
unfolding has_prefix all
starts_plain [] p h = refl
starts_plain (c ∷ s) p h = ground arith

-- A pattern with no wildcard and no parameter becomes the expression of its own text between the
-- two anchors: none of its bytes is quoted, so a dot of the pattern stands for any byte.
pub regex_of-plain : (s : Text) → all is_plain s ≡ true → regex_of s ≡ (b'^' ∷ (s ++ bytes "$"))
unfolding regex_of is_wildcard has_suffix
regex_of-plain s h =
    let back = all-reverse is_plain s h in
    rw (starts_plain (reverse s) [] back, starts_plain (reverse s) (bytes "*/") back)
      (ap (λ t. b'^' ∷ (t ++ bytes "$")) (replace_from-plain s h))
