-- ===== src/Middleware/RouterFilter.antt =====
-- middleware/routerfilter/routerfilter.go: rules of paths and methods, and the middleware that lets
-- the requests through that one of them matches. Package regexp is a parameter.
pub mod Laws
mod Tests
use ecommerce_gateway.Common.{
  ℕ, zero, suc, Bool, true, false, not, ◌&&◌, ◌==◌, Option, none, some, ◌⊎◌, inl, inr, List, [],
  ◌∷◌, ◌++◌, Text, bytes, text_eq, has_prefix, has_suffix, trim_prefix, trim_suffix, any, is_empty,
  to_upper, trim_space, if◌then◌else◌, Header, map,
}
use ecommerce_gateway.Config.Types.{FilterRule}
use ecommerce_gateway.Http.{Request, Response}
use ecommerce_gateway.Proxy.Loop.{Outcome, answered}

-- What stands for the beginning of a text, and how many bytes behind the first one it covers: the
-- strings.Replacer of NewPathMatcher, which tries its pairs in their order.
unfoldable pub replacement : Text → Text × ℕ
unfolding has_prefix
replacement [] = ([], 0)
replacement (c ∷ s) =
    if has_prefix (c ∷ s) (bytes "/**")
    then (bytes "(?:/.*)?$", 2)
    else if has_prefix (c ∷ s) (bytes "/*")
    then (bytes "(?:/[^/]+)?", 1)
    else if c == b'{'
    then (bytes "(?P<", 0)
    else if c == b'}'
    then (bytes ">[^/]+)", 0)
    else (c ∷ [], 0)

-- Replacer.Replace, with the bytes that an earlier pair has covered.
unfoldable pub replace_from : ℕ → Text → Text
unfolding replacement
replace_from skip [] = []
replace_from (suc skip) (c ∷ s) = replace_from skip s
replace_from zero (c ∷ s) = let (out, skip) = replacement (c ∷ s) in out ++ replace_from skip s

abbrev pub is_meta : ℕ → Bool
is_meta c = any (λ m. c == m) (bytes "\\.+*?()|[]{}^$")

-- regexp.QuoteMeta
unfoldable pub quote_meta : Text → Text
unfolding any
quote_meta [] = []
quote_meta (c ∷ s) = let rest = quote_meta s in if is_meta c then b'\\' ∷ c ∷ rest else c ∷ rest

-- The pattern without a slash at its end and with one before it.
unfoldable pub rooted : Text → Text
unfolding has_prefix trim_suffix
rooted pattern =
    let trimmed = trim_suffix pattern (bytes "/") in
    if has_prefix trimmed (bytes "/") then trimmed else b'/' ∷ trimmed

unfoldable pub is_wildcard : Text → Bool
unfolding has_suffix
is_wildcard pattern =
    has_suffix pattern (bytes "*")
    && not (has_suffix pattern (bytes "/*"))
    && not (has_suffix pattern (bytes "/**"))

-- The regular expression of a rooted pattern.
unfoldable pub regex_of : Text → Text
unfolding is_wildcard quote_meta trim_suffix replace_from has_suffix
regex_of pattern =
    if is_wildcard pattern
    then b'^' ∷ (quote_meta (trim_suffix pattern (bytes "*")) ++ bytes ".*$")
    else b'^'
      ∷ (replace_from 0 pattern ++ (if has_suffix pattern (bytes "/**") then [] else bytes "$"))

-- regexp.Compile: an error, or the test of FindStringSubmatch for a match.
abbrev pub Compile : Type 0
Compile = Text → Option (Text → Bool)

-- PathMatcher. The names of parameters and the level of the wildcard are read by no code.
pub record PathMatcher : Type 0 where
  pub raw_pattern : Text
  pub regex : Text → Bool
  pub methods : List Text

pub data PatternError : Type 0 where
  empty_pattern : PatternError
  invalid_pattern : Text → PatternError

-- NewPathMatcher
unfoldable pub new_path_matcher : Compile → Text → List Text → PatternError ⊎ PathMatcher
unfolding rooted regex_of trim_space to_upper
new_path_matcher compile pattern methods =
    let trimmed = trim_space pattern in
    if is_empty trimmed
    then inl PatternError.empty_pattern
    else elim (compile (regex_of (rooted trimmed))) [
      | none ↦ inl (PatternError.invalid_pattern (rooted trimmed))
      | some regex ↦
          inr
            (record { raw_pattern = rooted trimmed; regex = regex; methods = map to_upper methods })
    ]

abbrev pub is_method : List Text → Text → Bool
is_method methods m = any (λ n. text_eq n m) methods

-- The path as Match reads it.
unfoldable pub match_path : Text → Text
unfolding has_prefix
match_path path =
    if is_empty path then bytes "/" else if has_prefix path (bytes "/") then path else b'/' ∷ path

-- PathMatcher.Match, without the parameters that it finds, which no code reads.
unfoldable pub matches : PathMatcher → Request → Bool
unfolding any text_eq match_path
matches m r =
    if not (is_empty m.methods) && not (is_method m.methods r.method)
    then false
    else m.regex (match_path r.path)

-- The matchers of a list of rules: the first error of NewPathMatcher ends the loop.
unfoldable pub compile_rules : Compile → List FilterRule → PatternError ⊎ List PathMatcher
unfolding new_path_matcher
compile_rules compile [] = inr []
compile_rules compile (rule ∷ rules) =
    let rest = compile_rules compile rules in
    elim (new_path_matcher compile rule.path rule.methods) [
      | inl e ↦ inl e
      | inr m ↦ elim rest [ inl e ↦ inl e | inr ms ↦ inr (m ∷ ms) ]
    ]

abbrev pub any_match : List PathMatcher → Request → Bool
any_match matchers r = any (λ m. matches m r) matchers

unfoldable pub preflight_response : Response
preflight_response = record {
  status_code = 204;
  header =
      (bytes "Access-Control-Allow-Origin", some (bytes "*" ∷ []))
      ∷ (bytes "Access-Control-Allow-Methods", some (bytes "GET, POST, PUT, DELETE, OPTIONS" ∷ []))
      ∷ (bytes "Access-Control-Allow-Headers", some (bytes "*" ∷ []))
      ∷ (bytes "Access-Control-Max-Age", some (bytes "600" ∷ []))
      ∷ [];
  trailer = [];
  body = [];
}

-- newResponse
unfoldable pub new_response : (status_code : ℕ) → Header → Response
new_response status_code header = record {
  status_code = status_code;
  header = header;
  trailer = [];
  body = bytes "{\"code\":403,\"message\":\"access denied\"}";
}

-- The tripper that Middleware wraps around `next`.
unfoldable pub filter_trip : List PathMatcher → (Request → Outcome) → Request → Outcome
unfolding any matches text_eq new_response preflight_response
filter_trip matchers next r =
    if text_eq r.method (bytes "OPTIONS")
    then answered preflight_response
    else if any_match matchers r
    then next r
    else answered
        (new_response 403 ((bytes "Content-Type", some (bytes "application/json" ∷ [])) ∷ []))
