-- ===== src/Proxy/Condition.antt =====
-- proxy/condition/condition.go: conditions on a response, parsed from the configuration.
pub mod Laws
mod Tests
use ecommerce_gateway.Common.{
  ℕ, suc, ◌+◌, ◌-◌, ◌*◌, ℤ, pos, negsuc, leb_ℤ, Bool, true, false, ◌&&◌, ◌||◌, Option, none, some,
  List, [], ◌∷◌, ◌++◌, Text, bytes, text_eq, is_digit, is_empty, has_prefix, split, any, leb, ◌==◌,
  if◌then◌else◌, get,
}
use ecommerce_gateway.Http.{Response}
use ecommerce_gateway.Config.Types.{RawCondition, unknown_condition}
use ecommerce_gateway.Config.Types

pub data Condition : Type 0 where
  by_status_code : List ℤ → Condition
  by_header : Text → List Text → Condition

digits_value : ℕ → Text → Option ℕ
digits_value v [] = some v
digits_value v (c ∷ s) =
    let more = digits_value (v * 10 + (c - b'0')) s in if is_digit c then more else none

unsigned : Text → Option ℕ
unfolding digits_value
unsigned [] = none
unsigned (c ∷ s) = digits_value 0 (c ∷ s)

within_16 : Option ℕ → Option ℤ
within_16 none = none
within_16 (some n) = if leb n 32767 then some (pos n) else none

negated_16 : Option ℕ → Option ℤ
negated_16 none = none
negated_16 (some n) =
    if n == 0 then some (pos 0) else if leb n 32768 then some (negsuc (n - 1)) else none

-- strconv.ParseInt(p, 10, 16); `none` is its error.
pub parse_int_16 : Text → Option ℤ
unfolding unsigned within_16 negated_16
parse_int_16 [] = none
parse_int_16 (c ∷ s) =
    if c == b'-'
    then negated_16 (unsigned s)
    else if c == b'+'
    then within_16 (unsigned s)
    else within_16 (unsigned (c ∷ s))

-- Chains of results that may be an error.
infixl 5 ◌>>=◌
abbrev pub ◌>>=◌ {ℓ κ} : {A : Type ℓ} {B : Type κ} → Option A → (A → Option B) → Option B
none >>= f = none
some a >>= f = f a

parse_codes : List Text → Option (List ℤ)
parse_codes [] = some []
parse_codes (p ∷ parts) = do code ← parse_int_16 p; codes ← parse_codes parts; some (code ∷ codes)

limited : List Text → Option (List ℤ)
unfolding parse_codes
limited [] = none
limited (p ∷ []) = parse_codes (p ∷ [])
limited (p ∷ q ∷ []) = parse_codes (p ∷ q ∷ [])
limited (p ∷ q ∷ r ∷ parts) = none

-- byStatusCode.Prepare
pub prepare_codes : Text → Option (List ℤ)
unfolding split limited
prepare_codes s = limited (split b'-' s)

-- byStatusCode.Judge
pub judge_codes : List ℤ → ℕ → Bool
judge_codes [] s = false
judge_codes (c ∷ []) s = leb_ℤ (pos s) c && leb_ℤ c (pos s)
judge_codes (lo ∷ hi ∷ rest) s = leb_ℤ lo (pos s) && leb_ℤ (pos s) hi

-- byHeader.Judge
judge_header : Text → List Text → Response → Bool
judge_header name values resp =
    let v = get resp.header name in
    if is_empty v then false else any (λ allowed. text_eq allowed v) values

unfoldable pub judge : Condition → Response → Bool
unfolding judge_codes judge_header any
judge (by_status_code codes) resp = judge_codes codes resp.status_code
judge (by_header name values) resp = judge_header name values resp

-- JudgeConditons
unfoldable pub judge_conditions : List Condition → Response → Bool → Bool
unfolding any
judge_conditions [] resp on_empty = on_empty
judge_conditions (c ∷ cs) resp on_empty = any (λ cond. judge cond resp) (c ∷ cs)

-- json.Unmarshal into a list of strings is taken as a parameter.
module _ (parse_string_list : Text → Option (List Text)) where
  -- byHeader.Prepare
  prepare_values : Text → Option (List Text)
  unfolding has_prefix
  prepare_values value =
      if has_prefix value (bytes "[") then parse_string_list value else some (value ∷ [])

  prepare : RawCondition → Option Condition
  unfolding prepare_values prepare_codes
  prepare (Types.RawCondition.by_header name value) = do
    values ← prepare_values value
    some (by_header name values)
  prepare (Types.RawCondition.by_status_code s) = do
    codes ← prepare_codes s
    some (by_status_code codes)
  prepare unknown_condition = none

  -- ParseConditon; `none` is the first error.
  unfoldable pub parse_condition : List RawCondition → Option (List Condition)
  unfolding prepare
  parse_condition [] = some []
  parse_condition (raw ∷ rest) = do
    cond ← prepare raw
    conds ← parse_condition rest
    some (cond ∷ conds)
