-- ===== src/Proxy/Condition/Laws.antt =====
-- Conditions written as a status code or a range of them, in proxy/condition/condition.go.
use ecommerce_gateway.Common.{
  is_empty, Bool-cases, inl, inr, ℕ, zero, suc, ◌+◌, ◌-◌, ◌*◌, ◌/◌, ◌%◌, ◌≤◌, ◌<◌, ◌≡◌, refl, sym,
  ap, ◌∙◌, ◌↔◌, arith, ℤ, pos, true, false, some, List, [], ◌∷◌, ◌++◌, Text, is_digit, all, itoa,
  digits_onto, split, split_at, reverse, ltb,
}
use mathlib.Core.List.{append-nil, append_assoc, reverse-cons}
use ecommerce_gateway.Http.{Response}
use ecommerce_gateway.Proxy.Condition.{
  by_status_code, digits_value, parse_int_16, parse_codes, limited, prepare_codes, judge,
}

digits_value-digit :
    (v n : ℕ) (acc : Text)
    → digits_value v ((b'0' + n % 10) ∷ acc) ≡ digits_value (v * 10 + n % 10) acc
unfolding digits_value
digits_value-digit v n acc =
    let e : b'0' + n % 10 - b'0' ≡ n % 10 = omega arith in ground (arith, e)

digits_value-onto :
    (f n : ℕ) (acc : Text) → n < f → digits_value 0 (digits_onto f n acc) ≡ digits_value n acc
unfolding digits_onto
digits_value-onto zero n acc h = elim h [ ]
digits_value-onto (suc f) n acc h = elim (Bool-cases (ltb n 10)) [
  | inl small ↦
      let e : 0 * 10 + n % 10 ≡ n = ground arith in
      rw small (digits_value-digit 0 n acc ∙ ap (λ v. digits_value v acc) e)
  | inr large ↦
      let e : n / 10 * 10 + n % 10 ≡ n = omega arith in
      rw large (
        digits_value-onto f (n / 10) ((b'0' + n % 10) ∷ acc) (ground arith)
        ∙ digits_value-digit (n / 10) n acc
        ∙ ap (λ v. digits_value v acc) e)
]

digits_onto-digits :
    (f n : ℕ) (acc : Text) → all is_digit acc ≡ true → all is_digit (digits_onto f n acc) ≡ true
unfolding digits_onto all
digits_onto-digits zero n acc h = h
digits_onto-digits (suc f) n acc h =
    ground (arith, digits_onto-digits f (n / 10) ((b'0' + n % 10) ∷ acc))

digits_onto-filled :
    (f n : ℕ) (acc : Text) → is_empty acc ≡ false → is_empty (digits_onto f n acc) ≡ false
unfolding digits_onto
digits_onto-filled zero n acc h = h
digits_onto-filled (suc f) n acc h =
    ground (arith, digits_onto-filled f (n / 10) ((b'0' + n % 10) ∷ acc))

itoa-digits : (n : ℕ) → all is_digit (itoa n) ≡ true
unfolding itoa all
itoa-digits n = digits_onto-digits (suc n) n [] refl

itoa-filled : (n : ℕ) → is_empty (itoa n) ≡ false
unfolding itoa digits_onto
itoa-filled n = ground (arith, digits_onto-filled n (n / 10) ((b'0' + n % 10) ∷ []))

parse_int_16-digits :
    (s : Text) (n : ℕ)
    → is_empty s ≡ false
    → all is_digit s ≡ true
    → digits_value 0 s ≡ some n
    → n ≤ 32767
    → parse_int_16 s ≡ some (pos n)
unfolding parse_int_16 all
parse_int_16-digits [] n filled digits value small = cc
parse_int_16-digits (c ∷ s) n filled digits value small = ground arith

itoa-value : (n : ℕ) → digits_value 0 (itoa n) ≡ some n
unfolding itoa digits_value
itoa-value n = digits_value-onto (suc n) n [] (omega arith)

-- strconv.ParseInt reads back what strconv.Itoa writes, up to the largest 16-bit integer.
pub parse_int_16-itoa : (n : ℕ) → n ≤ 32767 → parse_int_16 (itoa n) ≡ some (pos n)
parse_int_16-itoa n h =
    parse_int_16-digits (itoa n) n (itoa-filled n) (itoa-digits n) (itoa-value n) h

shift : (c : ℕ) (cur s : Text) → reverse (c ∷ cur) ++ s ≡ reverse cur ++ c ∷ s
shift c cur s = simp (reverse-cons, append_assoc)

split_at-cut :
    (s cur t : Text)
    → all is_digit s ≡ true
    → split_at b'-' cur (s ++ b'-' ∷ t) ≡ (reverse cur ++ s) ∷ split_at b'-' [] t
unfolding split_at all
split_at-cut [] cur t h = ap (λ x. x ∷ split_at b'-' [] t) (sym (append-nil (reverse cur)))
split_at-cut (c ∷ s) cur t h = ground (arith, shift c cur s, split_at-cut s (c ∷ cur) t)

split_at-last :
    (s cur : Text) → all is_digit s ≡ true → split_at b'-' cur s ≡ (reverse cur ++ s) ∷ []
unfolding split_at all
split_at-last [] cur h = ap (λ x. x ∷ []) (sym (append-nil (reverse cur)))
split_at-last (c ∷ s) cur h = ground (arith, shift c cur s, split_at-last s (c ∷ cur))

split-range : (n m : ℕ) → split b'-' (itoa n ++ b'-' ∷ itoa m) ≡ itoa n ∷ itoa m ∷ []
unfolding split
split-range n m =
    split_at-cut (itoa n) [] (itoa m) (itoa-digits n)
    ∙ ap (λ rest. itoa n ∷ rest) (split_at-last (itoa m) [] (itoa-digits m))

split-code : (n : ℕ) → split b'-' (itoa n) ≡ itoa n ∷ []
unfolding split
split-code n = split_at-last (itoa n) [] (itoa-digits n)

-- A condition "n-m" holds of exactly the responses with a status from n to m, up to the largest
-- 16-bit integer.
pub range_condition :
    (n m : ℕ)
    → n ≤ 32767
    → m ≤ 32767
    → (codes : List ℤ) × (prepare_codes (itoa n ++ b'-' ∷ itoa m) ≡ some codes)
      × ((resp : Response)
          → (judge (by_status_code codes) resp ≡ true)
            ↔ ((n ≤ resp.status_code) × (resp.status_code ≤ m)))
unfolding prepare_codes limited parse_codes judge
range_condition n m hn hm = (
  pos n ∷ pos m ∷ [],
  rw (split-range n m, parse_int_16-itoa n hn, parse_int_16-itoa m hm) refl,
  λ resp. ground arith,
)

-- A condition "n" holds of exactly the responses with the status n.
pub code_condition :
    (n : ℕ)
    → n ≤ 32767
    → (codes : List ℤ) × (prepare_codes (itoa n) ≡ some codes)
      × ((resp : Response) → (judge (by_status_code codes) resp ≡ true) ↔ (resp.status_code ≡ n))
unfolding prepare_codes limited parse_codes judge
code_condition n hn =
    (pos n ∷ [], rw (split-code n, parse_int_16-itoa n hn) refl, λ resp. ground arith)
