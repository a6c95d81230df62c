-- ===== src/Common/Decimal.antt =====
-- Decimal numerals (package strconv) and base64.RawStdEncoding.
use Prim.Native.Nat.{ℕ, zero, suc, ◌+◌, ◌-◌, ◌*◌, ◌/◌, ◌%◌}
use mathlib.Core.List.{[], ◌∷◌}
use ecommerce_gateway.Common.Bools.{ltb, if◌then◌else◌}
use ecommerce_gateway.Common.Strings.{Text}

unfoldable pub digits_onto : ℕ → ℕ → Text → Text
digits_onto zero n acc = acc
digits_onto (suc f) n acc =
    let next : Text = (b'0' + n % 10) ∷ acc in
    let more = digits_onto f (n / 10) next in if ltb n 10 then next else more

-- strconv.Itoa on what is not negative; a number has at most `n + 1` digits.
unfoldable pub itoa : ℕ → Text
unfolding digits_onto
itoa n = digits_onto (suc n) n []

base64_digit : ℕ → ℕ
base64_digit n =
    if ltb n 26
    then b'A' + n
    else if ltb n 52
    then b'a' + (n - 26)
    else if ltb n 62
    then b'0' + (n - 52)
    else if ltb n 63
    then b'+'
    else b'/'

unfoldable pub base64 : Text → Text
unfolding base64_digit
base64 [] = []
base64 (a ∷ []) = base64_digit (a / 4) ∷ base64_digit ((a % 4) * 16) ∷ []
base64 (a ∷ b ∷ []) =
    base64_digit (a / 4) ∷ base64_digit ((a % 4) * 16 + b / 16) ∷ base64_digit ((b % 16) * 4) ∷ []
base64 (a ∷ b ∷ c ∷ s) =
    base64_digit (a / 4)
    ∷ base64_digit ((a % 4) * 16 + b / 16)
    ∷ base64_digit ((b % 16) * 4 + c / 64)
    ∷ base64_digit (c % 64)
    ∷ base64 s
