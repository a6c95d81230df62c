-- ===== src/Errors/Response/Percent.antt =====
-- grpcPercentEncode of errors/response.go against the decoding that the gRPC protocol asks for.
use ecommerce_gateway.Common.{
  ℕ, ◌+◌, ◌-◌, ◌*◌, ◌/◌, ◌%◌, ◌≤◌, ◌<◌, ◌≡◌, refl, arith, true, false, [], ◌∷◌, Text, All, ltb,
  ◌==◌, if◌then◌else◌, Bool-cases, inl, inr,
}
use ecommerce_gateway.Errors.Response.{hex_digit, is_plain, grpc_percent_encode}

pub hex_value : ℕ → ℕ
hex_value c = if ltb c b'A' then c - b'0' else c - b'A' + 10

-- What a client does with the header: a percent sign and two hexadecimal digits are one byte.
mutual
  pub percent_decode : Text → Text
  percent_decode [] = []
  percent_decode (c ∷ s) =
      let escape = first_digit s in
      let rest = percent_decode s in if c == b'%' then escape else c ∷ rest

  first_digit : Text → Text
  first_digit [] = []
  first_digit (h ∷ s) = second_digit h s

  second_digit : ℕ → Text → Text
  second_digit h [] = []
  second_digit h (l ∷ s) = (hex_value h * 16 + hex_value l) ∷ percent_decode s

hex_value-hex_digit : (n : ℕ) → n < 16 → hex_value (hex_digit n) ≡ n
unfolding hex_value hex_digit
hex_value-hex_digit n h = ground arith

is_plain-ne-percent : (c : ℕ) → is_plain c ≡ true → (c == b'%') ≡ false
unfolding is_plain
is_plain-ne-percent c h = ground arith

-- A message of bytes survives the encoding.
pub percent_decode-encode :
    (msg : Text) → All (λ c. c < 256) msg → percent_decode (grpc_percent_encode msg) ≡ msg
unfolding percent_decode grpc_percent_encode
percent_decode-encode [] h = refl
percent_decode-encode (c ∷ msg) (small, rest) = elim (Bool-cases (is_plain c)) [
  | inl plain ↦
      rw plain (ground (arith, is_plain-ne-percent c plain, percent_decode-encode msg rest))
  | inr escaped ↦ rw escaped (
      ground (
        arith,
        hex_value-hex_digit (c / 16),
        hex_value-hex_digit (c % 16),
        percent_decode-encode msg rest,
      ))
]

-- The encoded message holds printable ASCII only.
pub grpc_percent_encode-printable :
    (msg : Text)
    → All (λ c. c < 256) msg
    → All (λ c. (0x20 ≤ c) × (c ≤ 0x7E)) (grpc_percent_encode msg)
unfolding grpc_percent_encode is_plain hex_digit
grpc_percent_encode-printable [] h = tt
grpc_percent_encode-printable (c ∷ msg) (small, rest) =
    ground (arith, grpc_percent_encode-printable msg rest)
