-- ===== src/Errors/Tests.antt =====
-- The laws of errors/ at concrete inputs.
use ecommerce_gateway.Common.{
  ◌≡◌, refl, arith, none, some, [], ◌∷◌, Text, bytes, Map, Header, set_header,
}
use ecommerce_gateway.Errors.Codes.{Err, context_canceled, wrap}
use ecommerce_gateway.Errors.Mapping.{normalize_reason}
use ecommerce_gateway.Errors.Response.{Wire, Writer, grpc_percent_encode}
use ecommerce_gateway.Errors.Response.Percent.{percent_decode, percent_decode-encode}

weird_reason : normalize_reason (bytes " some.weird-reason") 500 ≡ bytes "SOME_WEIRD_REASON"
unfolding normalize_reason
weird_reason = refl

no_reason : normalize_reason [] 401 ≡ bytes "UNAUTHENTICATED"
unfolding normalize_reason
no_reason = refl

abbrev wrapped : Err
wrapped = wrap (bytes "round trip: context canceled") context_canceled

abbrev service : Map Text
service = (bytes "service", bytes "config") ∷ (bytes "path", []) ∷ []

abbrev no_wire : Wire
no_wire = record { marshal = λ reason domain metadata. some reason; grpc_code = λ s. 5 }

abbrev blank : Writer
blank = record { headers = []; status = none; body = none }

abbrev browser : Header
browser = set_header [] (bytes "origin") (bytes "http://localhost:3005")

percent_decode-encode_example :
    percent_decode (grpc_percent_encode (bytes "100% 错")) ≡ bytes "100% 错"
percent_decode-encode_example = percent_decode-encode (bytes "100% 错") (omega arith)
