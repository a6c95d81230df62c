-- ===== src/Errors/Response.antt =====
-- errors/response.go and errors/cors.go: one envelope for all errors of the gateway.
pub mod Laws
pub mod Percent
use ecommerce_gateway.Common.{
  ℕ, ◌/◌, ◌%◌, ◌+◌, ◌-◌, ℤ, pos, negsuc, Bool, true, false, ◌&&◌, ◌||◌, not, Option, none, some,
  List, [], ◌∷◌, Text, bytes, text_eq, has_prefix, is_empty, Map, lookup, insert, if◌then◌else◌,
  leb, ltb, ◌==◌, trim_space, Header, get, set_header, itoa, base64, is_positive,
}
use ecommerce_gateway.Errors.Codes.{
  Code, code_text, KratosError, Err, kratos, context_canceled, context_deadline_exceeded, plain,
  wrap,
}
use ecommerce_gateway.Errors.Mapping.{connect_code_from_http, normalize_reason, default_message}

-- An error that has been classified.
pub record Info : Type 0 where
  pub status : ℕ
  pub reason : Text
  pub message : Text
  pub metadata : Map Text

pub record ErrorDebug : Type 0 where
  pub reason : Text
  pub domain : Text
  pub metadata : Map Text

pub record ErrorDetail : Type 0 where
  pub detail_type : Text
  pub value : Text
  pub debug : Option ErrorDebug

pub record ErrorBody : Type 0 where
  pub code : Text
  pub message : Text
  pub details : List ErrorDetail

-- errors.As with a kratos error.
unfoldable pub as_kratos : Err → Option KratosError
as_kratos (kratos e) = some e
as_kratos (wrap text e) = as_kratos e
as_kratos other = none

-- errors.Is with context.Canceled, and with context.DeadlineExceeded.
unfoldable pub is_canceled : Err → Bool
is_canceled context_canceled = true
is_canceled (wrap text e) = is_canceled e
is_canceled other = false

unfoldable pub is_deadline : Err → Bool
is_deadline context_deadline_exceeded = true
is_deadline (wrap text e) = is_deadline e
is_deadline other = false

-- Error(). The text of a kratos error is never asked for here.
unfoldable pub error_text : Err → Text
error_text (kratos e) = e.message
error_text context_canceled = bytes "context canceled"
error_text context_deadline_exceeded = bytes "context deadline exceeded"
error_text (plain text) = text
error_text (wrap text e) = text

pub normalize : Info → Info
normalize info =
    let reason = normalize_reason info.reason info.status in
    record info {
      reason = reason;
      message =
          if is_empty (trim_space info.message)
          then default_message reason info.status
          else info.message;
    }

-- A status that is not positive becomes 500.
status_of : ℤ → ℕ
status_of (pos n) = if n == 0 then 500 else n
status_of (negsuc n) = 500

classify_kratos : KratosError → Info
unfolding status_of
classify_kratos e = normalize (record {
  status = status_of e.code;
  reason = e.reason;
  message = e.message;
  metadata = e.metadata;
})

unclassified : ℕ → Text → Err → Info
unclassified status reason e = record {
  status = status;
  reason = reason;
  message = error_text e;
  metadata = [];
}

-- Classify; `none` is the nil error.
pub classify : Option Err → Info
unfolding classify_kratos unclassified
classify none = record { status = 200; reason = []; message = []; metadata = [] }
classify (some e) = elim (as_kratos e) [
  | some k ↦ classify_kratos k
  | none ↦ normalize (
      if is_canceled e || text_eq (error_text e) (bytes "client disconnected")
      then unclassified 499 (bytes "CANCELED") e
      else if is_deadline e
      then unclassified 504 (bytes "DEADLINE_EXCEEDED") e
      else unclassified 500 (bytes "UNKNOWN_ERROR") e)
]

-- The two loops that fill the metadata; the second leaves out empty values.
merge_all : Map Text → Map Text → Map Text
merge_all [] into = into
merge_all ((k, v) ∷ m) into = merge_all m (insert k v into)

pub merge_extra : Map Text → Map Text → Map Text
merge_extra [] into = into
merge_extra ((k, v) ∷ m) into = merge_extra m (if is_empty v then into else insert k v into)

-- What the gateway calls and does not implement: proto.Marshal of the ErrorInfo message, and the
-- gRPC code of a status (status.ToGRPCCode of kratos).
pub record Wire : Type 0 where
  pub marshal : Text → Text → Map Text → Option Text
  pub grpc_code : ℕ → ℕ

encode_error_info : Wire → Text → Map Text → Text
encode_error_info wire reason metadata = elim (wire.marshal reason (bytes "gateway") metadata) [
  | none ↦ []
  | some raw ↦ base64 raw
]

pub build : Wire → Option Err → Map Text → ℕ × ErrorBody
unfolding merge_all merge_extra encode_error_info
build wire err extra =
    let info = classify err in
    let metadata = merge_extra extra (merge_all info.metadata []) in
    let debug : ErrorDebug = record {
      reason = info.reason;
      domain = bytes "gateway";
      metadata = metadata;
    } in
    (
      info.status,
      record {
        code = code_text (connect_code_from_http info.status);
        message = info.message;
        details =
            record {
              detail_type = bytes "google.rpc.ErrorInfo";
              value = encode_error_info wire info.reason metadata;
              debug = some debug;
            }
            ∷ [];
      },
    )

-- An http.ResponseWriter: its headers, and the status and the body once they are written.
pub record Writer : Type 0 where
  pub headers : Header
  pub status : Option ℕ
  pub body : Option ErrorBody

pub write_cors_headers : Header → Header → Header
write_cors_headers request h =
    let origin = get request (bytes "Origin") in
    if is_empty origin
    then h
    else set_header
        (set_header
          (set_header
            (set_header
              (set_header (set_header h (bytes "Access-Control-Allow-Origin") origin)
                (bytes "Access-Control-Allow-Methods") (bytes "GET, POST, PUT, DELETE, OPTIONS"))
              (bytes "Access-Control-Allow-Headers")
              (bytes
                "Origin, Content-Length, Content-Type, Authorization, Connect-Protocol-Version, Connect-Accept-Encoding, Connect-Timeout-Ms, Connect-Codec-Compress-Bin"))
            (bytes "Access-Control-Allow-Credentials") (bytes "true"))
          (bytes "Access-Control-Expose-Headers") (bytes "X-Error-Reason"))
        (bytes "Access-Control-Max-Age") (bytes "600")

reason_of_details : List ErrorDetail → Text
reason_of_details [] = bytes "UNKNOWN_ERROR"
reason_of_details (d ∷ ds) = elim d.debug [
  | none ↦ bytes "UNKNOWN_ERROR"
  | some debug ↦ debug.reason
]

pub reason_of : ErrorBody → Text
unfolding reason_of_details
reason_of body = reason_of_details body.details

error_content_type : Header → Text
error_content_type request =
    if has_prefix (get request (bytes "Content-Type")) (bytes "application/connect+")
    then bytes "application/connect+json; charset=utf-8"
    else bytes "application/json; charset=utf-8"

hex_digit : ℕ → ℕ
hex_digit n = if ltb n 10 then b'0' + n else b'A' + (n - 10)

is_plain : ℕ → Bool
is_plain c = leb 0x20 c && leb c 0x7E && not (c == b'%')

pub grpc_percent_encode : Text → Text
unfolding is_plain hex_digit
grpc_percent_encode [] = []
grpc_percent_encode (c ∷ msg) =
    let rest = grpc_percent_encode msg in
    if is_plain c then c ∷ rest else b'%' ∷ hex_digit (c / 16) ∷ hex_digit (c % 16) ∷ rest

with_grpc : Wire → Bool → ℕ → Text → Header → Header
with_grpc wire grpc code message h =
    if grpc
    then set_header (set_header h (bytes "Grpc-Status") (itoa (wire.grpc_code code)))
        (bytes "Grpc-Message") (grpc_percent_encode message)
    else h

-- Write, with the metadata and the gRPC flag that its options set.
pub write : Wire → Writer → Header → Option Err → Map Text → Bool → Writer × ℕ
unfolding write_cors_headers error_content_type with_grpc
write wire w request err extra grpc =
    let (code, body) = build wire err extra in
    let h = write_cors_headers request w.headers in
    let h' =
      set_header
        (set_header (set_header h (bytes "X-Error-Reason") (reason_of body)) (bytes "Content-Type")
          (error_content_type request))
        (bytes "X-Content-Type-Options") (bytes "nosniff") in
    (
      record {
        headers = with_grpc wire grpc code body.message h';
        status = some code;
        body = some body;
      },
      code,
    )
