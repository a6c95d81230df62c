-- ===== src/Errors/Response/Laws.antt =====
-- What errors/response.go promises of the errors that it classifies, builds and writes.
use ecommerce_gateway.Common.{
  ℕ, ◌<◌, ◌≡◌, refl, arith, Bool, true, false, Option, none, some, [], ◌∷◌, Text, bytes, text_eq,
  text_eq_iff, is_empty, Map, Unique, lookup, insert, lookup-insert, trim_space, Header, get,
  canonical, get-set_header, if◌then◌else◌, Option-cases, Bool-cases, inl, inr,
}
use ecommerce_gateway.Errors.Codes.{code_text, KratosError, Err}
use ecommerce_gateway.Errors.Mapping.{connect_code_from_http, normalize_reason}
use ecommerce_gateway.Errors.Mapping.Laws.{
  IsReason, normalize_reason-IsReason, default_message-ne-empty,
}
use ecommerce_gateway.Errors.Response.{
  Info, as_kratos, normalize, status_of, classify_kratos, unclassified, classify, merge_extra, Wire,
  build, Writer, write_cors_headers, reason_of, with_grpc, write,
}

pub record IsUsable (info : Info) : Type 0 where
  pub status : 0 < info.status
  pub reason : IsReason info.reason
  pub message : is_empty info.message ≡ false

trimmed-ne-empty : (m : Text) → is_empty (trim_space m) ≡ false → is_empty m ≡ false
unfolding trim_space
trimmed-ne-empty [] h = h
trimmed-ne-empty (c ∷ m) h = refl

normalize-IsUsable : (info : Info) → 0 < info.status → IsUsable (normalize info)
unfolding normalize
normalize-IsUsable info h = record {
  status = h;
  reason = normalize_reason-IsReason info.reason info.status;
  message = ground (
    arith,
    trimmed-ne-empty info.message,
    default_message-ne-empty (normalize_reason info.reason info.status) info.status,
  );
}

classify_kratos-IsUsable : (e : KratosError) → IsUsable (classify_kratos e)
unfolding classify_kratos status_of
classify_kratos-IsUsable e = normalize-IsUsable _ (ground arith)

-- Whatever the error is, its classification has a positive status, a reason in upper snake case
-- and a message that is not empty.
pub classify-IsUsable : (e : Err) → IsUsable (classify (some e))
unfolding classify unclassified
classify-IsUsable e = elim (Option-cases (as_kratos e)) [
  | inr (k, found) ↦ rw (found, classify) (classify_kratos-IsUsable k)
  | inl missing ↦ rw (missing, classify) (normalize-IsUsable _ (ground arith))
]

-- The metadata that a caller adds: a value that is not empty replaces the one of the error, and an
-- empty one changes nothing.
pub lookup-merge_extra :
    (k : Text) (extra into : Map Text)
    → Unique extra
    → lookup k (merge_extra extra into) ≡ elim (lookup k extra) [
      | none ↦ lookup k into
      | some v ↦ if is_empty v then lookup k into else some v
    ]
unfolding merge_extra lookup
lookup-merge_extra k [] into u = refl
lookup-merge_extra k ((j, v) ∷ extra) into u = ground (
  arith,
  text_eq_iff j k,
  lookup-insert j k v into,
  lookup-merge_extra k extra into u.1,
  lookup-merge_extra k extra (insert j v into) u.1,
)

abbrev error_reason : Text
error_reason = bytes "X-Error-Reason"

abbrev allow_origin : Text
allow_origin = bytes "Access-Control-Allow-Origin"

with_grpc-error_reason :
    (wire : Wire) (grpc : Bool) (code : ℕ) (message : Text) (h : Header)
    → get (with_grpc wire grpc code message h) error_reason ≡ get h error_reason
unfolding with_grpc canonical text_eq
with_grpc-error_reason wire true code message h = simp get-set_header
with_grpc-error_reason wire false code message h = refl

with_grpc-allow_origin :
    (wire : Wire) (grpc : Bool) (code : ℕ) (message : Text) (h : Header)
    → get (with_grpc wire grpc code message h) allow_origin ≡ get h allow_origin
unfolding with_grpc canonical text_eq
with_grpc-allow_origin wire true code message h = simp get-set_header
with_grpc-allow_origin wire false code message h = refl

write_cors_headers-allow_origin :
    (request h : Header)
    → get (write_cors_headers request h) allow_origin ≡ (
        if is_empty (get request (bytes "Origin"))
        then get h allow_origin
        else get request (bytes "Origin"))
unfolding write_cors_headers canonical text_eq
write_cors_headers-allow_origin request h =
    elim (Bool-cases (is_empty (get request (bytes "Origin")))) [
      | inl none_given ↦ rw none_given refl
      | inr given ↦ rw given (simp get-set_header)
    ]

-- Write answers with the status of the classified error, in the response and as its result, with
-- the body that Build makes, whose code is the Connect code of that status. The error's reason
-- stands in X-Error-Reason, for gRPC routes too, and a request with an Origin is allowed it.
pub write_lem :
    (wire : Wire) (w : Writer) (request : Header) (e : Option Err) (extra : Map Text) (grpc : Bool)
    → let (w', code) = write wire w request e extra grpc in
      (code ≡ (classify e).status)
      × (w'.status ≡ some code)
      × (w'.body ≡ some (build wire e extra).1)
      × ((build wire e extra).1.code ≡ code_text (connect_code_from_http code))
      × (get w'.headers error_reason ≡ (classify e).reason)
      × (get w'.headers allow_origin ≡ (
          if is_empty (get request (bytes "Origin"))
          then get w.headers allow_origin
          else get request (bytes "Origin")))
unfolding write build reason_of canonical text_eq
write_lem wire w request e extra grpc = (
  refl,
  refl,
  refl,
  refl,
  rw (with_grpc-error_reason wire grpc) (simp get-set_header),
  rw (with_grpc-allow_origin wire grpc) (simp (get-set_header, write_cors_headers-allow_origin)),
)
