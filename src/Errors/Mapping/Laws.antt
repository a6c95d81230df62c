-- ===== src/Errors/Mapping/Laws.antt =====
-- What errors/mapping.go promises of its codes, reasons and messages.
use ecommerce_gateway.Common.{
  ℕ, ◌<◌, ◌≡◌, refl, ◌↔◌, Bool, true, false, ◌||◌, Option, none, some, List, [], ◌∷◌, map, Text,
  bytes, text_eq, is_upper, is_digit, is_empty, all, arith, chars, trim_space, ◌==◌, all_mono,
  is_visible, trim_space-visible, chars-visible,
}
use ecommerce_gateway.Errors.Codes.{unknown}
use ecommerce_gateway.Errors.Mapping.{
  connect_code_from_http, reason_from_status, reason_rune, normalize_reason, first_of,
  unknown_message, message_of, default_message,
}

-- An HTTP status gets the code "unknown" exactly when it is below 400.
pub connect_code-unknown_iff : (s : ℕ) → (connect_code_from_http s ≡ unknown) ↔ (s < 400)
unfolding connect_code_from_http
connect_code-unknown_iff s = ground arith

-- The bytes of a reason in upper snake case.
abbrev pub reason_byte : ℕ → Bool
reason_byte c = is_upper c || is_digit c || (c == b'_')

abbrev pub IsReason : Text → Type 0
IsReason t = (is_empty t ≡ false) × (all reason_byte t ≡ true)

reason_from_status-IsReason : (s : ℕ) → IsReason (reason_from_status s)
unfolding reason_from_status all
reason_from_status-IsReason s = ground arith

reason_rune-byte : (r : Text) → reason_byte (reason_rune r) ≡ true
unfolding reason_rune
reason_rune-byte [] = refl
reason_rune-byte (c ∷ []) = ground arith
reason_rune-byte (c ∷ d ∷ r) = refl

map-reason_rune : (rs : List Text) → all reason_byte (map reason_rune rs) ≡ true
unfolding all
map-reason_rune [] = refl
map-reason_rune (r ∷ rs) = ground (arith, reason_rune-byte r, map-reason_rune rs)

-- A normalised reason is never empty, and holds only upper case letters, digits and underscores,
-- whatever the reason and the status are.
pub normalize_reason-IsReason : (reason : Text) (s : ℕ) → IsReason (normalize_reason reason s)
unfolding normalize_reason
normalize_reason-IsReason reason s =
    ground (arith, reason_from_status-IsReason s, map-reason_rune (chars (trim_space reason)))

-- A text that is there is not empty.
abbrev Filled : Option Text → Type 0
Filled none = Unit
Filled (some m) = is_empty m ≡ false

message_of-Filled : (reason : Text) → Filled (message_of reason)
unfolding message_of
message_of-Filled reason = ground arith

unknown_message-ne-empty : is_empty unknown_message ≡ false
unfolding unknown_message text_eq
unknown_message-ne-empty = refl

first_of-ne-empty :
    (a b : Option Text) (last : Text)
    → Filled a
    → Filled b
    → is_empty last ≡ false
    → is_empty (first_of a b last) ≡ false
unfolding first_of
first_of-ne-empty (some m) b last fa fb h = fa
first_of-ne-empty none (some m) last fa fb h = fb
first_of-ne-empty none none last fa fb h = h

-- The fallback message is never empty, whatever the reason and the status are.
pub default_message-ne-empty : (reason : Text) (s : ℕ) → is_empty (default_message reason s) ≡ false
unfolding default_message
default_message-ne-empty reason s =
    first_of-ne-empty (message_of reason) (message_of (reason_from_status s)) unknown_message
      (message_of-Filled reason) (message_of-Filled (reason_from_status s)) unknown_message-ne-empty

reason_byte-is_visible : (c : ℕ) → reason_byte c ≡ true → is_visible c ≡ true
reason_byte-is_visible c h = ground arith

map-reason_rune_self :
    (t : Text) → all reason_byte t ≡ true → map reason_rune (map (λ c. c ∷ []) t) ≡ t
unfolding reason_rune all
map-reason_rune_self [] h = refl
map-reason_rune_self (c ∷ t) h = ground (arith, map-reason_rune_self t)

abbrev unknown_reason : Text
unknown_reason = bytes "UNKNOWN"

reason_from_status-ne-unknown : (s : ℕ) → text_eq (reason_from_status s) unknown_reason ≡ false
unfolding reason_from_status text_eq
reason_from_status-ne-unknown s = ground arith

normalize_reason-ne-unknown :
    (reason : Text) (s : ℕ) → text_eq (normalize_reason reason s) unknown_reason ≡ false
unfolding normalize_reason
normalize_reason-ne-unknown reason s = ground (arith, reason_from_status-ne-unknown s)

normalize_reason_of_IsReason :
    (t : Text) (s : ℕ) → IsReason t → text_eq t unknown_reason ≡ false → normalize_reason t s ≡ t
unfolding normalize_reason
normalize_reason_of_IsReason t s (filled, good) known =
    let seen = all_mono reason_byte is_visible reason_byte-is_visible t good in
    rw (trim_space-visible t seen, chars-visible t seen, map-reason_rune_self t good) (ground arith)

-- Normalising a reason once more, for whatever status, changes nothing.
pub normalize_reason_idempotent :
    (reason : Text) (s s' : ℕ)
    → normalize_reason (normalize_reason reason s) s' ≡ normalize_reason reason s
normalize_reason_idempotent reason s s' =
    normalize_reason_of_IsReason (normalize_reason reason s) s' (normalize_reason-IsReason reason s)
      (normalize_reason-ne-unknown reason s)
