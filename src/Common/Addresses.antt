-- ===== src/Common/Addresses.antt =====
-- net.SplitHostPort of the standard library.
use mathlib.Core.Bool.{Bool, not, ◌&&◌, ◌||◌}
use mathlib.Core.Option.{Option, none, some}
use mathlib.Core.List.{[], ◌∷◌}
use Prim.Native.Nat.{ℕ}
use ecommerce_gateway.Common.Bools.{if◌then◌else◌, ◌==◌}
use ecommerce_gateway.Common.Lists.{any}
use ecommerce_gateway.Common.Strings.{Text}

unfoldable pub has_byte : ℕ → Text → Bool
unfolding any
has_byte c t = any (λ b. b == c) t

cons_left : ℕ → Option (Text × Text) → Option (Text × Text)
cons_left c none = none
cons_left c (some p) = some (c ∷ p.0, p.1)

-- The text before the first such byte and the text behind it.
unfoldable pub cut : ℕ → Text → Option (Text × Text)
unfolding cons_left
cut sep [] = none
cut sep (c ∷ s) = let rest = cons_left c (cut sep s) in if c == sep then some ([], s) else rest

port_is_fine : Text → Bool
unfolding has_byte
port_is_fine p = not (has_byte b':' p || has_byte b'[' p || has_byte b']' p)

-- Behind the bracket that ends a host: a colon and the port.
bracketed : Text → Text → Option Text
unfolding port_is_fine has_byte
bracketed host [] = none
bracketed host (c ∷ port) =
    if (c == b':') && port_is_fine port && not (has_byte b'[' host) then some host else none

in_brackets : Option (Text × Text) → Option Text
unfolding bracketed
in_brackets none = none
in_brackets (some p) = bracketed p.0 p.1

bare : Option (Text × Text) → Option Text
unfolding port_is_fine has_byte
bare none = none
bare (some p) =
    if port_is_fine p.1 && not (has_byte b'[' p.0 || has_byte b']' p.0) then some p.0 else none

-- The host; `none` is the error.
unfoldable pub split_host_port : Text → Option Text
unfolding in_brackets bare cut
split_host_port [] = none
split_host_port (c ∷ s) = if c == b'[' then in_brackets (cut b']' s) else bare (cut b':' (c ∷ s))
