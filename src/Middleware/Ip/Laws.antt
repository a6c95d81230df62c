-- ===== src/Middleware/Ip/Laws.antt =====
-- Which address middleware/ip/ip.go takes for the client's.
use ecommerce_gateway.Common.{
  ℕ, ◌≡◌, ◌∙◌, ap, sym, refl, arith, Bool, true, false, not, ◌&&◌, ◌⊎◌, inl, inr, Header, none,
  some, [], ◌∷◌, ◌++◌, reverse, Text, bytes, is_empty, text_eq, all, ◌==◌, if◌then◌else◌,
  first_or_empty, split, split_at, trim_space, trim_space-visible, is_visible, all_mono, append-nil,
  append_assoc, canonical, get, set_header, get-set_header, split_host_port,
}
use mathlib.Core.List.{reverse-cons}
use ecommerce_gateway.Http.{Request}
use ecommerce_gateway.Middleware.Ip.{get_client_ip, with_client_ip, remote_ip}

-- An address as it stands in a header: printable, without spaces and commas.
abbrev pub is_address : Text → Bool
is_address = all (λ c. is_visible c && not (c == b','))

reverse-step : (cur : Text) (c : ℕ) (a : Text) → reverse (c ∷ cur) ++ a ≡ reverse cur ++ c ∷ a
reverse-step cur c a =
    ap (λ front. front ++ a) (reverse-cons c cur) ∙ append_assoc (reverse cur) (c ∷ []) a

split_at-cons :
    (cur : Text) (c : ℕ) (s : Text)
    → (c == b',') ≡ false
    → split_at b',' cur (c ∷ s) ≡ split_at b',' (c ∷ cur) s
unfolding split_at
split_at-cons cur c s comma =
    ap (λ b. if b then reverse cur ∷ split_at b',' [] s else split_at b',' (c ∷ cur) s) comma

split_at-first :
    (cur a rest : Text)
    → is_address a ≡ true
    → first_or_empty (split_at b',' cur (a ++ b',' ∷ rest)) ≡ reverse cur ++ a
unfolding split_at all
split_at-first cur [] rest h = sym (append-nil (reverse cur))
split_at-first cur (c ∷ a) rest h =
    ap first_or_empty (split_at-cons cur c (a ++ b',' ∷ rest) (ground (arith, h)))
    ∙ split_at-first (c ∷ cur) a rest (ground (arith, h))
    ∙ reverse-step cur c a

split_at-only :
    (cur a : Text) → is_address a ≡ true → first_or_empty (split_at b',' cur a) ≡ reverse cur ++ a
unfolding split_at all
split_at-only cur [] h = sym (append-nil (reverse cur))
split_at-only cur (c ∷ a) h =
    ap first_or_empty (split_at-cons cur c a (ground (arith, h)))
    ∙ split_at-only (c ∷ cur) a (ground (arith, h))
    ∙ reverse-step cur c a

visible-address : (a : Text) → is_address a ≡ true → trim_space a ≡ a
unfolding all
visible-address a h =
    trim_space-visible a
      (all_mono (λ c. is_visible c && not (c == b',')) is_visible (λ c k. ground (arith, k)) a h)

-- The value of X-Forwarded-For begins with the address, and ends there or goes on behind a comma.
abbrev pub BeginsWith : Text → Text → Type 0
BeginsWith a value = (value ≡ a) ⊎ ((rest : Text) × (value ≡ a ++ b',' ∷ rest))

first-address :
    (a value : Text)
    → is_address a ≡ true
    → BeginsWith a value
    → trim_space (first_or_empty (split b',' value)) ≡ a
unfolding split
first-address a value h (inl same) =
    ap trim_space (ap (λ v. first_or_empty (split_at b',' [] v)) same ∙ split_at-only [] a h)
    ∙ visible-address a h
first-address a value h (inr (rest, same)) =
    ap trim_space (ap (λ v. first_or_empty (split_at b',' [] v)) same ∙ split_at-first [] a rest h)
    ∙ visible-address a h

not-empty : (a value : Text) → is_empty a ≡ false → BeginsWith a value → is_empty value ≡ false
not-empty [] value h b = absurd (ground arith)
not-empty (c ∷ a) value h (inl same) = ap is_empty same
not-empty (c ∷ a) value h (inr (rest, same)) = ap is_empty same

get-client_ip :
    (h : Header) (v : Text) → get (set_header h (bytes "X-Client-IP") v) (bytes "X-Client-IP") ≡ v
unfolding canonical text_eq
get-client_ip h v = get-set_header h (bytes "X-Client-IP") (bytes "X-Client-IP") v

-- The services see as X-Client-IP: the X-Real-IP of the request if there is one; otherwise the
-- first address of X-Forwarded-For, if that begins with one; and without both headers the host of
-- the remote address, if it has a host and a port, and all of it otherwise. The address of a header
-- is what the client sent.
pub with_client_ip_lem :
    (r : Request)
    → let real = get r.header (bytes "X-Real-IP") in
      let forwarded = get r.header (bytes "X-Forwarded-For") in
      let seen = get (with_client_ip r).header (bytes "X-Client-IP") in
      (is_empty real ≡ false → seen ≡ real)
      × ((a : Text)
          → is_empty real ≡ true
          → is_empty a ≡ false
          → is_address a ≡ true
          → BeginsWith a forwarded
          → seen ≡ a)
      × ((host : Text)
          → is_empty real ≡ true
          → is_empty forwarded ≡ true
          → split_host_port r.remote_addr ≡ some host
          → seen ≡ host)
      × (is_empty real ≡ true
          → is_empty forwarded ≡ true
          → split_host_port r.remote_addr ≡ none
          → seen ≡ r.remote_addr)
unfolding with_client_ip get_client_ip remote_ip
with_client_ip_lem r = (
  λ there. get-client_ip r.header (get_client_ip r) ∙ rw (get_client_ip, there) refl,
  λ a gone full address begins.
      get-client_ip r.header (get_client_ip r)
      ∙ rw (get_client_ip, gone, not-empty a (get r.header (bytes "X-Forwarded-For")) full begins)
          (first-address a (get r.header (bytes "X-Forwarded-For")) address begins),
  λ host gone bare found.
      get-client_ip r.header (get_client_ip r)
      ∙ rw (get_client_ip, gone, bare, remote_ip, found) refl,
  λ gone bare broken.
      get-client_ip r.header (get_client_ip r)
      ∙ rw (get_client_ip, gone, bare, remote_ip, broken) refl,
)
