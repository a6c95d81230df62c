-- ===== src/Config/Merge.antt =====
-- MakeReplaceOrPrependEndpointFn and the merging of priority endpoints in config/config.go.
mod Tests
use ecommerce_gateway.Common.{
  ℕ, zero, suc, ◌+◌, ◌≡◌, refl, sym, ap, ◌∙◌, arith, Bool, true, false, Option, none, some, List,
  [], ◌∷◌, ◌++◌, map, Text, bytes, text_eq, text_eq_iff, Map, lookup, insert, lookup-insert,
  get_elem?, set, is_some, All, length, length-set, if◌then◌else◌, Option-cases, inl, inr, all, any,
  reverse, append_assoc,
}
use mathlib.Core.List.{reverse-cons}
use ecommerce_gateway.Config.Types.{Endpoint}

-- keyFn
pub key_of : Endpoint → Text
key_of e = e.method ++ (bytes "-" ++ e.path)

-- The loop that fills the index, from position `i` on.
index_from : ℕ → List Endpoint → Map ℕ → Map ℕ
index_from i [] index = index
index_from i (e ∷ es) index = index_from (i + 1) es (insert (key_of e) i index)

pub index_of : List Endpoint → Map ℕ
unfolding index_from
index_of origin = index_from 0 origin []

-- The function that is returned: it looks at the index of the list as it was at first.
pub replace_or_prepend : Map ℕ → List Endpoint → Endpoint → List Endpoint
replace_or_prepend index dst item = elim (lookup (key_of item) index) [
  | none ↦ item ∷ dst
  | some i ↦ set dst i item
]

merge_with : Map ℕ → List Endpoint → List Endpoint → List Endpoint
merge_with index dst [] = dst
merge_with index dst (item ∷ items) = merge_with index (replace_or_prepend index dst item) items

-- The endpoints of all priority files, merged into the list one after the other.
pub merge_priority : List Endpoint → List Endpoint → List Endpoint
unfolding merge_with replace_or_prepend
merge_priority origin items = merge_with (index_of origin) origin items

abbrev IsIndex : List Text → Map ℕ → Type 0
IsIndex ks index = (k : Text) (i : ℕ) → lookup k index ≡ some i → get_elem? ks i ≡ some k

abbrev pub keys_of : List Endpoint → List Text
keys_of [] = []
keys_of (e ∷ es) = key_of e ∷ keys_of es

-- The list of endpoints from position `i` of the keys on.
abbrev StandsAt : List Text → ℕ → List Endpoint → Type 0
StandsAt ks i es = (n : ℕ) → get_elem? (keys_of es) n ≡ get_elem? ks (i + n)

insert-IsIndex :
    (ks : List Text) (index : Map ℕ) (i : ℕ) (k : Text)
    → IsIndex ks index
    → get_elem? ks i ≡ some k
    → IsIndex ks (insert k i index)
insert-IsIndex ks index i k h at j n found =
    ground (arith, lookup-insert k j i index, text_eq_iff k j, h j n, at)

index_from-IsIndex :
    (ks : List Text) (i : ℕ) (es : List Endpoint) (index : Map ℕ)
    → StandsAt ks i es
    → IsIndex ks index
    → IsIndex ks (index_from i es index)
unfolding index_from
index_from-IsIndex ks i [] index stands h = h
index_from-IsIndex ks i (e ∷ es) index stands h =
    index_from-IsIndex ks (i + 1) es (insert (key_of e) i index)
      (λ n. stands (suc n) ∙ ap (get_elem? ks) (omega arith))
      (insert-IsIndex ks index i (key_of e) h (ap (get_elem? ks) (omega arith) ∙ sym (stands 0)))

index_of-IsIndex : (origin : List Endpoint) → IsIndex (keys_of origin) (index_of origin)
unfolding index_of index_from lookup
index_of-IsIndex origin =
    index_from-IsIndex (keys_of origin) 0 origin []
      (λ n. ap (get_elem? (keys_of origin)) (omega arith)) (λ k i found. ground arith)

set-same :
    (es : List Endpoint) (i : ℕ) (e : Endpoint)
    → get_elem? (keys_of es) i ≡ some (key_of e)
    → keys_of (set es i e) ≡ keys_of es
set-same [] i e at = refl
set-same (x ∷ es) zero e at = grind arith
set-same (x ∷ es) (suc i) e at = ap (λ ks. key_of x ∷ ks) (set-same es i e at)

-- The item's key is one of the index's.
abbrev pub known : List Endpoint → Endpoint → Bool
known origin item = is_some (lookup (key_of item) (index_of origin))

replace_or_prepend-found :
    (index : Map ℕ) (dst : List Endpoint) (item : Endpoint) (i : ℕ)
    → lookup (key_of item) index ≡ some i
    → replace_or_prepend index dst item ≡ set dst i item
unfolding replace_or_prepend
replace_or_prepend-found index dst item i found = rw (replace_or_prepend, found) refl

replace_or_prepend-missing :
    (index : Map ℕ) (dst : List Endpoint) (item : Endpoint)
    → lookup (key_of item) index ≡ none
    → replace_or_prepend index dst item ≡ item ∷ dst
unfolding replace_or_prepend
replace_or_prepend-missing index dst item missing = rw (replace_or_prepend, missing) refl

replace-known :
    (origin dst : List Endpoint) (item : Endpoint)
    → keys_of dst ≡ keys_of origin
    → known origin item ≡ true
    → keys_of (replace_or_prepend (index_of origin) dst item) ≡ keys_of origin
replace-known origin dst item same h =
    elim (Option-cases (lookup (key_of item) (index_of origin))) [
      | inl gone ↦ absurd (ground (arith, gone, h))
      | inr (i, found) ↦ rw (replace_or_prepend-found (index_of origin) dst item i found) (
          set-same dst i item
            (ap (λ ks. get_elem? ks i) same ∙ index_of-IsIndex origin (key_of item) i found)
          ∙ same)
    ]

merge_with-known :
    (origin dst items : List Endpoint)
    → keys_of dst ≡ keys_of origin
    → all (known origin) items ≡ true
    → keys_of (merge_with (index_of origin) dst items) ≡ keys_of origin
unfolding merge_with all
merge_with-known origin dst [] same h = same
merge_with-known origin dst (item ∷ items) same h =
    merge_with-known origin (replace_or_prepend (index_of origin) dst item) items
      (replace-known origin dst item same (ground (arith, h))) (ground (arith, h))

-- When the first list has an endpoint with the key (method, dash, path) of each priority endpoint,
-- merging keeps the number of endpoints and the key at each position of the list.
pub merge_priority-known :
    (origin items : List Endpoint)
    → all (known origin) items ≡ true
    → keys_of (merge_priority origin items) ≡ keys_of origin
unfolding merge_priority
merge_priority-known origin items h = merge_with-known origin origin items refl h

merge_with-new :
    (origin dst items : List Endpoint)
    → any (known origin) items ≡ false
    → merge_with (index_of origin) dst items ≡ reverse items ++ dst
unfolding merge_with any
merge_with-new origin dst [] h = refl
merge_with-new origin dst (item ∷ items) h =
    merge_with-new origin (replace_or_prepend (index_of origin) dst item) items (ground (arith, h))
    ∙ ap (λ rest. reverse items ++ rest)
        (replace_or_prepend-missing (index_of origin) dst item (ground (arith, h)))
    ∙ sym (
        ap (λ front. front ++ dst) (reverse-cons item items)
        ∙ append_assoc (reverse items) (item ∷ []) dst)

-- Priority endpoints whose keys the first list lacks are put before it, the last of them first,
-- and the list follows unchanged.
pub merge_priority-new :
    (origin items : List Endpoint)
    → any (known origin) items ≡ false
    → merge_priority origin items ≡ reverse items ++ origin
unfolding merge_priority
merge_priority-new origin items h = merge_with-new origin origin items h

-- When a priority endpoint that the first list lacks is followed by one that it has at position
-- `i`, the second is written to position `i` of the list that already begins with the first: for
-- `i = 0` the first is overwritten, and for a greater `i` the endpoint before the one of its key.
pub merge_priority-shifted :
    (origin : List Endpoint) (fresh item : Endpoint) (i : ℕ)
    → known origin fresh ≡ false
    → lookup (key_of item) (index_of origin) ≡ some i
    → merge_priority origin (fresh ∷ item ∷ []) ≡ set (fresh ∷ origin) i item
unfolding merge_priority merge_with
merge_priority-shifted origin fresh item i unknown found =
    rw (replace_or_prepend-missing (index_of origin) origin fresh (ground (arith, unknown)))
      (replace_or_prepend-found (index_of origin) (fresh ∷ origin) item i found)
