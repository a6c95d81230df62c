-- ===== src/Loader/Path/Laws.antt =====
-- What the elements of a cleaned path are: those of pkg/loader/source.go's keys stay in their
-- root.
use ecommerce_gateway.Common.{
  ℕ, ◌≡◌, ap, refl, arith, Bool, true, false, ◌||◌, List, [], ◌∷◌, ◌++◌, reverse, Text, bytes,
  text_eq, text_eq_refl, has_prefix, split, split_at, join, is_empty, any, Bool-cases, inl, inr,
  ◌⊎◌,
}
use mathlib.Core.Path.{subst}
use mathlib.Core.List.{reverse-append, reverse-cons}
use ecommerce_gateway.Loader.Path.{
  dot, dot_dot, is_dot_dot, climb, enter, walk, elements, is_rooted, render, clean, join_path,
}

-- An element ".." never goes again.
climb-dot_dot :
    (rooted : Bool) (stack : List Text)
    → any is_dot_dot stack ≡ true
    → any is_dot_dot (climb rooted stack) ≡ true
unfolding any climb text_eq
climb-dot_dot rooted [] h = cc
climb-dot_dot rooted (top ∷ stack) h = ground (arith, text_eq_refl dot_dot)

enter-dot_dot :
    (rooted : Bool) (stack : List Text) (e : Text)
    → any is_dot_dot stack ≡ true
    → any is_dot_dot (enter rooted stack e) ≡ true
unfolding any enter
enter-dot_dot rooted stack e h = ground (arith, climb-dot_dot rooted stack h)

walk-dot_dot :
    (rooted : Bool) (stack es : List Text)
    → any is_dot_dot stack ≡ true
    → any is_dot_dot (walk rooted stack es) ≡ true
unfolding walk
walk-dot_dot rooted stack [] h = h
walk-dot_dot rooted stack (e ∷ es) h =
    walk-dot_dot rooted (enter rooted stack e) es (enter-dot_dot rooted stack e h)

walk_append :
    (rooted : Bool) (stack es fs : List Text)
    → walk rooted stack (es ++ fs) ≡ walk rooted (walk rooted stack es) fs
unfolding walk
walk_append rooted stack [] fs = refl
walk_append rooted stack (e ∷ es) fs = walk_append rooted (enter rooted stack e) es fs

-- An element that does not lead out of what is above a stack acts on that part alone.
enter_above :
    (rooted : Bool) (above stack : List Text) (e : Text)
    → any is_dot_dot (enter false above e) ≡ false
    → enter rooted (above ++ stack) e ≡ enter false above e ++ stack
unfolding any enter climb
enter_above rooted [] stack e h = ground (arith, text_eq_refl dot_dot)
enter_above rooted (top ∷ above) stack e h = ground (arith, text_eq_refl dot_dot)

enter_stays :
    (rooted : Bool) (stack es : List Text) (e : Text)
    → any is_dot_dot (walk rooted (enter rooted stack e) es) ≡ false
    → any is_dot_dot (enter rooted stack e) ≡ false
enter_stays rooted stack es e h = elim (Bool-cases (any is_dot_dot (enter rooted stack e))) [
  | inl out ↦ ground (arith, walk-dot_dot rooted (enter rooted stack e) es out)
  | inr inside ↦ inside
]

walk_above :
    (rooted : Bool) (above stack es : List Text)
    → any is_dot_dot (walk false above es) ≡ false
    → walk rooted (above ++ stack) es ≡ walk false above es ++ stack
unfolding walk
walk_above rooted above stack [] h = refl
walk_above rooted above stack (e ∷ es) h =
    rw (enter_above rooted above stack e (enter_stays false above es e h))
      (walk_above rooted (enter false above e) stack es h)

split_at-append :
    (sep : ℕ) (cur s t : Text)
    → split_at sep cur (s ++ (sep ∷ t)) ≡ split_at sep cur s ++ split sep t
unfolding split_at split
split_at-append sep cur [] t = ground arith
split_at-append sep cur (c ∷ s) t =
    ground (arith, split_at-append sep [] s t, split_at-append sep (c ∷ cur) s t)

-- A path that leads out of where it starts does so at its beginning.
abbrev LeadsOut : List Text → Type 0
LeadsOut stack = (above : List Text) × (stack ≡ above ++ (dot_dot ∷ []))

abbrev Out : List Text → Type 0
Out stack = (any is_dot_dot stack ≡ false) ⊎ LeadsOut stack

leave-LeadsOut :
    (top : Text) (stack above : List Text)
    → is_dot_dot top ≡ false
    → top ∷ stack ≡ above ++ (dot_dot ∷ [])
    → LeadsOut stack
leave-LeadsOut top stack [] other e = ground (arith, text_eq_refl dot_dot)
leave-LeadsOut top stack (a ∷ above) other e = (above, cc)

climb-Out : (stack : List Text) → Out stack → Out (climb false stack)
unfolding any climb
climb-Out [] h = inr ([], refl)
climb-Out (top ∷ stack) (inl inside) = inl (ground (arith, inside))
climb-Out (top ∷ stack) (inr (above, e)) = elim (Bool-cases (is_dot_dot top)) [
  | inl same ↦ rw same (inr (dot_dot ∷ above, ap (λ rest. dot_dot ∷ rest) e))
  | inr other ↦ rw other (inr (leave-LeadsOut top stack above other e))
]

push-Out : (e : Text) (stack : List Text) → is_dot_dot e ≡ false → Out stack → Out (e ∷ stack)
unfolding any
push-Out e stack other (inl inside) = inl (ground (arith, other, inside))
push-Out e stack other (inr (above, out)) = inr (e ∷ above, ap (λ rest. e ∷ rest) out)

enter-Out : (stack : List Text) (e : Text) → Out stack → Out (enter false stack e)
unfolding any enter
enter-Out stack e h = elim (Bool-cases (is_empty e || text_eq e dot)) [
  | inl skipped ↦ rw skipped h
  | inr named ↦ elim (Bool-cases (is_dot_dot e)) [
    | inl up ↦ rw (named, up) (climb-Out stack h)
    | inr other ↦ rw (named, other) (push-Out e stack other h)
  ]
]

walk-Out : (stack es : List Text) → Out stack → Out (walk false stack es)
unfolding walk
walk-Out stack [] h = h
walk-Out stack (e ∷ es) h = walk-Out (enter false stack e) es (enter-Out stack e h)

join-dot_dot :
    (rest : List Text) (e : Text)
    → has_prefix (join (b'/' ∷ []) (dot_dot ∷ (rest ++ (e ∷ [])))) (bytes "../") ≡ true
unfolding join has_prefix
join-dot_dot [] e = refl
join-dot_dot (r ∷ rest) e = refl

-- A cleaned path that leads out begins with "..".
render-LeadsOut :
    (above : List Text)
    → text_eq (render false (above ++ (dot_dot ∷ []))) dot_dot
        || has_prefix (render false (above ++ (dot_dot ∷ []))) (bytes "../")
      ≡ true
unfolding render join has_prefix text_eq
render-LeadsOut [] = refl
render-LeadsOut (a ∷ above) =
    rw (reverse-append (a ∷ above) (dot_dot ∷ []), reverse-cons a above)
      (ground (arith, join-dot_dot (reverse above) a))

pub elements-inside :
    (s : Text)
    → is_rooted s ≡ false
    → text_eq (clean s) dot_dot || has_prefix (clean s) (bytes "../") ≡ false
    → any is_dot_dot (elements s) ≡ false
unfolding clean elements any
elements-inside s relative inside = elim (walk-Out [] (split b'/' s) (inl refl)) [
  | inl none_out ↦ rw relative none_out
  | inr out ↦ ground (arith, relative, inside, out.1, render-LeadsOut out.0)
]

clean-under :
    (s t : Text)
    → any is_dot_dot (elements t) ≡ false
    → is_rooted t ≡ false
    → walk (is_rooted s) [] (split b'/' (s ++ (b'/' ∷ t))) ≡ elements t ++ elements s
unfolding elements split
clean-under s t inside relative =
    rw (split_at-append b'/' [] s t, walk_append (is_rooted s) [] (split b'/' s) (split b'/' t))
      (rw relative (
        walk_above (is_rooted s) [] (elements s) (split b'/' t)
          (subst (λ b. any is_dot_dot (walk b [] (split b'/' t)) ≡ false) relative inside)))

-- The elements of a path below another are its own behind the other's.
pub elements-join :
    (s t : Text)
    → is_empty s ≡ false
    → is_empty t ≡ false
    → any is_dot_dot (elements t) ≡ false
    → is_rooted t ≡ false
    → join_path s t ≡ render (is_rooted s) (elements t ++ elements s)
unfolding join_path clean elements has_prefix
elements-join [] t hs ht inside relative = cc
elements-join (c ∷ s) [] hs ht inside relative = cc
elements-join (c ∷ s) (d ∷ t) hs ht inside relative =
    ap (render (is_rooted (c ∷ s))) (clean-under (c ∷ s) (d ∷ t) inside relative)
