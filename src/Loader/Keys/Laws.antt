-- ===== src/Loader/Keys/Laws.antt =====
-- What validateKey and pathForKey of pkg/loader/source.go promise.
use ecommerce_gateway.Common.{
  ◌≡◌, refl, arith, false, none, inr, ◌++◌, Text, text_eq, any, is_empty,
}
use ecommerce_gateway.Loader.Path.{is_dot_dot, elements, is_rooted, render}
use ecommerce_gateway.Loader.Path.Laws.{elements-inside, elements-join}
use ecommerce_gateway.Loader.Keys.{validate_key, FileSource, path_for_key}

validate_key-accepts :
    (key : Text)
    → validate_key key ≡ none
    → (is_empty key ≡ false) × (is_rooted key ≡ false) × (any is_dot_dot (elements key) ≡ false)
unfolding validate_key
validate_key-accepts key ok = ground (arith, elements-inside key)

-- A key that is accepted and is not the main key names a path below the root: its elements, none
-- of which is "..", stand behind the root's, which are all kept.
pub path_for_key-below_root :
    (s : FileSource) (key : Text)
    → validate_key key ≡ none
    → text_eq key s.main_key ≡ false
    → is_empty s.root ≡ false
    → (path_for_key s key ≡ inr (render (is_rooted s.root) (elements key ++ elements s.root)))
      × (any is_dot_dot (elements key) ≡ false)
unfolding path_for_key
path_for_key-below_root s key ok other rooted =
    let (named, relative, inside) = validate_key-accepts key ok in
    (
      rw (path_for_key, ok, other, elements-join s.root key rooted named inside relative) refl,
      inside,
    )
