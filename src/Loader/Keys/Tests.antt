-- ===== src/Loader/Keys/Tests.antt =====
-- Keys on examples: pkg/loader/source.go.
use ecommerce_gateway.Common.{◌≡◌, refl, false, none, some, inr, ◌++◌, bytes, any}
use ecommerce_gateway.Loader.Path.{clean, dir_of, base_of, elements, is_rooted, render, is_dot_dot}
use ecommerce_gateway.Loader.Keys.{
  KeyError, validate_key, related_key, new_local_source, path_for_key,
}
use ecommerce_gateway.Loader.Keys.Laws.{path_for_key-below_root}

cleaned : clean (bytes "a//b/./c/../../d/") ≡ bytes "a/d"
unfolding clean
cleaned = refl

cleaned_out : clean (bytes "../a/../../b") ≡ bytes "../../b"
unfolding clean
cleaned_out = refl

cleaned_root : clean (bytes "/../a/..") ≡ bytes "/"
unfolding clean
cleaned_root = refl

dir : dir_of (bytes "gateway/config.yaml") ≡ bytes "gateway"
unfolding dir_of
dir = refl

dir_here : dir_of (bytes "config.yaml") ≡ bytes "."
unfolding dir_of
dir_here = refl

base : base_of (bytes "/etc/gateway/config.yaml") ≡ bytes "config.yaml"
unfolding base_of
base = refl

inside : validate_key (bytes "policies/../policies/model.conf") ≡ none
unfolding validate_key
inside = refl

outside :
    validate_key (bytes "policies/../../x") ≡ some (KeyError.escapes (bytes "policies/../../x"))
unfolding validate_key
outside = refl

beside_main :
    related_key (bytes "gateway/config.yaml") (bytes "policies/model.conf")
    ≡ bytes "gateway/policies/model.conf"
unfolding related_key
beside_main = refl

main_file :
    path_for_key (new_local_source (bytes "/etc/gateway/config.yaml")) (bytes "config.yaml")
    ≡ inr (bytes "/etc/gateway/config.yaml")
unfolding path_for_key new_local_source
main_file = refl

path_for_key-below_root_example :
    (path_for_key (new_local_source (bytes "/etc/gateway/config.yaml")) (bytes "policies/./a.csv")
      ≡ inr (
          render (is_rooted (new_local_source (bytes "/etc/gateway/config.yaml")).root) (
            elements (bytes "policies/./a.csv")
            ++ elements (new_local_source (bytes "/etc/gateway/config.yaml")).root)))
    × (any is_dot_dot (elements (bytes "policies/./a.csv")) ≡ false)
unfolding validate_key new_local_source
path_for_key-below_root_example =
    path_for_key-below_root (new_local_source (bytes "/etc/gateway/config.yaml"))
      (bytes "policies/./a.csv") refl refl refl
