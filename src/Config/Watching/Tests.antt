-- ===== src/Config/Watching/Tests.antt =====
-- A loader that watches, on an example: config/config.go.
use ecommerce_gateway.Common.{
  ◌≡◌, refl, true, false, Option, none, some, List, [], ◌∷◌, Text, bytes, text_eq, if◌then◌else◌,
  lookup,
}
use ecommerce_gateway.Config.Types.{Gateway}
use ecommerce_gateway.Config.Watching.{Kind, Watching, Reading, LoaderAction, act_all, same_hash}
use ecommerce_gateway.Config.Watching.Laws.{Decodes, act_all-Decodes}

abbrev gateway : Gateway
gateway = record { endpoints = []; middlewares = []; envs = [] }

unfoldable decode : Text → Option Gateway
unfolding text_eq
decode content = if text_eq content (bytes "bad") then none else some gateway

abbrev reading : Reading
reading = record { range = λ m. m; decode = decode; priority_hash = some [] }

abbrev fresh : Watching
fresh = record {
  loader = record { config_data = bytes "old"; priority_config_hash = [] };
  handlers = [];
  closed = false;
  watch_cancel = false;
  goroutines = [];
  env = [];
}

abbrev actions : List (LoaderAction false true)
actions =
    LoaderAction.watches (λ g. true)
    ∷ LoaderAction.sends (record { value = bytes "bad"; deleted = false; err = none }) reading
    ∷ LoaderAction.watches (λ g. true)
    ∷ LoaderAction.closes
    ∷ LoaderAction.returns Kind.source
    ∷ LoaderAction.watches (λ g. true)
    ∷ []

order_of_hash :
    same_hash
      ((bytes "a", bytes "1") ∷ (bytes "b", bytes "2") ∷ [])
      ((bytes "b", bytes "2") ∷ (bytes "a", bytes "1") ∷ [])
    ≡ true
unfolding same_hash lookup text_eq
order_of_hash = refl

-- A goroutine that is canceled waits for its ticker once more.
behind_close :
    (act_all false true actions fresh).goroutines
    ≡ record { kind = Kind.priority; canceled = true } ∷ []
unfolding act_all
behind_close = refl

act_all-Decodes_example : Decodes decode (act_all false true actions fresh)
unfolding decode
act_all-Decodes_example =
    act_all-Decodes decode false true actions fresh (tt, (refl, (tt, (tt, (tt, (tt, tt)))))) refl
