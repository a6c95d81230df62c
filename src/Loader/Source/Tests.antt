-- ===== src/Loader/Source/Tests.antt =====
-- Sources on examples: pkg/loader/source.go.
use ecommerce_gateway.Common.{
  ◌≡◌, refl, false, none, some, ◌⊎◌, inl, inr, [], ◌∷◌, List, Text, bytes,
}
use ecommerce_gateway.Loader.Source.{Source, SourceConfig, SourceError, Stream, new_source, watch}
use ecommerce_gateway.Loader.Source.Laws.{reports_from, watch-quiet}

abbrev center : SourceConfig
center = record { source_type = bytes "config_center"; key = bytes "gateway/config.yaml" }

abbrev selector : Text → Text ⊎ SourceConfig
selector path = inr center

chosen :
    new_source selector ((bytes "CONFIG_SOURCE_FILE", bytes "s.yaml") ∷ [])
    ≡ inr (Source.config_center center)
unfolding new_source
chosen = refl

deprecated :
    new_source selector ((bytes "CONFIG_SOURCE", bytes "config_center") ∷ [])
    ≡ inl SourceError.deprecated_source
unfolding new_source
deprecated = refl

abbrev silent : Stream
silent = record { events = []; ended = none; canceled = false; canceled_waiting = false }

abbrev busy : Stream
busy = record {
  events = record { value = bytes "v"; deleted = false; err = none } ∷ [];
  ended = some (bytes "reset");
  canceled = false;
  canceled_waiting = false;
}

abbrev streams : List Stream
streams = silent ∷ silent ∷ busy ∷ silent ∷ []

abbrev quiet : List Stream
quiet = silent ∷ silent ∷ silent ∷ silent ∷ silent ∷ silent ∷ []

watch-quiet_example :
    watch (Source.config_center center) (bytes "policies/model.conf") quiet
    ≡ inr (reports_from 0 quiet)
unfolding watch
watch-quiet_example =
    watch-quiet center (bytes "policies/model.conf") quiet refl
      (refl, (refl, (refl, (refl, (refl, (refl, tt))))))
