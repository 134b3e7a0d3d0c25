-- ===== src/Product/Registry.antt =====
-- internal/product/registry.go: `registry` and `Lookup`.
use linka_plays_metric.Prelude.{String, List, [], ◌∷◌, Option, lookup as find_spec}
use linka_plays_metric.Product.Defs.{Spec}
use linka_plays_metric.Product.Plays.{linka_plays_spec}
use linka_plays_metric.Product.Cards.{linka_looks_spec, linka_pictures_spec}
use linka_plays_metric.Product.Speech.{
  linka_type_spec, linka_paperboard_spec, linka_site_spec, linka_tts_spec,
}

-- The entries, each under its own identifier as the map literal has them.
unfoldable pub registry : List (String × Spec)
unfolding linka_plays_spec linka_looks_spec linka_pictures_spec linka_type_spec
    linka_paperboard_spec linka_site_spec linka_tts_spec
registry =
    ("linka-plays", linka_plays_spec)
    ∷ ("linka-looks", linka_looks_spec)
    ∷ ("linka-pictures", linka_pictures_spec)
    ∷ ("linka-type", linka_type_spec)
    ∷ ("linka-paperboard", linka_paperboard_spec)
    ∷ ("linka-site", linka_site_spec)
    ∷ ("linka-tts", linka_tts_spec)
    ∷ []

unfoldable pub lookup : String → Option Spec
lookup id = find_spec id registry
