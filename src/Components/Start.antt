-- ===== src/Components/Start.antt =====
-- The construction of components. userver tries them in any order, and one that finds another waits
-- for it (src/main.cpp).
use taxi_lab.Base.{
  Bool, true, false, ◌&&◌, ◌||◌, List, [], ◌∷◌, Option, none, some, String, ◌==◌, any, find,
  if◌then◌else◌,
}
use taxi_lab.Components.Config.{static_config}
use taxi_lab.Components.Own.{Schema, Bases, Component}

abbrev pub is_in : String → List String → Bool
is_in name names = any (λ other. other == name) names

-- Every name is there.
abbrev pub are_in : List String → List String → Bool
are_in [] built = true
are_in (name ∷ names) built = is_in name built && are_in names built

-- A section with these keys fits the schema.
abbrev pub accepts : Schema → List String → Bool
accepts schema keys = schema.additional_properties || are_in keys schema.properties

abbrev pub validates : Schema → Option (List String) → Bool
validates schema none = false
validates schema (some keys) = accepts schema keys

module _ (bases : Bases) where
  -- The section is there and fits, and all that the constructor finds is built.
  abbrev pub can_start : Component → List String → Bool
  can_start c built =
      validates (c.schema bases) (find c.name static_config) && are_in (c.finds bases) built

  -- One attempt at each of the components, in this order; the names of those that are built.
  unfoldable pub construct : List Component → List String → List String
  construct [] built = built
  construct (c ∷ cs) built = construct cs (if can_start c built then c.name ∷ built else built)
