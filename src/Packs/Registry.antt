-- ===== src/Packs/Registry.antt =====
-- internal/packregistry/registry.go: the registry. A factory is what its call returns, `none` for nil.
use clausa_lens.Prelude.{
  String, Option, none, some, List, [], ◌∷◌, ◌==◌, string_eq, Dict, insert, lookup, sort_by,
  if◌then◌else◌,
}
use clausa_lens.Contracts.Pack.{SystemPack}
use clausa_lens.Graph.Build.{text_less}

abbrev pub Factory : Type 0
Factory = Option SystemPack

abbrev pub Registry : Type 0
Registry = Dict Factory

-- A nil factory is `none`.
unfoldable pub register : String → Option Factory → Registry → Registry
register name none r = r
register name (some factory) r = if name == "" then r else insert name factory r

abbrev pub resolved : Option Factory → Option SystemPack
resolved none = none
resolved (some factory) = factory

unfoldable pub resolve : String → Registry → Option SystemPack
resolve name r = resolved (lookup name r)

tokens : Registry → List String
tokens [] = []
tokens ((name, factory) ∷ r) = name ∷ tokens r

unfoldable pub names : Registry → List String
unfolding tokens
names r = sort_by text_less (tokens r)
