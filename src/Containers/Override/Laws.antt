-- ===== src/Containers/Override/Laws.antt =====
-- What the override holds: an entry for each service that is built, named for the tag, and no other.
use mathlib.Core.Option
use uberbase.Common.{
  ◌<>◌, not, ◌&&◌, String, ◌==◌, eq_iff, ◌≡◌, refl, Bool, true, Option, none, some, List, [], ◌∷◌,
  if◌then◌else◌, arith,
}
use uberbase.Common.Dict.{lookup, lookup-insert}
use uberbase.Utils.{strip_tag}
use uberbase.Containers.{BuildConfig, Service}
use uberbase.Containers.Override.{
  ComposeServiceOverride, Overrides, service_override, add_override, overrides_from,
  new_compose_override,
}

-- The project's services by name: `none` where there is no such service or it has no build.
unfoldable pub find_built : String → List Service → Option Service
find_built name [] = none
find_built name (s ∷ services) =
    let rest = find_built name services in
    if s.name == name then (elim s.build [ none ↦ none | some b ↦ some s ]) else rest

abbrev pub absent : String → List Service → Bool
absent name [] = true
absent name (s ∷ services) = not (s.name == name) && absent name services

-- No two services have one name: they are the values of a map of Go.
abbrev pub HasDistinctNames : List Service → Type 0
HasDistinctNames [] = Unit
HasDistinctNames (s ∷ services) = (absent s.name services ≡ true) × HasDistinctNames services

-- What the new container of a service is called, and the image that it runs.
abbrev pub entry_for : String → Service → ComposeServiceOverride
entry_for tag s = record {
  ref_name = s.name;
  name = s.name <> ("-" <> tag);
  hostname = s.hostname <> ("-" <> tag);
  image = strip_tag s.image <> (":" <> tag);
}

module _ (tag : String) where
  -- the entry of a service by what its build is, where the name had another entry before
  abbrev entry :
      Service → Option BuildConfig → Option ComposeServiceOverride → Option ComposeServiceOverride
  entry s none before = before
  entry s (some b) before = some (entry_for tag s)

  lookup-add_override :
      (k : String) (s : Service) (b : Option BuildConfig) (acc : Overrides)
      → lookup k (add_override tag s b acc)
        ≡ (if s.name == k then entry s b (lookup k acc) else lookup k acc)
  unfolding add_override service_override
  lookup-add_override k s none acc = ground arith
  lookup-add_override k s (some b) acc = lookup-insert acc s.name _ k

  lookup-overrides_from-absent :
      (k : String) (services : List Service) (acc : Overrides)
      → absent k services ≡ true
      → lookup k (overrides_from tag acc services) ≡ lookup k acc
  unfolding overrides_from
  lookup-overrides_from-absent k [] acc h = refl
  lookup-overrides_from-absent k (s ∷ services) acc h = ground (
    arith,
    lookup-overrides_from-absent k services (add_override tag s s.build acc),
    lookup-add_override k s s.build acc,
  )

  abbrev named : Option Service → Option ComposeServiceOverride → Option ComposeServiceOverride
  named none before = before
  named (some s) before = some (entry_for tag s)

  lookup-overrides_from :
      (k : String) (services : List Service) (acc : Overrides)
      → HasDistinctNames services
      → lookup k (overrides_from tag acc services) ≡ named (find_built k services) (lookup k acc)
  unfolding overrides_from find_built
  lookup-overrides_from k [] acc h = refl
  lookup-overrides_from k (s ∷ services) acc (alone, h) = ground (
    arith,
    eq_iff s.name k,
    lookup-overrides_from k services (add_override tag s s.build acc) h,
    lookup-overrides_from-absent k services (add_override tag s s.build acc),
    lookup-add_override k s s.build acc,
  )

  pub lookup-new_compose_override :
      (k : String) (services : List Service)
      → HasDistinctNames services
      → lookup k (new_compose_override services tag)
        ≡ Option.map (entry_for tag) (find_built k services)
  unfolding new_compose_override lookup
  lookup-new_compose_override k services h = ground (arith, lookup-overrides_from k services [] h)
