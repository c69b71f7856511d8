-- ===== src/State/Equality.antt =====
-- `Equal` of uberbase/pkg/state/manager.go
pub mod Laws
pub mod Symmetry
use uberbase.Common.{
  ◌==◌, not, ◌&&◌, Bool, true, false, Option, none, some, [], ◌∷◌, length, nat_eq, if◌then◌else◌,
}
use uberbase.Common.Dict.{Dict, lookup}
use uberbase.Common.Effect.{here, nil_dereference, Result, ok, panicked}
use uberbase.State.{ComposeServiceState, ComposeState, TraefikState, DeploymentState}

abbrev same_container : ComposeServiceState → Option ComposeServiceState → Bool
same_container service none = false
same_container service (some other) = service.container_name == other.container_name

-- the loop over the services
equal_services : Dict ComposeServiceState → Dict ComposeServiceState → Bool
unfolding lookup
equal_services [] others = true
equal_services ((name, service) ∷ services) others =
    same_container service (lookup name others) && equal_services services others

module _ {Volume Network : Type 0}
    (deep_equal : Option TraefikState → Option TraefikState → Bool) where
  -- the comparisons behind the tags; a missing compose section is a nil dereference
  equal_sections :
      Option (ComposeState Volume Network)
      → Option (ComposeState Volume Network)
      → Bool
      → Result Bool
  unfolding equal_services
  equal_sections none c same_traefik = panicked (here nil_dereference)
  equal_sections (some c) none same_traefik = panicked (here nil_dereference)
  equal_sections (some c) (some d) same_traefik =
      if not (nat_eq (length c.services) (length d.services))
      then ok false
      else if not (equal_services c.services d.services)
      then ok false
      else ok same_traefik

  -- `Equal`; `deep_equal` is reflect.DeepEqual on the Traefik sections
  unfoldable pub equal :
      DeploymentState Volume Network → DeploymentState Volume Network → Result Bool
  unfolding equal_sections
  equal s other =
      if not (s.tag == other.tag)
      then ok false
      else equal_sections s.compose other.compose (deep_equal s.traefik other.traefik)
