-- ===== src/State/Equality/Laws.antt =====
-- `Equal` is reflexive, and says what it compares.
use uberbase.Common.{
  Option-cases, String, ◌==◌, eq_iff, eq_refl, ◌≡◌, refl, Bool, true, Option, none, some, [], ◌∷◌,
  length, arith, Bool-cases, inl, inr,
}
use uberbase.Common.Dict.{Dict, lookup, NodupKeys}
use uberbase.Common.Effect.{ok}
use uberbase.State.{ComposeServiceState, ComposeState, TraefikState, DeploymentState}
use uberbase.State.Equality.{equal_services, equal_sections, equal}

-- every entry of the one dictionary is found in the other
abbrev pub IsIn : Dict ComposeServiceState → Dict ComposeServiceState → Type 0
IsIn services others =
    (name : String) (s : ComposeServiceState)
    → lookup name services ≡ some s
    → (o : ComposeServiceState) × (lookup name others ≡ some o)
      × (s.container_name ≡ o.container_name)

equal_services_sound :
    (services others : Dict ComposeServiceState)
    → equal_services services others ≡ true
    → IsIn services others
unfolding equal_services lookup
equal_services_sound [] others h name s e = cc
equal_services_sound ((k, t) ∷ services) others h name s e = elim (Bool-cases (k == name)) [
  | inl here ↦ elim (Option-cases (lookup name others)) [
    | inl missed ↦ absurd (ground (arith, eq_iff k name))
    | inr (o, found) ↦
        (o, found, ground (arith, eq_iff k name, eq_iff t.container_name o.container_name))
  ]
  | inr there ↦ equal_services_sound services others (ground arith) name s (ground arith)
]

-- The comparison finds every entry of a dictionary in a larger one.
equal_services_onto :
    (services others : Dict ComposeServiceState)
    → NodupKeys services
    → ((name : String) (s : ComposeServiceState)
        → lookup name services ≡ some s
        → lookup name others ≡ some s)
    → equal_services services others ≡ true
unfolding equal_services lookup
equal_services_onto [] others _ h = refl
equal_services_onto ((k, t) ∷ services) others (fresh, u) h = ground (
  arith,
  h k t,
  eq_refl k,
  eq_refl t.container_name,
  equal_services_onto services others u
      (λ name s e. h name s (ground (arith, e, fresh, eq_iff k name))),
)

module _ {Volume Network : Type 0}
    (deep_equal : Option TraefikState → Option TraefikState → Bool) where
  -- A state with a compose section equals itself.
  equal_refl :
      (s : DeploymentState Volume Network) (c : ComposeState Volume Network)
      → deep_equal s.traefik s.traefik ≡ true
      → s.compose ≡ some c
      → NodupKeys c.services
      → equal deep_equal s s ≡ ok true
  unfolding equal
  equal_refl s c d e u =
      ground (arith, eq_refl s.tag, equal_services_onto c.services c.services u (λ name t h. h))

  equal_sections_sound :
      (c d : Option (ComposeState Volume Network)) (same_traefik : Bool)
      → equal_sections deep_equal c d same_traefik ≡ ok true
      → (c' d' : ComposeState Volume Network) × (c ≡ some c')
        × (d ≡ some d')
        × (length c'.services ≡ length d'.services)
        × IsIn c'.services d'.services
        × (same_traefik ≡ true)
  unfolding equal_sections
  equal_sections_sound (some c) (some d) same_traefik h = (
    c,
    d,
    refl,
    refl,
    ground arith,
    equal_services_sound c.services d.services (ground arith),
    ground arith,
  )
  equal_sections_sound none d same_traefik h = cc
  equal_sections_sound (some c) none same_traefik h = cc

  -- Where the comparison says yes, the tags are equal, both states have a compose section, these
  -- have equally many services, and each service of the first has one of the same name and the
  -- same container in the second.
  pub equal_sound :
      (s other : DeploymentState Volume Network)
      → equal deep_equal s other ≡ ok true
      → (c d : ComposeState Volume Network) × (s.compose ≡ some c)
        × (other.compose ≡ some d)
        × (s.tag ≡ other.tag)
        × (length c.services ≡ length d.services)
        × IsIn c.services d.services
        × (deep_equal s.traefik other.traefik ≡ true)
  unfolding equal
  equal_sound s other h =
      let (c, d, cs, ds, size, inside, traefik) =
        equal_sections_sound s.compose other.compose (deep_equal s.traefik other.traefik)
          (ground (arith, h)) in
      (c, d, cs, ds, ground (arith, eq_iff s.tag other.tag), size, inside, traefik)
