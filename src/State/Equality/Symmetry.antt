-- ===== src/State/Equality/Symmetry.antt =====
-- The comparison of two states does not depend on which of them comes first.
use uberbase.Common.{
  suc, length, String, ◌==◌, eq_iff, ◌≡◌, refl, ◌∙◌, Bool, true, Bool-cases, Option-cases, inl, inr,
  Option, none, some, [], ◌∷◌, if◌then◌else◌, arith,
}
use uberbase.Common.Dict.{Dict, lookup, NodupKeys}
use uberbase.Common.Effect.{ok}
use uberbase.State.{ComposeServiceState, ComposeState, TraefikState, DeploymentState}
use uberbase.State.Equality.{equal_services, equal_sections, equal}

abbrev Services : Type 0
Services = Dict ComposeServiceState

-- the entries of the other names
erase : String → Services → Services
erase key [] = []
erase key ((name, s) ∷ rest) =
    let others = erase key rest in if name == key then others else (name, s) ∷ others

lookup-erase :
    (key wanted : String) (m : Services)
    → lookup wanted (erase key m) ≡ (if key == wanted then none else lookup wanted m)
unfolding lookup erase
lookup-erase key wanted [] = ground arith
lookup-erase key wanted ((name, s) ∷ rest) =
    ground
      (arith, lookup-erase key wanted rest, eq_iff name key, eq_iff key wanted, eq_iff name wanted)

erase_absent : (key : String) (m : Services) → lookup key m ≡ none → erase key m ≡ m
unfolding lookup erase
erase_absent key [] h = refl
erase_absent key ((name, s) ∷ rest) h = ground (arith, erase_absent key rest)

length-erase :
    (key : String) (m : Services) {s : ComposeServiceState}
    → NodupKeys m
    → lookup key m ≡ some s
    → length m ≡ suc (length (erase key m))
unfolding lookup erase
length-erase key [] u h = cc h
length-erase key ((name, s) ∷ rest) {s = t} (fresh, u) h = elim (Bool-cases (name == key)) [
  | inl here ↦
      let same = erase_absent key rest (ground (arith, fresh, eq_iff name key)) in rw (here, same)
  | inr there ↦
      let shorter = length-erase key rest {s = t} u (ground (arith, h)) in rw (there, shorter)
]

erase-NodupKeys : (key : String) (m : Services) → NodupKeys m → NodupKeys (erase key m)
unfolding erase
erase-NodupKeys key [] u = tt
erase-NodupKeys key ((name, s) ∷ rest) (fresh, u) =
    ground (arith, erase-NodupKeys key rest u, lookup-erase key name rest)

-- A comparison that does not look for this name can be made without it, and with any entry for it.
equal_services-erase :
    (name : String) (m others : Services)
    → lookup name m ≡ none
    → equal_services m (erase name others) ≡ equal_services m others
unfolding equal_services lookup
equal_services-erase name [] others h = refl
equal_services-erase name ((k, s) ∷ m) others h = ground (
  arith,
  equal_services-erase name m others,
  lookup-erase name k others,
  eq_iff k name,
  eq_iff name k,
)

equal_services-cons :
    (name : String) (s : ComposeServiceState) (m others : Services)
    → lookup name others ≡ none
    → equal_services others ((name, s) ∷ m) ≡ equal_services others m
unfolding equal_services lookup
equal_services-cons name s m [] h = refl
equal_services-cons name s m ((k, t) ∷ others) h =
    ground (arith, equal_services-cons name s m others, eq_iff k name, eq_iff name k)

-- A dictionary that agrees with another but for this name, for which the other has this entry.
equal_services-back :
    (name : String) (s o : ComposeServiceState) (m others : Services)
    → NodupKeys others
    → lookup name others ≡ some o
    → (o.container_name == s.container_name) ≡ true
    → equal_services (erase name others) m ≡ true
    → equal_services others ((name, s) ∷ m) ≡ true
unfolding equal_services lookup erase
equal_services-back name s o m [] u found same h = refl
equal_services-back name s o m ((k, t) ∷ others) (fresh, u) found same h =
    elim (Bool-cases (k == name)) [
      | inl here ↦
          let absent = erase_absent name others (ground (arith, fresh, eq_iff k name)) in
          let extra = equal_services-cons name s m others (ground (arith, fresh, eq_iff k name)) in
          ground (arith, absent, extra, found, same, h, eq_iff k name, eq_iff name k)
      | inr there ↦
          let rest =
            equal_services-back name s o m others u (ground (arith, found)) same
              (ground (arith, h)) in
          ground (arith, rest, h, eq_iff k name, eq_iff name k)
    ]

-- Two dictionaries of one length, of which the second agrees with the first, agree.
equal_services_sym :
    (m others : Services)
    → NodupKeys m
    → NodupKeys others
    → length m ≡ length others
    → equal_services m others ≡ true
    → equal_services others m ≡ true
unfolding equal_services
equal_services_sym [] [] u v e h = refl
equal_services_sym [] (entry ∷ others) u v e h = absurd (omega (arith, e))
equal_services_sym ((name, s) ∷ m) others (fresh, u) v e h =
    elim (Option-cases (lookup name others)) [
      | inl missed ↦ absurd (ground (arith, missed, h))
      | inr (o, found) ↦
          let rest =
            equal_services_sym m (erase name others) u (erase-NodupKeys name others v)
              (omega (arith, e, length-erase name others v found))
              (equal_services-erase name m others fresh ∙ ground (arith, h)) in
          equal_services-back name s o m others v found
            (ground (
              arith,
              found,
              h,
              eq_iff s.container_name o.container_name,
              eq_iff o.container_name s.container_name,
            ))
            rest
    ]

module _ {Volume Network : Type 0} (deep_equal : Option TraefikState → Option TraefikState → Bool)
    (deep_equal_sym : (s t : Option TraefikState)
      → deep_equal s t ≡ true
      → deep_equal t s ≡ true) where
  -- Where no service of either state stands twice, and reflect.DeepEqual does not depend on the order
  -- of its arguments, a state equals another only if the other equals it.
  pub equal_sym :
      (s t : DeploymentState Volume Network) (c d : ComposeState Volume Network)
      → s.compose ≡ some c
      → t.compose ≡ some d
      → NodupKeys c.services
      → NodupKeys d.services
      → equal deep_equal s t ≡ ok true
      → equal deep_equal t s ≡ ok true
  unfolding equal equal_sections
  equal_sym s t c d e f u v h = ground (
    arith,
    eq_iff s.tag t.tag,
    eq_iff t.tag s.tag,
    deep_equal_sym s.traefik t.traefik,
    equal_services_sym c.services d.services u v,
  )
