-- ===== src/LoadBalancer/Traffic/Laws.antt =====
-- What a routing change writes, waits for and leaves alone.
use uberbase.Common.{
  ℕ, String, ◌<>◌, eq_iff, eq_refl, ◌≡◌, refl, ap, ◌∙◌, inl, inr, Bool-cases, Option, none, some,
  [], ◌∷◌, if◌then◌else◌, arith,
}
use uberbase.Common.Int.{ℤ}
use uberbase.Common.Text.{has_suffix}
use uberbase.Common.Dict.{Dict, insert, lookup}
use uberbase.Common.Effect.{ok, Io}
use uberbase.Common.Effect.Laws.{bind-eq-ok}
use uberbase.Traefik.{Files}
use uberbase.Traefik.Dynamic.{TraefikDynamicConfiguration}
use uberbase.LoadBalancer.Traffic.{
  TrafficManager, deploy_suffix, get_dynamic_configs, create_deploy_config, create_from,
  create_deploy_configs, deploy,
}

-- The files of Traefik that a deployment keeps: all but the deploy files of any tag.
lookup-get_dynamic_configs :
    (file : String) (configs : Dict TraefikDynamicConfiguration)
    → lookup file (get_dynamic_configs configs)
      ≡ (if has_suffix file "-deploy.yml" then none else lookup file configs)
unfolding get_dynamic_configs lookup
lookup-get_dynamic_configs file [] = ground arith
lookup-get_dynamic_configs file ((f, c) ∷ configs) =
    ground (arith, eq_iff f file, lookup-get_dynamic_configs file configs)

-- The last of the files that are no deploy files of the tag.
unfoldable pub last_config :
    String
    → Option TraefikDynamicConfiguration
    → Dict TraefikDynamicConfiguration
    → Option TraefikDynamicConfiguration
last_config tag found [] = found
last_config tag found ((file, config) ∷ configs) =
    last_config tag (if has_suffix file (deploy_suffix tag) then found else some config) configs

-- A dictionary with one entry, or none.
abbrev pub at_most_one {ℓ} : {V : Type ℓ} → String → Option V → Dict V
at_most_one key none = []
at_most_one key (some v) = (key, v) ∷ []

insert-at_most_one {ℓ} :
    {V : Type ℓ} (key : String) (o : Option V) (v : V)
    → insert key v (at_most_one key o) ≡ (key, v) ∷ []
unfolding insert
insert-at_most_one key none v = refl
insert-at_most_one key (some w) v = rw (eq_refl key)

module _ {W : Type 0} (files : Files W) (tag : String) where
  create_deploy_config-same :
      (config made : TraefikDynamicConfiguration) (w : W)
      → (create_deploy_config files tag config w).0 ≡ ok made
      → made ≡ config
  unfolding create_deploy_config
  create_deploy_config-same config made w h = ground arith

  -- a round that makes a configuration leaves it alone in the dictionary
  create_from-insert :
      (found : Option TraefikDynamicConfiguration) (config same : TraefikDynamicConfiguration)
      (configs : Dict TraefikDynamicConfiguration)
      → same ≡ config
      → create_from files tag
          (insert (tag <> ".yml") same (at_most_one (tag <> ".yml") found))
          configs
        ≡ create_from files tag (at_most_one (tag <> ".yml") (some config)) configs
  create_from-insert found config same configs e =
      ap (λ made. create_from files tag made configs)
        (insert-at_most_one (tag <> ".yml") found same ∙ ap (λ c. (tag <> ".yml", c) ∷ []) e)

  create_from-last :
      (found : Option TraefikDynamicConfiguration) (configs made : Dict TraefikDynamicConfiguration)
      (w : W)
      → (create_from files tag (at_most_one (tag <> ".yml") found) configs w).0 ≡ ok made
      → made ≡ at_most_one (tag <> ".yml") (last_config tag found configs)
  unfolding create_from last_config
  create_from-last found [] made w h = cc
  create_from-last found ((file, config) ∷ configs) made w h =
      elim (Bool-cases (has_suffix file (deploy_suffix tag))) [
        | inl e ↦ rw e (create_from-last found configs made w (rw e at h))
        | inr e ↦
            let (same, first, rest) =
              bind-eq-ok (create_deploy_config files tag config)
                (λ c.
                  create_from files tag
                    (insert (tag <> ".yml") c (at_most_one (tag <> ".yml") found)) configs)
                w (rw e at h) in
            rw e (
              create_from-last (some config) configs made _ (
                rw
                  (create_from-insert found config same configs
                    (create_deploy_config-same config same w first))
                  at rest))
      ]

  -- However many files there are, one configuration is made: an unchanged copy of the last one. The
  -- server addresses and router services of the copy do not name the tag.
  pub create_deploy_configs-last :
      (configs made : Dict TraefikDynamicConfiguration) (w : W)
      → (create_deploy_configs files tag configs w).0 ≡ ok made
      → made ≡ at_most_one (tag <> ".yml") (last_config tag none configs)
  unfolding create_deploy_configs
  create_deploy_configs-last configs made w h = create_from-last none configs made w h

  -- A routing change leaves the manager's configurations as they are.
  deploy-dynamic_configs :
      (request : String → String → Dict String → Io W ℤ) (rounds : ℕ) (state_tag : String)
      (t : TrafficManager W)
      → let t' = (deploy files request rounds state_tag tag t).1 in
        (t'.dynamic_configs ≡ t.dynamic_configs) × (t'.static_config ≡ t.static_config)
  unfolding deploy
  deploy-dynamic_configs request rounds state_tag t = ground arith
