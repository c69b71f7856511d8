-- ===== src/State/Manager/Laws.antt =====
-- What an update changes and what it leaves alone.
use mathlib.Core.Option
use uberbase.Common.Effect.Steady.{works}
use uberbase.Common.{
  true, String, ◌<>◌, ◌≡◌, refl, ap, none, some, Option-cases, inl, inr, [], ◌∷◌, arith,
}
use uberbase.Common.Dict.{Dict, lookup, keys}
use uberbase.Common.Effect.{here, nil_dereference, ok, Result, panicked, Io}
use uberbase.Containers.Override.{Overrides}
use uberbase.Traefik.Dynamic.{TraefikDynamicConfiguration}
use uberbase.State.{DeploymentState, ComposeServiceState, ComposeState}
use uberbase.State.Manager.{
  StateManager, Codec, Paths, update_service, update_services, update_compose, update, save,
}

pub keys-update_services :
    (tag : String) (overrides : Overrides) (services : Dict ComposeServiceState)
    → keys (update_services tag overrides services) ≡ keys services
unfolding update_services keys
keys-update_services tag overrides [] = refl
keys-update_services tag overrides ((k, s) ∷ services) =
    ap (λ ks. k ∷ ks) (keys-update_services tag overrides services)

-- A service that an update renames is not found by its old name again.
update_service_stale :
    (tag tag' : String) (overrides overrides' : Overrides) (s : ComposeServiceState)
    → ((name : String) → lookup name overrides ≡ none → lookup name overrides' ≡ none)
    → ((name : String) → lookup (name <> ("-" <> tag)) overrides' ≡ none)
    → let t = update_service tag s (lookup s.service_name overrides) in
      update_service tag' t (lookup t.service_name overrides') ≡ t
unfolding update_service
update_service_stale tag tag' overrides overrides' s fewer renamed =
    elim (Option-cases (lookup s.service_name overrides)) [
      | inl e ↦ ground (arith, fewer s.service_name e)
      | inr (o, e) ↦ ground (arith, renamed o.ref_name)
    ]

-- Once an update has renamed the services, a later one for the same services changes none of them:
-- it looks for the names that the earlier one has replaced.
pub update_services_stale :
    (tag tag' : String) (overrides overrides' : Overrides) (services : Dict ComposeServiceState)
    → ((name : String) → lookup name overrides ≡ none → lookup name overrides' ≡ none)
    → ((name : String) → lookup (name <> ("-" <> tag)) overrides' ≡ none)
    → update_services tag' overrides' (update_services tag overrides services)
      ≡ update_services tag overrides services
unfolding update_services
update_services_stale tag tag' overrides overrides' [] fewer renamed = refl
update_services_stale tag tag' overrides overrides' ((k, s) ∷ services) fewer renamed = cc (
  update_service_stale tag tag' overrides overrides' s fewer renamed,
  update_services_stale tag tag' overrides overrides' services fewer renamed,
)

-- A service after an update: it has another name and image where the deployment made it anew.
abbrev pub renamed : String → Overrides → ComposeServiceState → ComposeServiceState
renamed tag overrides s = elim (lookup s.service_name overrides) [
  | none ↦ s
  | some o ↦ record {
    service_name = o.ref_name <> ("-" <> tag);
    container_name = o.ref_name <> ("-" <> tag);
    hostname = o.hostname;
    image = o.image;
    tag = s.tag;
  }
]

module _ {Volume Network W : Type 0} (exec : String → Io W String) (codec : Codec Volume Network)
    (paths : Paths) (work_dir : String) (overrides : Overrides)
    (configs : Dict TraefikDynamicConfiguration) (tag : String) where
  abbrev updated : StateManager Volume Network W → Result (Unit {0}) × StateManager Volume Network W
  updated = update exec codec paths work_dir overrides configs tag

  -- An update never changes the tag of the state, whatever becomes of it.
  update_tag :
      (m : StateManager Volume Network W) → (updated m).1.current_state.tag ≡ m.current_state.tag
  unfolding update save
  update_tag m = ground arith

  -- A manager that has never been given a state panics on an update, and has run no command.
  pub update_unset :
      (m : StateManager Volume Network W)
      → m.current_state.compose ≡ none
      → updated m ≡ (panicked (here nil_dereference), m)
  unfolding update
  update_unset m h = rw (h, update_compose)

  -- In some world the text of this state has been written to the state file, by a command that
  -- worked and that nothing followed.
  abbrev pub IsWritten : DeploymentState Volume Network → W → Type 0
  IsWritten state after =
      (text : String) × (before : W) × (codec.encode state ≡ ok text)
      × (let (r, w) =
            exec
              ("cat <<'EOF' > "
                <> (paths.join work_dir "deployment-state.yml" <> ("\n" <> (text <> "\nEOF"))))
              before in
          (works r ≡ true) × (w ≡ after))

  -- the state that an update makes of one with these sections
  abbrev new_state :
      DeploymentState Volume Network → ComposeState Volume Network → DeploymentState Volume Network
  new_state state c = record state {
    compose = some (record c { services = update_services tag overrides c.services });
    traefik = some (record { tag = tag; configs = configs });
  }
