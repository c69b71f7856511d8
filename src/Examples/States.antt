-- ===== src/Examples/States.antt =====
-- Saving, loading, updating and comparing the state.
use uberbase.Common.Text.{has_suffix}
use uberbase.Common.Text.Laws.{has_suffix-append}
use uberbase.Common.{
  String, ◌<>◌, ◌≡◌, ◌≢◌, ap, ◌∙◌, refl, Bool, true, false, ◌==◌, eq_iff, Option, none, some, [],
  ◌∷◌, length, if◌then◌else◌, arith,
}
use mathlib.Core.Option
use uberbase.Common.Dict.{Dict, lookup}
use uberbase.Common.Effect.{Result, ok, err, Io}
use uberbase.State.Equality.Symmetry.{equal_sym}
use uberbase.State.{ComposeState, DeploymentState}
use uberbase.State.Manager.{StateManager, update, update_services, write, save, load}
use uberbase.State.Manager.Laws.{renamed as renamed_service, update_services_stale}
use uberbase.State.Manager.RoundTrip.{IsFaithful, load-save}
use uberbase.State.Equality.{equal}
use uberbase.State.Equality.Laws.{IsIn, equal_sound}
use uberbase.Examples.{overrides_for, api_state, sections, old, one_text, slashes}

-- A host that keeps one file: the state file, which only the command for this text writes.
abbrev file_command : String
file_command = "cat <<'EOF' > /app/deployment-state.yml\nstate\nEOF"

abbrev written : Bool → Option String → Option String
written true content = some "state\n"
written false content = content

abbrev read : Option String → Result String
read none = err "no such file"
read (some text) = ok text

abbrev tested : Option String → Result String
tested none = err "no such file"
tested (some text) = ok ""

one_file : String → Io (Option String) String
one_file cmd content =
    if cmd == "cat /app/deployment-state.yml"
    then (read content, content)
    else if cmd == "test -f /app/deployment-state.yml"
    then (tested content, content)
    else (ok "", written (cmd == file_command) content)

one_file-IsFaithful : IsFaithful one_file slashes "/app" "state" (λ content. content)
unfolding one_file
one_file-IsFaithful = record {
  after_heredoc = λ w h. refl;
  test_keeps = λ w. refl;
  after_cat = λ w c shown h e. ground (arith, h, e);
}

abbrev holder : StateManager (Unit {0}) (Unit {0}) (Option String)
holder = record { current_state = old; world = none }

load-save_example :
    (load one_file one_text slashes "/app" (save one_file one_text slashes "/app" holder).1.world).0
    ≡ ok old
unfolding save write one_file
load-save_example =
    load-save one_file one_text slashes "/app" "state" (λ content. content) one_file-IsFaithful
      holder refl refl refl

abbrev updated_holder : Result (Unit {0}) × StateManager (Unit {0}) (Unit {0}) (Option String)
updated_holder = update one_file one_text slashes "/app" (overrides_for "new") [] "new" holder

fewer :
    (name : String)
    → lookup name (overrides_for "one") ≡ none
    → lookup name (overrides_for "two") ≡ none
unfolding lookup
fewer name h = ground (arith, h)

not_renamed : (name : String) → "api" ≢ name <> "-one"
unfolding has_suffix
not_renamed name e = cc (ap (λ t. has_suffix t "-one") e ∙ has_suffix-append name "-one")

renamed : (name : String) → lookup (name <> "-one") (overrides_for "two") ≡ none
unfolding lookup
renamed name = ground (arith, eq_iff "api" (name <> "-one"), not_renamed name)

update_services_stale_example :
    update_services "two"
      (overrides_for "two")
      (update_services "one" (overrides_for "one") (("api", api_state) ∷ []))
    ≡ update_services "one" (overrides_for "one") (("api", api_state) ∷ [])
update_services_stale_example =
    update_services_stale "one" "two" (overrides_for "one") (overrides_for "two")
      (("api", api_state) ∷ []) fewer renamed

equal_sound_example :
    (c d : ComposeState (Unit {0}) (Unit {0})) × (old.compose ≡ some c)
    × (old.compose ≡ some d)
    × (old.tag ≡ old.tag)
    × (length c.services ≡ length d.services)
    × IsIn c.services d.services
    × (true ≡ true)
unfolding equal lookup
equal_sound_example = equal_sound (λ s t. true) old old refl

-- the same containers, listed with another image
abbrev newer_image : DeploymentState (Unit {0}) (Unit {0})
newer_image = record old {
  compose = some (record sections {
    services = ("api", record api_state { image = "registry/api:new" }) ∷ [];
  });
}

equal_sym_example : equal (λ s t. true) newer_image old ≡ ok true
unfolding equal lookup
equal_sym_example =
    equal_sym (λ s t. true) (λ s t h. refl) old newer_image sections
      (record sections { services = ("api", record api_state { image = "registry/api:new" }) ∷ [] })
      refl refl (refl, tt) (refl, tt) refl
