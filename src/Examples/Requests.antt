-- ===== src/Examples/Requests.antt =====
-- Images that are run on request.
use uberbase.Common.{◌≡◌, none, some, List, [], ◌∷◌, map}
use uberbase.Common.Text.{trim_prefix}
use uberbase.Common.Effect.{ok}
use uberbase.Functions.{
  Output, Functions, new_client, init, FunctionRequest, bound, function_handler,
}
use uberbase.Functions.Laws.{
  Command, keeping, build_command, pull_command, init-commands, requested, status_for, error_of,
  function_handler-requested,
}

-- a machine on which nothing can be done
abbrev refusing : List Command → Command → Output
refusing done command = record { stdout = ""; stderr = ""; error = some "no such container" }

abbrev idle : Functions (List Command)
idle = record { detected = ""; bin_path = ""; world = [] }

init-commands_example :
    (init
      (keeping refusing)
      (some "/bin/podman")
      "functions"
      (ok ("hello" ∷ []))
      "me"
      "secret"
      ("alpine" ∷ [])
      idle).world
    ≡ build_command "/bin/podman" "functions" "hello"
      ∷ ("/bin/podman", "login" ∷ "docker.io" ∷ "-u" ∷ "me" ∷ "-p" ∷ "secret" ∷ [])
      ∷ pull_command "/bin/podman" "alpine"
      ∷ []
unfolding new_client
init-commands_example =
    init-commands refusing (some "/bin/podman") "functions" (ok ("hello" ∷ [])) "me" "secret"
      ("alpine" ∷ []) idle

abbrev request : FunctionRequest
request = record { args = some ("world" ∷ []); detatch = none; env = some (("LANG", "C") ∷ []) }

function_handler-requested_example :
    let (response, f') = function_handler (keeping refusing) "/hello" (bound request) idle in
    let commands = requested (trim_prefix "/hello" "/") (bound request) in
    (f'.world ≡ map (λ args. ("", args)) commands)
    × (response.status ≡ status_for (bound request) (error_of refusing [] "" commands))
function_handler-requested_example =
    function_handler-requested refusing "/hello" (bound request) idle
