-- ===== src/Functions/Laws.antt =====
-- Which commands are run at the start and on a request.
use mathlib.Core.List.{append_assoc, append-nil}
use uberbase.Common.{
  ℕ, String, ◌<>◌, ◌==◌, ◌||◌, ◌≡◌, refl, sym, ap, ◌∙◌, Bool, false, Option, none, some, List, [],
  ◌∷◌, ◌++◌, map, if◌then◌else◌, Bool-cases, inl, inr, arith,
}
use uberbase.Common.Text.{trim_prefix}
use uberbase.Common.Dict.{Dict}
use uberbase.Common.Effect.{Result, ok}
use uberbase.Functions.{
  env_args, run_request, run, container, Output, Functions, run_args, new_client, build_all, login,
  pull_all, init, FunctionRequest, Bound, bound, empty, invalid, function_handler,
}

abbrev pub Command : Type 0
Command = String × List String

-- A machine that keeps its commands in their order, and answers each as it likes.
abbrev pub keeping :
    (List Command → Command → Output) → String → List String → List Command → Output × List Command
keeping answer bin args done = (answer done (bin, args), done ++ ((bin, args) ∷ []))

abbrev pub build_command : String → String → String → Command
build_command bin dir name = (
  bin,
  "build"
      ∷ "-t"
      ∷ ("uberbase/" <> name)
      ∷ "-f"
      ∷ (dir <> ("/" <> (name <> "/Dockerfile")))
      ∷ (dir <> ("/" <> name))
      ∷ [],
)

abbrev pub pull_command : String → String → Command
pull_command bin image = (bin, "pull" ∷ image ∷ [])

abbrev pub login_commands : String → String → String → List Command
login_commands bin user token =
    if token == "" || user == ""
    then []
    else (bin, "login" ∷ "docker.io" ∷ "-u" ∷ user ∷ "-p" ∷ token ∷ []) ∷ []

-- the directories that are found
abbrev pub found : Result (List String) → List String
found (ok names) = names
found _ = []

new_client-world :
    {W : Type 0} (look_path : Option String) (f : Functions W)
    → (new_client look_path f).world ≡ f.world
unfolding new_client
new_client-world look_path f = ground arith

-- the manager after some more commands
abbrev pub after : List Command → Functions (List Command) → Functions (List Command)
after commands f = record f { world = f.world ++ commands }

abbrev env_flags : Dict String → List String
env_flags [] = []
env_flags ((k, v) ∷ env) = "-e" ∷ (k <> ("=" <> v)) ∷ env_flags env

-- The arguments of a run, from the fields of a request: -d where it is to be detached, the pairs of
-- the environment each behind -e, the image, and the arguments.
abbrev pub run_command :
    String → Option Bool → Option (Dict String) → Option (List String) → List String
run_command image detatch env args =
    "run"
    ∷ "--env-file"
    ∷ ".env"
    ∷ "--rm"
    ∷ "-i"
    ∷ "--net"
    ∷ "uberbase_net"
    ∷ (elim detatch [ none ↦ [] | some b ↦ if b then "-d" ∷ [] else [] ]
        ++ (env_flags (elim env [ none ↦ [] | some m ↦ m ])
            ++ (image ∷ elim args [ none ↦ [] | some l ↦ l ])))

-- the commands of a request: none for a body that is refused
abbrev pub requested : String → Bound FunctionRequest → List (List String)
requested image (bound r) = run_command image r.detatch r.env r.args ∷ []
requested image empty = run_command image none none none ∷ []
requested image (invalid e) = []

-- The status by the body and the error of the one command: only a body that is bound gets another
-- one than 400.
abbrev pub status_for : Bound FunctionRequest → Option String → ℕ
status_for (bound r) none = 200
status_for (bound r) (some e) = 500
status_for empty error = 400
status_for (invalid e) error = 400

env_args-env_flags : (env : Dict String) → env_args env ≡ env_flags env
unfolding env_args
env_args-env_flags [] = refl
env_args-env_flags ((k, v) ∷ env) = ap (λ l. "-e" ∷ (k <> ("=" <> v)) ∷ l) (env_args-env_flags env)

run_args-run_command :
    (image : String) (r : FunctionRequest)
    → run_args image
        (elim r.detatch [ none ↦ false | some b ↦ b ])
        (elim r.env [ none ↦ [] | some env ↦ env ])
        (elim r.args [ none ↦ [] | some args ↦ args ])
      ≡ run_command image r.detatch r.env r.args
unfolding run_args
run_args-run_command image r =
    ground (arith, env_args-env_flags (elim r.env [ none ↦ [] | some env ↦ env ]))

module _ (answer : List Command → Command → Output) where
  after_none : (f : Functions (List Command)) → after [] f ≡ f
  after_none f = rw (append-nil f.world)

  after_more :
      (first : Command) (rest : List Command) (f : Functions (List Command))
      → after rest (after (first ∷ []) f) ≡ after (first ∷ rest) f
  after_more first rest f = rw (append_assoc f.world (first ∷ []) rest)

  build_all-after :
      (dir : String) (names : List String) (f : Functions (List Command))
      → build_all (keeping answer) dir names f ≡ after (map (build_command f.bin_path dir) names) f
  unfolding build_all
  build_all-after dir [] f = sym (after_none f)
  build_all-after dir (name ∷ names) f =
      build_all-after dir names (after (build_command f.bin_path dir name ∷ []) f)
      ∙ after_more (build_command f.bin_path dir name) (map (build_command f.bin_path dir) names) f

  pull_all-after :
      (images : List String) (f : Functions (List Command))
      → pull_all (keeping answer) images f ≡ after (map (pull_command f.bin_path) images) f
  unfolding pull_all
  pull_all-after [] f = sym (after_none f)
  pull_all-after (image ∷ images) f =
      pull_all-after images (after (pull_command f.bin_path image ∷ []) f)
      ∙ after_more (pull_command f.bin_path image) (map (pull_command f.bin_path) images) f

  login-after :
      (user token : String) (f : Functions (List Command))
      → login (keeping answer) user token f ≡ after (login_commands f.bin_path user token) f
  unfolding login
  login-after user token f = elim (Bool-cases (token == "" || user == "")) [
    | inl e ↦ rw (e, append-nil f.world)
    | inr e ↦ rw e
  ]

  -- The start of the functions attempts everything, whatever fails: it builds the image of each
  -- directory, logs in where the token and the user are set, and pulls each image, in this order
  -- and with one runtime.
  pub init-commands :
      (look_path : Option String) (dir : String) (subdirs : Result (List String))
      (user token : String) (images : List String) (f : Functions (List Command))
      → let bin = (new_client look_path f).bin_path in
        (init (keeping answer) look_path dir subdirs user token images f).world
        ≡ f.world
          ++ (map (build_command bin dir) (found subdirs)
              ++ (login_commands bin user token ++ map (pull_command bin) images))
  unfolding init
  init-commands look_path dir subdirs user token images f =
      let c = new_client look_path f in
      let builds = map (build_command c.bin_path dir) (found subdirs) in
      let logins = login_commands c.bin_path user token in
      ap (λ g. (pull_all (keeping answer) images (login (keeping answer) user token g)).world)
        (build_all-after dir (found subdirs) c)
      ∙ ap (λ g. (pull_all (keeping answer) images g).world)
          (login-after user token (after builds c))
      ∙ ap (λ g. g.world) (pull_all-after images (after logins (after builds c)))
      ∙ append_assoc (c.world ++ builds) logins _
      ∙ append_assoc c.world builds _
      ∙ ap (λ w. w ++ (builds ++ (logins ++ map (pull_command c.bin_path) images)))
          (new_client-world look_path f)

  -- The error of the machine's answer to the one command that a request makes.
  abbrev pub error_of : List Command → String → List (List String) → Option String
  error_of done bin [] = none
  error_of done bin (args ∷ _) = (answer done (bin, args)).error

  -- A request runs one command, the image behind the path's slash with the options and the arguments
  -- of the body, and none where the body is refused. The status is 200 where the body was bound and
  -- the command succeeds, 500 where it was bound and the command fails, and 400 for every other
  -- body: for an empty one too, for which the image is run with no options.
  pub function_handler-requested :
      (param : String) (body : Bound FunctionRequest) (f : Functions (List Command))
      → let (response, f') = function_handler (keeping answer) param body f in
        let commands = requested (trim_prefix param "/") body in
        (f'.world ≡ f.world ++ map (λ args. (f.bin_path, args)) commands)
        × (response.status ≡ status_for body (error_of f.world f.bin_path commands))
  unfolding function_handler run_request run container
  function_handler-requested param (bound r) f =
      rw (run_args-run_command (trim_prefix param "/") r) (refl, ground arith)
  function_handler-requested param empty f =
      rw
        (run_args-run_command (trim_prefix param "/")
          (record { args = none; detatch = none; env = none }))
        (refl, ground arith)
  function_handler-requested param (invalid e) f = (sym (append-nil f.world), refl)
