-- ===== src/Functions.antt =====
-- uberbase/pkg/functions and the handlers of uberbase/cmd/uberbase/serve.go: images run on request.
pub mod Laws
pub mod Server
use uberbase.Common.{
  ℕ, String, ◌<>◌, ◌==◌, not, ◌||◌, Bool, true, false, Option, none, some, List, [], ◌∷◌, ◌++◌,
  if◌then◌else◌,
}
use uberbase.Common.Text.{trim_prefix}
use uberbase.Common.Dict.{Dict}
use uberbase.Common.Effect.{Result, ok, err, panicked}

-- The three results of a command: both streams, and the error's text unless it is nil.
pub record Output : Type 0 where
  pub stdout : String
  pub stderr : String
  pub error : Option String

-- A command of os/exec, given by its program and its arguments.
abbrev pub Runner : Type 0 → Type 0
Runner W = String → List String → W → Output × W

-- `c` and `fClient`, whose only field is the path of the runtime, beside the world.
pub record Functions (W : Type 0) : Type 0 where
  pub detected : String
  pub bin_path : String
  pub world : W

env_args : Dict String → List String
env_args [] = []
env_args ((k, v) ∷ env) = "-e" ∷ (k <> ("=" <> v)) ∷ env_args env

-- the arguments of `Run`
unfoldable pub run_args : String → Bool → Dict String → List String → List String
unfolding env_args
run_args image detatch env params =
    ("run" ∷ "--env-file" ∷ ".env" ∷ "--rm" ∷ "-i" ∷ "--net" ∷ "uberbase_net" ∷ [])
    ++ ((if detatch then "-d" ∷ [] else []) ++ (env_args env ++ (image ∷ params)))

-- `newClient` with the assignment to `fClient`; `look_path` is exec.LookPath of podman
unfoldable pub new_client : {W : Type 0} → Option String → Functions W → Functions W
new_client look_path f =
    if not (f.detected == "") then record f { bin_path = f.detected } else elim look_path [
      | none ↦ record f { bin_path = "" }
      | some path ↦ record f { detected = path; bin_path = path }
    ]

module _ {W : Type 0} (command : Runner W) where
  -- `container`
  unfoldable pub container : List String → Functions W → Output × Functions W
  container args f =
      let (output, w) = command f.bin_path args f.world in (output, record f { world = w })

  -- `containerCompose`, which nothing calls
  unfoldable pub container_compose : List String → Functions W → Output × Functions W
  container_compose args f =
      let (output, w) = command (f.bin_path <> "-compose") args f.world in
      (output, record f { world = w })

  -- `imageExists`
  image_exists : String → Functions W → Bool × Functions W
  unfolding container
  image_exists image f =
      let (output, f') = container ("inspect" ∷ image ∷ []) f in
      (elim output.error [ none ↦ true | some e ↦ false ], f')

  abbrev pull_if : Bool → String → Functions W → Output × Functions W
  unfolding container
  pull_if true image f = container ("pull" ∷ image ∷ []) f
  pull_if false image f = (
    record { stdout = "image already exists, force not specified"; stderr = ""; error = none },
    f,
  )

  -- `Pull`: the test does not look for the image where the pull is forced
  unfoldable pub pull : String → Bool → Functions W → Output × Functions W
  unfolding image_exists container
  pull image true f = pull_if true image f
  pull image false f = let (exists, f') = image_exists image f in pull_if (not exists) image f'

  -- `Build`, whose streams are dropped
  unfoldable pub build : String → String → String → Functions W → Option String × Functions W
  unfolding container
  build image containerfile context f =
      let (output, f') =
        container ("build" ∷ "-t" ∷ image ∷ "-f" ∷ containerfile ∷ context ∷ []) f in
      (output.error, f')

  -- `Run` and `Stop`
  unfoldable pub run :
      String → Bool → Dict String → List String → Functions W → Output × Functions W
  unfolding container run_args
  run image detatch env params f = container (run_args image detatch env params) f

  unfoldable pub stop : String → Functions W → Output × Functions W
  unfolding container
  stop container_id f = container ("stop" ∷ container_id ∷ []) f

  -- the loop of `Init` over the directories
  build_all : String → List String → Functions W → Functions W
  unfolding build
  build_all dir [] f = f
  build_all dir (name ∷ names) f =
      build_all dir names
        (build ("uberbase/" <> name) (dir <> ("/" <> (name <> "/Dockerfile")))
          (dir <> ("/" <> name)) f).1

  login : String → String → Functions W → Functions W
  unfolding container
  login user token f =
      if token == "" || user == ""
      then f
      else (container ("login" ∷ "docker.io" ∷ "-u" ∷ user ∷ "-p" ∷ token ∷ []) f).1

  pull_all : List String → Functions W → Functions W
  unfolding pull
  pull_all [] f = f
  pull_all (image ∷ images) f = pull_all images (pull image true f).1

  -- `Init`, which never fails: `subdirs` is what os.ReadDir finds, and `user` and `token` are the
  -- variables DOCKER_USER and DOCKER_TOKEN.
  unfoldable pub init :
      Option String
      → String
      → Result (List String)
      → String
      → String
      → List String
      → Functions W
      → Functions W
  unfolding new_client build_all login pull_all
  init look_path dir subdirs user token images f = pull_all images (
      login user token (
        build_all dir (elim subdirs [ ok names ↦ names | err e ↦ [] | panicked e ↦ [] ])
          (new_client look_path f)))

-- The two requests; a missing field is a nil pointer.
pub record FunctionRequest : Type 0 where
  pub args : Option (List String)
  pub detatch : Option Bool
  pub env : Option (Dict String)

-- What gin's BindJSON makes of a body: the request, or io.EOF for an empty body, or another error.
pub data Bound (R : Type 0) : Type 0 where
  bound : R → Bound R
  empty : Bound R
  invalid : String → Bound R

-- What a handler writes: an error alone, an error with both streams, or both streams.
pub data Body : Type 0 where
  refused : (error : String) → Body
  failure : (error stdout stderr : String) → Body
  success : (stdout stderr : String) → Body

-- The answer that the client gets. The status is the one that was written first.
pub record Response : Type 0 where
  pub status : ℕ
  pub body : Body

-- BindJSON answers an error with status 400 itself, io.EOF included, before it gives it back.
abbrev pub written_status : {R : Type 0} → Bound R → Option ℕ
written_status (bound request) = none
written_status empty = some 400
written_status (invalid e) = some 400

-- `c.JSON` with this status, where BindJSON may have written another one
abbrev pub json : Option ℕ → ℕ → Body → Response
json none status body = record { status = status; body = body }
json (some first) status body = record { status = first; body = body }

abbrev pub respond : Option ℕ → Output → Response
respond first output = elim output.error [
  | none ↦ json first 200 (success output.stdout output.stderr)
  | some e ↦ json first 500 (failure e output.stdout output.stderr)
]

module _ {W : Type 0} (command : Runner W) where
  run_request : Option ℕ → String → FunctionRequest → Functions W → Response × Functions W
  unfolding run
  run_request first name request f =
      let (output, f') =
        run command name (elim request.detatch [ none ↦ false | some b ↦ b ])
          (elim request.env [ none ↦ [] | some env ↦ env ])
          (elim request.args [ none ↦ [] | some args ↦ args ]) f in
      (respond first output, f')

  -- `functionHandler`; `param` is the path's parameter
  unfoldable pub function_handler :
      String → Bound FunctionRequest → Functions W → Response × Functions W
  unfolding run_request trim_prefix
  function_handler param (bound request) f =
      run_request (written_status (bound request)) (trim_prefix param "/") request f
  function_handler param empty f =
      run_request (written_status {R = FunctionRequest} empty) (trim_prefix param "/")
        (record { args = none; detatch = none; env = none }) f
  function_handler param (invalid e) f = (
    json (written_status {R = FunctionRequest} (invalid e)) 400
        (refused ("invalid JSON request: " <> e)),
    f,
  )

  -- `stopHandler`; the request's one field is the container's name
  unfoldable pub stop_handler : Bound String → Functions W → Response × Functions W
  unfolding stop
  stop_handler (bound container_id) f =
      let (output, f') = stop command container_id f in
      (respond (written_status (bound container_id)) output, f')
  stop_handler empty f =
      let (output, f') = stop command "" f in
      (respond (written_status {R = String} empty) output, f')
  stop_handler (invalid e) f = (
    json (written_status {R = String} (invalid e)) 400 (refused ("invalid JSON request: " <> e)),
    f,
  )
