-- ===== src/Containers.antt =====
-- uberbase/pkg/containers: the compose project and what runs its containers.
pub mod Runtime
pub mod Manager
pub mod Image
pub mod Override
pub mod Inspect
use uberbase.Common.{String, Option, List, [], ◌∷◌}
use uberbase.Common.Dict.{Dict}
use uberbase.Common.Effect.{Result, ok, err, panicked, Io}
use uberbase.Common.Results.{◌>>=◌}

-- Of `types.BuildConfig` and `types.ServiceConfig` (compose-go) the fields that the program reads.
-- A build argument without a value is a nil pointer.
pub record BuildConfig : Type 0 where
  pub args : Dict (Option String)
  pub dockerfile : String
  pub context : String

pub record Service : Type 0 where
  pub name : String
  pub image : String
  pub hostname : String
  pub build : Option BuildConfig

-- `ComposeProject`. The services are a map in Go: here they stand in the order in which its loops
-- meet them. `remote_file_path` is set during a deployment, and the container managers see that,
-- since they share the object.
pub record ComposeProject : Type 0 where
  pub local_file_path : String
  pub remote_file_path : String
  pub services : List Service

-- `NewComposeProject`. `project_options` and `load_project` are `cli.NewProjectOptions` and
-- `LoadProject` of compose-go.
unfoldable pub new_compose_project :
    {Options : Type 0}
    → (List String → String → Result Options)
    → (Options → Result (List Service))
    → String
    → String
    → Result ComposeProject
new_compose_project project_options load_project path name = do
  options ← project_options (path ∷ []) name
  services ← load_project options
  ok (record { local_file_path = path; remote_file_path = ""; services = services })

-- The interface `ContainerExecutor`
pub record ContainerExecutor (W : Type 0) : Type 0 where
  pub exec : String → Io W String
  pub exec_compose : String → Io W String
