-- ===== src/Lib.antt =====
-- Uberbase: the deployment of a compose project to a remote host.
--
-- The program takes a project from one machine to another over SSH, with new containers beside the
-- old ones. These files model the packages of uberbase/pkg that a deployment runs through, and show
-- what each promises.
--
-- The parts, from the inside out:
--   Ssh.antt         uberbase/pkg/ssh/session.go: `SshSession` holds the two fields that change, and
--                    the world. `connect`, `execute_command`, `transfer_file` and `close` are the
--                    methods. Ssh/Key.antt is key.go.
--   Core.antt        uberbase/pkg/core: the interface `Executor`; Core/Installer.antt, Core/Local.antt
--                    and Core/Remote.antt are the files of these names.
--   Containers.antt  uberbase/pkg/containers: Runtime (podman.go, docker.go, `NewContainerManager`),
--                    Manager (manager.go, network.go, volume.go), Image (image.go), Inspect
--                    (container.go), Override (override.go).
--   Traefik.antt     uberbase/pkg/traefik/config.go; Traefik/Dynamic.antt and Traefik/Static.antt with
--                    their child modules hold a record for each struct of dynamicconfig.go and
--                    staticconfig.go.
--   State.antt       uberbase/pkg/state: the records; State/Manager.antt is manager.go, and
--                    State/Equality.antt its `Equal`.
--   Health.antt      uberbase/pkg/health/checker.go, where a wait is a function and the checks of a
--                    round run one after the other. Health/Round.antt has the goroutines of a wait as
--                    a step relation on `Wait`: every order in which they can be scheduled, with the
--                    room of each channel and the caller, whose giving up is a case of `Reach`.
--   LoadBalancer.antt  uberbase/pkg/loadbalancer/traffic.go: Traffic for the manager, Url for `parseURL`.
--   Git.antt         uberbase/pkg/git/manager.go.
--   Utils.antt       uberbase/pkg/utils/utils.go.
--   Deploy.antt      uberbase/pkg/deploy: Rollback (rollback.go), and Project for deployer.go, with
--                    the closures in Project/Steps and `NewDeployer` and `DeployProject` in Project/Run.
--                    Project/Adding has the rules by which an action registers steps.
--   Functions.antt   uberbase/pkg/functions, and the handlers of uberbase/cmd/uberbase/serve.go: the
--                    container client, whose path is kept in `Functions`, and what a request runs. A
--                    `Response` is what the client gets, with the status that was written first.
--                    Functions/Server.antt is uberbase/pkg/http and the serve command, with what the
--                    engine of gin is told.
--   Logging.antt     uberbase/pkg/logging/logging.go, KeyValues for `LogKeyValues`.
--   Commands.antt    uberbase/cmd/uberbase: Deploy (deploy.go), Signals (main.go, as a step relation on
--                    `Process`), Scripts (scripts.go, container.go, and uberbase/pkg/cli/cli.go).
--                    Machines puts the two executors of uberbase/pkg/core over one state.
--   Common.antt      what all of these share. Examples.antt tries the theorems on small hosts.
--
-- How the parts meet. A Go function that acts on the outside world and may fail is an `Io` of
-- Common/Effect: it takes the world and gives a result (a value, an error with its text, or a
-- panic) beside the world that it has reached. A method that changes its receiver takes and gives
-- the record of the fields that change. A deployment works on a `Progress`: the steps registered so
-- far, and the `Site` on which they act. The state manager's own state stands beside it, since the
-- deployment reaches it only at its end. A recovered panic is a case on the result; a panic in a
-- goroutine that checks a service is told apart, since nobody recovers from it and it ends the process.
--
-- What is a parameter. The world is a type, and each host a function from a command to an `Io`. The
-- libraries are records of functions: `Network` (golang.org/x/crypto/ssh, sftp), `Codec` (yaml.v3 at
-- the state), `Paths` (path/filepath), `Files` (os and yaml.v3 at the proxy's files), `External` (the
-- rest of what a deployment calls). `Volume` and `Network` in the states stand for types of
-- compose-go into which the program does not look. `Shell` is what the deploy command finds around
-- it, `Surroundings` what the loading of a key does. The logger's `Info`, the engine of gin, ListenAndServe
-- and the run of a script are functions that the definitions take.
--
-- Bounds. A map of Go is the list of its entries in the order in which a loop meets them, so that
-- what holds for every list holds for every order. The retries of `Exec` recurse on the attempts
-- that are left, of which the program has three. The checks of health recurse on the number of
-- rounds that end before the timer: any number is allowed, and a theorem about waiting holds for all
-- of them.
--
-- The goroutines of a round and those of the process need no fuel: they are relations.
--
-- Not modelled: the text that is logged, but for `LogKeyValues`; the clock, with it the
-- pauses; the context (no call cancels it); the mutex of an executor; how cobra finds a
-- command and its flags, and how gin finds a handler; what the package functions generates and never
-- uses.
pub mod Common
pub mod Utils
pub mod Ssh
pub mod Core
pub mod Containers
pub mod Traefik
pub mod State
pub mod Health
pub mod LoadBalancer
pub mod Git
pub mod Deploy
pub mod Functions
pub mod Logging
pub mod Commands
pub mod Examples
