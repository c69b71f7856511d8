-- ===== src/Functions/Server.antt =====
-- uberbase/pkg/http, and the serve command of uberbase/cmd/uberbase/serve.go: the server of the
-- functions. gin and net/http are given.
use uberbase.Common.{String, ◌<>◌, Option, none, some, List, [], ◌∷◌, ◌++◌}
use uberbase.Common.Int.{ℤ, pos}
use uberbase.Common.Decimal.{decimal_int}
use uberbase.Common.Dict.{Dict, insert}
use uberbase.Common.Effect.{Result, ok, err, panicked, Io, pure}
use uberbase.Functions.{Output, Functions, init}

-- the handlers that are registered
pub data Handler : Type 0 where
  health_handler : Handler
  stop_handler : Handler
  function_handler : Handler

-- gin.Logger and gin.Recovery, and `CorsMiddleware`
pub data Middleware : Type 0 where
  logger : Middleware
  recovery : Middleware
  cors : Middleware

-- What the engine of gin has been told, in the order of the calls. A middleware holds for the routes
-- that come after it.
pub data Registered : Type 0 where
  middleware : Middleware → Registered
  route : (method path : String) → Handler → Registered

-- `Server` beside the package's `config`, of which it reads the port. `listening` is the address of
-- its http.Server, which is nil until it is started.
pub record Server : Type 0 where
  pub port : ℤ
  pub engine : List Registered
  pub listening : Option String

-- `CorsMiddleware`, on the headers of an answer
unfoldable pub cors_middleware : Dict String → Dict String
unfolding insert
cors_middleware headers = insert "Access-Control-Max-Age" "600" (
    insert "Access-Control-Allow-Headers" "Content-Type, Authorization" (
      insert "Access-Control-Allow-Methods" "GET, POST, PUT, DELETE, OPTIONS"
        (insert "Access-Control-Allow-Origin" "*" headers)))

-- `HealthHandler`: the status of the answer and its body
unfoldable pub health_answer : ℤ × Dict String
health_answer = (pos 200, ("status", "ok") ∷ [])

-- `RegisterGlobalMiddleware` of `CorsMiddleware`, and `AddRoute`
unfoldable pub register_global_middleware : Server → Server
register_global_middleware s = record s { engine = s.engine ++ (middleware cors ∷ []) }

unfoldable pub add_route : String → String → Handler → Server → Server
add_route method path handler s = record s { engine = s.engine ++ (route method path handler ∷ []) }

-- `NewServer`; the engine of gin.Default has two middlewares of gin's own from the start.
unfoldable pub new_server : ℤ → Server
unfolding register_global_middleware add_route
new_server port = add_route "GET" "/health" health_handler (
    register_global_middleware (record {
      port = port;
      engine = middleware logger ∷ middleware recovery ∷ [];
      listening = none;
    }))

-- `Start`: `listen` is ListenAndServe, whose error is logged and dropped
unfoldable pub start : {W : Type 0} → (String → List Registered → W → W) → Server → W → Server × W
unfolding decimal_int
start listen s w =
    let addr = "0.0.0.0:" <> decimal_int s.port in
    (record s { listening = some addr }, listen addr s.engine w)

-- `Shutdown`, with the one of net/http for the server that was started
unfoldable pub shutdown : {W : Type 0} → (String → Io W (Unit {0})) → Server → Io W (Unit {0})
shutdown stop s = elim s.listening [ none ↦ pure tt | some addr ↦ stop addr ]

-- `ApiConfig`
pub record ApiConfig : Type 0 where
  pub port : ℤ
  pub build : String
  pub pull : List String

-- What `Init` of the functions finds: podman, the directories, and the two variables.
pub record Host : Type 0 where
  pub look_path : Option String
  pub read_dir : String → Result (List String)
  pub docker_user : String
  pub docker_token : String

abbrev text_of : Result String → String
text_of (ok text) = text
text_of (err e) = ""
text_of (panicked e) = ""

-- `readConfigFile`, which does not look at the error of the read
unfoldable pub read_config_file :
    (String → Result String) → (String → Result ApiConfig) → String → Result ApiConfig
read_config_file read_file unmarshal path = unmarshal (text_of (read_file path))

module _ {W : Type 0} (command : String → List String → W → Output × W)
    (listen : String → List Registered → W → W) (host : Host) where
  -- what the command does with its configuration
  unfoldable pub serve_with : ApiConfig → Functions W → Functions W
  unfolding init new_server add_route start
  serve_with config f =
      let f' =
        init command host.look_path config.build (host.read_dir config.build) host.docker_user
          host.docker_token config.pull f in
      let server =
        add_route "POST" "/api/v1/functions/run/*name" function_handler
          (add_route "POST" "/api/v1/functions/stop" stop_handler (new_server config.port)) in
      let (_, w) = start listen server f'.world in record f' { world = w }

  abbrev serve_read : Result ApiConfig → Io (Functions W) (Unit {0})
  serve_read (ok config) f = (ok tt, serve_with config f)
  serve_read (err e) f = (err ("failed to read config file: " <> e), f)
  serve_read (panicked e) f = (panicked e, f)

  -- `RunE` of `getServeCmd`, with the one argument that cobra requires
  serve :
      (String → Result String) → (String → Result ApiConfig) → String → Io (Functions W) (Unit {0})
  unfolding read_config_file serve_with
  serve read_file unmarshal path = serve_read (read_config_file read_file unmarshal path)
