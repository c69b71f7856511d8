-- ===== src/Health.antt =====
-- uberbase/pkg/health/checker.go: waiting until all that was started answers.
pub mod Laws
pub mod Round
use uberbase.Common.{
  ℕ, zero, suc, ltb, leb, String, ◌<>◌, ◌==◌, not, ◌&&◌, Bool, true, false, Option, none, some,
  List, [], ◌∷◌, ◌++◌, map, if◌then◌else◌,
}
use uberbase.Common.Int.{ℤ, pos, negsuc, int_eq}
use uberbase.Common.Dict.{Dict, values}
use uberbase.Common.Effect.{
  here, elsewhere, Result, ok, err, panicked, Io, pure, either, ◌>>=◌, ◌>>◌,
}
use uberbase.Containers.{ContainerExecutor}
use uberbase.Containers.Inspect.{ContainerInspectInfo, inspect}
use uberbase.Containers.Override.{ComposeServiceOverride, Overrides}
use uberbase.Traefik.Dynamic.Services.{
  TraefikService, TraefikServiceLoadBalancer, TraefikServiceLoadBalancerServer,
}

-- The interval and the timeout are fixed by the one caller and left out.
pub record HttpHealthCheck : Type 0 where
  pub url : String
  pub method : String
  pub path : String
  pub status : ℤ
  pub headers : Dict String

-- the test of the status that the service answers with
unfoldable pub accepts : ℤ → ℤ → Bool
accepts (pos zero) (pos answer) = leb 200 answer && ltb answer 300
accepts (pos zero) (negsuc answer) = false
accepts wanted answer = int_eq answer wanted

-- what a panic of a check is to the goroutines of others
abbrev pub escaping : Result Bool → Result Bool
escaping (ok good) = ok good
escaping (err e) = err e
escaping (panicked (here text)) = panicked (elsewhere text)
escaping (panicked (elsewhere text)) = panicked (elsewhere text)

module _ {W : Type 0} where
  -- `createHTTPHealthCheck`; `request` makes a request by net/http and gives the status
  unfoldable pub create_http_health_check :
      (String → String → Dict String → Io W ℤ) → HttpHealthCheck → Io W Bool
  unfolding accepts
  create_http_health_check request config =
      either (request config.method (config.url <> config.path) config.headers)
        (λ answer. pure (accepts config.status answer)) (λ _. pure false)

  -- A check in a goroutine of its own: nobody can recover from its panic.
  abbrev pub in_goroutine : Io W Bool → Io W Bool
  in_goroutine check w = let (r, w') = check w in (escaping r, w')

  -- One round of `waitForAll`: every check runs, and the round is good if each was good. The checks
  -- of a round run side by side in Go; here they act on the world one after the other, and in Round
  -- in every order.
  unfoldable pub run_checks : List (Io W Bool) → Io W Bool
  run_checks [] = pure true
  run_checks (check ∷ checks) = do
    good ← in_goroutine check
    rest ← run_checks checks
    pure (good && rest)

  -- `waitForAll` as the caller sees it: `rounds` is the number of rounds that end before the caller
  -- stops to wait, and the result says whether one of them was good.
  unfoldable pub wait_for_all : ℕ → List (Io W Bool) → Io W Bool
  unfolding run_checks
  wait_for_all zero checks = pure false
  wait_for_all (suc rounds) checks =
      run_checks checks >>= λ healthy. if healthy then pure true else wait_for_all rounds checks

  -- the check of a container in `WaitForContainers`
  container_check :
      ContainerExecutor W
      → (String → Result ContainerInspectInfo)
      → ComposeServiceOverride
      → Io W Bool
  unfolding inspect
  container_check e decode service =
      either (inspect e decode service.name) (λ info. pure (info.state.status == "running"))
        (λ _. pure false)

  -- `WaitForContainers`
  unfoldable pub wait_for_containers :
      ContainerExecutor W → (String → Result ContainerInspectInfo) → ℕ → Overrides → Io W Bool
  unfolding wait_for_all container_check values
  wait_for_containers e decode rounds services =
      wait_for_all rounds (map (container_check e decode) (values services))

  server_check :
      (String → String → Dict String → Io W ℤ)
      → TraefikServiceLoadBalancer
      → TraefikServiceLoadBalancerServer
      → Io W Bool
  unfolding create_http_health_check
  server_check request balancer server = create_http_health_check request (record {
    url = server.url;
    method = balancer.health_check.method;
    path = balancer.health_check.path;
    status = balancer.health_check.status;
    headers = balancer.health_check.headers;
  })

  balancer_checks :
      (String → String → Dict String → Io W ℤ)
      → Option TraefikServiceLoadBalancer
      → List (Io W Bool)
  unfolding server_check
  balancer_checks request none = []
  balancer_checks request (some balancer) =
      if balancer.health_check.path == ""
      then []
      else map (server_check request balancer) balancer.servers

  http_checks : (String → String → Dict String → Io W ℤ) → List TraefikService → List (Io W Bool)
  unfolding balancer_checks
  http_checks request [] = []
  http_checks request (service ∷ services) =
      balancer_checks request service.load_balancer ++ http_checks request services

  -- Without a check the channel holds its answer from the start.
  abbrev answer_at_once : ℕ → List (Io W Bool) → Io W Bool
  answer_at_once rounds [] = pure true
  answer_at_once rounds (check ∷ checks) = wait_for_all rounds (check ∷ checks)

  -- `WaitForHTTPHealthChecks`
  unfoldable pub wait_for_http_health_checks :
      (String → String → Dict String → Io W ℤ) → ℕ → Dict TraefikService → Io W Bool
  unfolding wait_for_all http_checks values
  wait_for_http_health_checks request rounds services =
      answer_at_once rounds (http_checks request (values services))
