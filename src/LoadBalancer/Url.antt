-- ===== src/LoadBalancer/Url.antt =====
-- `parseURL` of uberbase/pkg/loadbalancer/traffic.go
pub mod Laws
use uberbase.Common.{
  ℕ, zero, suc, leb, ◌||◌, ltb, String, ◌<>◌, Option, none, some, List, [], ◌∷◌, if◌then◌else◌,
}
use uberbase.Common.Int.{ℤ, pos, negsuc, atoi}
use uberbase.Common.Text.{split, trim_prefix}
use uberbase.Common.Effect.{Result, ok, err, panicked}
use uberbase.Utils.{colon}

abbrev bad_format : String → Result (String × ℕ)
bad_format url = err ("invalid URL format (expected host:port): " <> url)

abbrev out_of_range : Result (String × ℕ)
out_of_range = err "port number out of range (1-65535)"

-- the two tests of the port
abbrev check_port : String → Option ℤ → Result (String × ℕ)
check_port host none = err "invalid port number"
check_port host (some (pos port)) =
    if ltb port 1 || ltb 65535 port then out_of_range else ok (host, port)
check_port host (some (negsuc n)) = out_of_range

abbrev host_and_port : String → List String → Result (String × ℕ)
host_and_port url (host ∷ port ∷ []) = check_port host (atoi port)
host_and_port url _ = bad_format url

-- `parseURL`. The numbers and the quoted text in its errors are left out.
unfoldable pub parse_url : String → Result (String × ℕ)
unfolding split trim_prefix atoi
parse_url url =
    let rest = trim_prefix (trim_prefix url "http://") "https://" in
    host_and_port rest (split colon rest)
