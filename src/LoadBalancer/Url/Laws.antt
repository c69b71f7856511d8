-- ===== src/LoadBalancer/Url/Laws.antt =====
-- The ports that `parseURL` accepts, and the addresses that it reads back.
use uberbase.Common.{ap, ℕ, ◌≤◌, String, ◌<>◌, ◌≡◌, ◌∙◌, false, some, List, [], ◌∷◌, arith}
use uberbase.Common.Int.{pos, atoi}
use uberbase.Common.Text.{Lacks, split, has_prefix, trim_prefix}
use uberbase.Common.Text.Laws.{split_of_Lacks, trim_prefix-append, trim_prefix_of_absent}
use uberbase.Common.Effect.{Result, ok}
use uberbase.Utils.Laws.{split_tagged}
use uberbase.Utils.{colon}
use uberbase.LoadBalancer.Url.{host_and_port, parse_url}

host_and_port-port :
    (url : String) (parts : List String) (host : String) (port : ℕ)
    → host_and_port url parts ≡ ok (host, port)
    → (1 ≤ port) × (port ≤ 65535)
host_and_port-port url (h ∷ p ∷ []) host port e = ground arith
host_and_port-port url parts host port e = cc

-- Every port that is accepted lies between 1 and 65535.
parse_url-port :
    (url host : String) (port : ℕ) → parse_url url ≡ ok (host, port) → (1 ≤ port) × (port ≤ 65535)
unfolding parse_url
parse_url-port url host port e =
    host_and_port-port (trim_prefix (trim_prefix url "http://") "https://")
      (split colon (trim_prefix (trim_prefix url "http://") "https://")) host port e

-- what follows the two prefixes
abbrev finish : String → Result (String × ℕ)
finish rest = host_and_port rest (split colon rest)

finish_lem :
    (host text : String) (port : ℕ)
    → Lacks colon host
    → Lacks colon text
    → atoi text ≡ some (pos port)
    → 1 ≤ port
    → port ≤ 65535
    → finish (host <> (":" <> text)) ≡ ok (host, port)
finish_lem host text port h k number low high =
    ap (host_and_port (host <> (":" <> text)))
      (split_tagged host text h ∙ ap (λ r. host ∷ r) (split_of_Lacks colon text k))
    ∙ ground (arith, number)

-- A host without a colon and a port in range, written behind `http://`, are read back.
pub parse_url-http :
    (host text : String) (port : ℕ)
    → Lacks colon host
    → Lacks colon text
    → has_prefix (host <> (":" <> text)) "https://" ≡ false
    → atoi text ≡ some (pos port)
    → 1 ≤ port
    → port ≤ 65535
    → parse_url ("http://" <> (host <> (":" <> text))) ≡ ok (host, port)
unfolding parse_url
parse_url-http host text port h k plain number low high =
    let address = host <> (":" <> text) in
    ap (λ t. finish (trim_prefix t "https://")) (trim_prefix-append "http://" address)
    ∙ ap finish (trim_prefix_of_absent address "https://" plain)
    ∙ finish_lem host text port h k number low high
