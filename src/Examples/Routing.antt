-- ===== src/Examples/Routing.antt =====
-- Addresses, the configurations of a routing change, and waiting for health.
use uberbase.Common.{ℕ, zero, suc, ◌<◌, ◌<>◌, ◌≡◌, refl, Bool, true, false, none, [], ◌∷◌, arith}
use uberbase.Common.Int.{atoi}
use uberbase.Common.Text.{has_prefix, has_suffix}
use uberbase.Common.Effect.{ok, Io}
use uberbase.Health.{run_checks, wait_for_all}
use uberbase.Health.Laws.{after_rounds, EachGood, wait_for_all_sound, wait_for_all_complete}
use uberbase.Examples.{web, web_files, proxy}
use uberbase.LoadBalancer.Url.{parse_url}
use uberbase.LoadBalancer.Url.Laws.{parse_url-http}
use uberbase.LoadBalancer.Traffic.{create_deploy_configs}
use uberbase.LoadBalancer.Traffic.Laws.{last_config, at_most_one, create_deploy_configs-last}

parse_url-http_example : parse_url "http://api:80" ≡ ok ("api", 80)
unfolding atoi has_prefix
parse_url-http_example =
    parse_url-http "api" "80" 80 (refl, (refl, (refl, tt))) (refl, (refl, tt)) refl refl
      (omega arith) (omega arith)

-- a check that is good from its third round on
abbrev late : Io ℕ Bool
late zero = (ok false, 1)
late (suc zero) = (ok false, 2)
late (suc (suc n)) = (ok true, suc (suc n))

wait_for_all_sound_example : (n : ℕ) × (n < 3) × EachGood (late ∷ []) (after_rounds (late ∷ []) n 0)
unfolding wait_for_all run_checks
wait_for_all_sound_example = wait_for_all_sound (late ∷ []) 3 0 refl

wait_for_all_complete_example : ¬ EachGood (late ∷ []) (after_rounds (late ∷ []) 1 0)
unfolding wait_for_all run_checks
wait_for_all_complete_example = wait_for_all_complete (late ∷ []) 2 0 refl 1 (omega arith)

create_deploy_configs-last_example :
    ("new.yml", web) ∷ [] ≡ at_most_one ("new" <> ".yml") (last_config "new" none web_files)
unfolding create_deploy_configs last_config has_suffix
create_deploy_configs-last_example =
    create_deploy_configs-last proxy "new" web_files (("new.yml", web) ∷ []) [] refl
