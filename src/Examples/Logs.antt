-- ===== src/Examples/Logs.antt =====
-- A logger and what it prints.
use uberbase.Common.{ℕ, String, ◌≡◌, ◌≢◌, ◌⊎◌, All, false, List, [], ◌∷◌, map}
use uberbase.Common.Effect.{Result, ok, Io}
use uberbase.Logging.{Entry, info_level, debug_level, Logs, open_log, init_logging}
use uberbase.Logging.Laws.{Initialized, Untouched, init_logging_lem}
use uberbase.Logging.KeyValues.{byte_length, max_key_len, pad, line, log_key_values, say}
use uberbase.Logging.KeyValues.Laws.{log_key_values_lem}

abbrev prints : String → List String → List String
prints text seen = text ∷ seen

abbrev pairs : List (String × String)
pairs = ("host", "prod") ∷ ("répertoire", ".") ∷ []

log_key_values_lem_example :
    (log_key_values prints "Initializing" pairs []
      ≡ (ok tt, say prints ("Initializing" ∷ map (line (max_key_len 0 pairs)) pairs) []))
    × All (λ kv. byte_length (pad (max_key_len 0 pairs) kv.0) ≡ max_key_len 0 pairs) pairs
log_key_values_lem_example = log_key_values_lem prints "Initializing" pairs []

abbrev terminal : String → Io (List String) ℕ
terminal text seen = (ok 1, text ∷ seen)

abbrev new_logs : Logs (List String)
new_logs = record {
  logger = record { level = info_level; discards = false; hooks = [] };
  world = [];
}

abbrev make_directory : String → Io (List String) (Unit {0})
make_directory path seen = (ok tt, path ∷ seen)

abbrev open_file : String → Io (List String) (String → Io (List String) ℕ)
open_file path seen = (ok terminal, path ∷ seen)

abbrev plain : Entry → Result String
plain entry = ok entry.message

init_logging_lem_example :
    let (r, l') = init_logging make_directory open_file terminal plain new_logs in
    (l'.logger.level ≡ debug_level)
    × (((file : String → Io (List String) ℕ) × ((open_log make_directory open_file []).0 ≡ ok file)
          × (r ≡ ok tt)
          × Initialized terminal plain new_logs.logger file l'.logger)
        ⊎ ((r ≢ ok tt) × Untouched new_logs.logger l'.logger))
init_logging_lem_example = init_logging_lem terminal plain make_directory open_file new_logs
