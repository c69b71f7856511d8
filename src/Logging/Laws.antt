-- ===== src/Logging/Laws.antt =====
-- What a logger is after its initialization, and what one of its hooks does.
use uberbase.Common.{ap, List, ◌<>◌, ℕ, String, ◌≡◌, ◌≢◌, refl, ◌⊎◌, inl, inr, true, [], ◌∷◌, ◌++◌}
use mathlib.Core.List.{append_assoc}
use uberbase.Common.Results.{ok_inj}
use uberbase.Common.Effect.{pure, ◌>>◌, Result, ok, err, panicked, Io}
use uberbase.Logging.{
  Level, LevelHook, fire, format, info_level, warn_level, error_level, fatal_level, panic_level,
  debug_level, Entry, Logger, Logs, stdout_hook, file_hook, add_hooks, open_log, init_logging,
  opened,
}

abbrev pub Untouched : {W : Type 0} → Logger W → Logger W → Type 0
Untouched old new = (new.discards ≡ old.discards) × (new.hooks ≡ old.hooks)

module _ {W : Type 0} (stdout : String → Io W ℕ) (text_formatter : Entry → Result String) where
  -- The hook is on at these levels, and formats an entry so before it writes it there.
  abbrev Hooked : LevelHook W → List Level → (Entry → Result String) → (String → Io W ℕ) → Type 0
  Hooked hook levels formatter target =
      (hook.log_levels ≡ levels)
      × ((entry : Entry) (text : String)
          → formatter entry ≡ ok text
          → fire hook entry ≡ target text >> pure tt)

  -- A logger that has been set up, from the one that it was.
  abbrev pub Initialized : Logger W → (String → Io W ℕ) → Logger W → Type 0
  Initialized old file new =
      (new.discards ≡ true)
      × (terminal : LevelHook W) × (log : LevelHook W) × (new.hooks
          ≡ old.hooks ++ (terminal ∷ log ∷ []))
      × Hooked terminal (info_level ∷ warn_level ∷ error_level ∷ fatal_level ∷ panic_level ∷ [])
          (λ entry. ok (entry.message <> "\n")) stdout
      × Hooked log
          (debug_level ∷ info_level ∷ warn_level ∷ error_level ∷ fatal_level ∷ panic_level ∷ [])
          text_formatter file

  opened_lem :
      (r : Result (String → Io W ℕ)) (l : Logs W)
      → let (r', l') = opened stdout text_formatter r l in
        (l'.logger.level ≡ l.logger.level)
        × (((file : String → Io W ℕ) × (r ≡ ok file)
              × (r' ≡ ok tt)
              × Initialized l.logger file l'.logger)
            ⊎ ((r' ≢ ok tt) × Untouched l.logger l'.logger))
  unfolding add_hooks stdout_hook file_hook fire format
  opened_lem (ok file) l = (
    refl,
    inl (
      file,
      refl,
      refl,
      (
        refl,
        stdout_hook stdout,
        file_hook text_formatter file,
        append_assoc l.logger.hooks (stdout_hook stdout ∷ []) (file_hook text_formatter file ∷ []),
        (refl, λ entry text e. ap (λ t. stdout t >> pure tt) (ok_inj e)),
        (refl, λ entry text e. rw e),
      ),
    ),
  )
  opened_lem (err e) l = (refl, inr (λ h. cc h, (refl, refl)))
  opened_lem (panicked e) l = (refl, inr (λ h. cc h, (refl, refl)))

  -- Either the log was opened and the initialization succeeds: then the logger's own output is thrown
  -- away, and after the hooks that it had come two: one that writes the message and a line's end to
  -- the terminal, at the levels from info to panic, and one that writes what the text formatter
  -- makes of an entry to the file, at the levels from debug to panic. Or it fails, and the logger
  -- keeps its output and its hooks. Its level is then debug in both cases.
  pub init_logging_lem :
      (mkdir_all : String → Io W (Unit {0})) (open_file : String → Io W (String → Io W ℕ))
      (l : Logs W)
      → let (r, l') = init_logging mkdir_all open_file stdout text_formatter l in
        (l'.logger.level ≡ debug_level)
        × (((file : String → Io W ℕ) × ((open_log mkdir_all open_file l.world).0 ≡ ok file)
              × (r ≡ ok tt)
              × Initialized l.logger file l'.logger)
            ⊎ ((r ≢ ok tt) × Untouched l.logger l'.logger))
  unfolding init_logging
  init_logging_lem mkdir_all open_file l =
      let (r, w) = open_log mkdir_all open_file l.world in
      opened_lem r (record { logger = record (l.logger) { level = debug_level }; world = w })
