-- ===== src/Logging.antt =====
-- uberbase/pkg/logging/logging.go, over the library logrus.
pub mod KeyValues
pub mod Laws
use uberbase.Common.{
  ℕ, zero, suc, ◌+◌, ◌-◌, ltb, String, ◌<>◌, ◌==◌, Bool, true, false, Option, none, some, List, [],
  ◌∷◌, ◌++◌, if◌then◌else◌,
}
use uberbase.Common.Effect.{Result, ok, err, panicked, Io, pure, fail, crash, wrap, ◌>>=◌, ◌>>◌}

-- the levels of logrus that the package names
pub data Level : Type 0 where
  panic_level : Level
  fatal_level : Level
  error_level : Level
  warn_level : Level
  info_level : Level
  debug_level : Level

-- of an entry of logrus the field that the package reads, and the level
pub record Entry : Type 0 where
  pub message : String
  pub level : Level

-- `FormattedWriter`: a writer, given by its `Write`, and a formatter of logrus
pub record FormattedWriter (W : Type 0) : Type 0 where
  pub writer : String → Io W ℕ
  pub formatter : Entry → Result String

-- An `io.Writer`, as the type assertion in `Fire` sees it.
pub data Writer (W : Type 0) : Type 0 where
  formatted : FormattedWriter W → Writer W
  other_writer : (String → Io W ℕ) → Writer W

-- `LevelHook`
pub record LevelHook (W : Type 0) : Type 0 where
  pub writer : Writer W
  pub log_levels : List Level

-- What the package sets of the logger: its level, whether its own output is thrown away, and its
-- hooks.
pub record Logger (W : Type 0) : Type 0 where
  pub level : Level
  pub discards : Bool
  pub hooks : List (LevelHook W)

pub record Logs (W : Type 0) : Type 0 where
  pub logger : Logger W
  pub world : W

-- `Format` of `CustomTextFormatter`
unfoldable pub format : Entry → Result String
format entry = ok (entry.message <> "\n")

-- `Write` of `FormattedWriter`, which leaves the formatter out
unfoldable pub write : {W : Type 0} → FormattedWriter W → String → Io W ℕ
write f text = f.writer text

-- `Fire`
unfoldable pub fire : {W : Type 0} → LevelHook W → Entry → Io W (Unit {0})
fire hook entry = elim hook.writer [
  | formatted f ↦ (λ w. (f.formatter entry, w)) >>= λ bytes. f.writer bytes >> pure tt
  | other_writer target ↦ fail "writer is not a FormattedWriter"
]

-- `SetLevel`, on the text of a level: every other text is `info`
unfoldable pub level_of : String → Level
level_of text =
    if text == "debug"
    then debug_level
    else if text == "info"
    then info_level
    else if text == "warn"
    then warn_level
    else if text == "error"
    then error_level
    else info_level

module _ {W : Type 0} where
  unfoldable pub set_level : String → Logger W → Logger W
  unfolding level_of
  set_level text logger = record logger { level = level_of text }

  -- `SetDebugLevel` and `SetInfoLevel`
  unfoldable pub set_debug_level : Logger W → Logger W
  unfolding set_level
  set_debug_level logger = set_level "debug" logger

  unfoldable pub set_info_level : Logger W → Logger W
  unfolding set_level
  set_info_level logger = set_level "info" logger

  -- Logger.AddHook
  abbrev add_hook : LevelHook W → Logger W → Logger W
  add_hook hook logger = record logger { hooks = logger.hooks ++ (hook ∷ []) }

  -- the hook for the terminal
  unfoldable pub stdout_hook : (String → Io W ℕ) → LevelHook W
  unfolding format
  stdout_hook stdout = record {
    writer = formatted (record { writer = stdout; formatter = format });
    log_levels = info_level ∷ warn_level ∷ error_level ∷ fatal_level ∷ panic_level ∷ [];
  }

  -- the hook for the file, with the text formatter of logrus
  unfoldable pub file_hook : (Entry → Result String) → (String → Io W ℕ) → LevelHook W
  file_hook text_formatter file = record {
    writer = formatted (record { writer = file; formatter = text_formatter });
    log_levels =
        debug_level ∷ info_level ∷ warn_level ∷ error_level ∷ fatal_level ∷ panic_level ∷ [];
  }

  -- the directory and the file
  unfoldable pub open_log :
      (String → Io W (Unit {0})) → (String → Io W (String → Io W ℕ)) → Io W (String → Io W ℕ)
  open_log mkdir_all open_file =
      wrap "failed to create logs directory: " (mkdir_all "logs")
      >> wrap "failed to open log file: " (open_file "logs/debug.log")

  -- what follows once the file is open
  unfoldable pub add_hooks :
      (String → Io W ℕ) → (Entry → Result String) → (String → Io W ℕ) → Logger W → Logger W
  unfolding stdout_hook file_hook
  add_hooks stdout text_formatter file logger =
      add_hook (file_hook text_formatter file)
        (add_hook (stdout_hook stdout) (record logger { discards = true }))

  abbrev opened :
      (String → Io W ℕ)
      → (Entry → Result String)
      → Result (String → Io W ℕ)
      → Io (Logs W) (Unit {0})
  opened stdout text_formatter (ok file) l =
      (ok tt, record l { logger = add_hooks stdout text_formatter file l.logger })
  opened stdout text_formatter (err e) l = (err e, l)
  opened stdout text_formatter (panicked e) l = (panicked e, l)

  -- `InitLogging`
  unfoldable pub init_logging :
      (String → Io W (Unit {0}))
      → (String → Io W (String → Io W ℕ))
      → (String → Io W ℕ)
      → (Entry → Result String)
      → Io (Logs W) (Unit {0})
  unfolding open_log add_hooks
  init_logging mkdir_all open_file stdout text_formatter l =
      let (r, w) = open_log mkdir_all open_file l.world in
      opened stdout text_formatter r
        (record { logger = record (l.logger) { level = debug_level }; world = w })
