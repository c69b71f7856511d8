-- ===== src/Logging/KeyValues.antt =====
-- `LogKeyValues` of uberbase/pkg/logging/logging.go: a message and aligned pairs.
pub mod Laws
use Prim.Native.Char.{Char, code}
use Prim.Native.String.{[], ◌∷◌}
use uberbase.Common.{ℕ, zero, suc, ◌+◌, ◌-◌, ltb, String, ◌<>◌, List, [], ◌∷◌, if◌then◌else◌}
use uberbase.Common.Effect.{here, Result, ok, err, panicked, Io, pure, ◌>>=◌, ◌>>◌}

-- `len` of a Go string: the bytes of its UTF-8
abbrev char_bytes : Char → ℕ
char_bytes c =
    if ltb (code c) 128
    then 1
    else if ltb (code c) 2048
    then 2
    else if ltb (code c) 65536
    then 3
    else 4

unfoldable pub byte_length : String → ℕ
byte_length [] = 0
byte_length (c ∷ s) = char_bytes c + byte_length s

-- strings.Repeat of a space, which panics at a negative count
unfoldable pub spaces : ℕ → String
spaces zero = ""
spaces (suc n) = " " <> spaces n

-- the first loop of `LogKeyValues`, from the length that is the longest so far
unfoldable pub max_key_len : ℕ → List (String × String) → ℕ
unfolding byte_length
max_key_len longest [] = longest
max_key_len longest ((key, value) ∷ kvs) =
    max_key_len (if ltb longest (byte_length key) then byte_length key else longest) kvs

-- the padding of a key, and what a line prints
abbrev pub pad : ℕ → String → String
unfolding byte_length spaces
pad longest key = key <> spaces (longest - byte_length key)

abbrev pub line : ℕ → String × String → String
line longest (key, value) = pad longest key <> (": " <> value)

-- `info` is `Info` of the logger, which has no result.
module _ {W : Type 0} (info : String → W → W) where
  -- one round of the second loop
  log_line : ℕ → String × String → Io W (Unit {0})
  unfolding byte_length spaces
  log_line longest kv w =
      if ltb longest (byte_length kv.0)
      then (panicked (here "strings: negative Repeat count"), w)
      else (ok tt, info (line longest kv) w)

  log_lines : ℕ → List (String × String) → Io W (Unit {0})
  unfolding log_line
  log_lines longest [] = pure tt
  log_lines longest (kv ∷ kvs) = log_line longest kv >> log_lines longest kvs

  -- `LogKeyValues`
  unfoldable pub log_key_values : String → List (String × String) → Io W (Unit {0})
  unfolding log_lines max_key_len
  log_key_values message kvs w = log_lines (max_key_len 0 kvs) kvs (info message w)

  -- `Info` of one text after the other
  abbrev pub say : List String → W → W
  say [] w = w
  say (text ∷ texts) w = say texts (info text w)
