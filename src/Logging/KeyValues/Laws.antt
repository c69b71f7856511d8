-- ===== src/Logging/KeyValues/Laws.antt =====
-- The lines of `LogKeyValues` are aligned.
use Prim.Native.String.{[], ◌∷◌}
use text.Mathlib.TextLemmas.{nil-append, cons-append}
use uberbase.Common.{
  ap, ℕ, zero, suc, ◌+◌, ◌-◌, ◌≤◌, ltb, String, ◌<>◌, ◌≡◌, refl, All, List, [], ◌∷◌, map,
  if◌then◌else◌, arith,
}
use uberbase.Common.Effect.{ok}
use uberbase.Logging.KeyValues.{
  byte_length, spaces, max_key_len, pad, line, log_line, log_lines, log_key_values, say,
}

module _ {W : Type 0} (info : String → W → W) where
  longest_start : (longest : ℕ) (kvs : List (String × String)) → longest ≤ max_key_len longest kvs
  unfolding max_key_len
  longest_start longest [] = omega arith
  longest_start longest ((key, value) ∷ kvs) = ground (
    arith,
    longest_start (if ltb longest (byte_length key) then byte_length key else longest) kvs,
  )

  -- the first loop finds a length that is none too short
  max_key_len-All :
      (longest : ℕ) (kvs : List (String × String))
      → All (λ kv. byte_length kv.0 ≤ max_key_len longest kvs) kvs
  unfolding max_key_len
  max_key_len-All longest [] = tt
  max_key_len-All longest ((key, value) ∷ kvs) =
      let next = if ltb longest (byte_length key) then byte_length key else longest in
      (ground (arith, longest_start next kvs), max_key_len-All next kvs)

  byte_length-append : (s t : String) → byte_length (s <> t) ≡ byte_length s + byte_length t
  unfolding byte_length
  byte_length-append [] t = omega (arith, ap byte_length (nil-append t))
  byte_length-append (c ∷ s) t =
      omega (arith, ap byte_length (cons-append c s t), byte_length-append s t)

  byte_length-spaces : (n : ℕ) → byte_length (spaces n) ≡ n
  unfolding byte_length spaces
  byte_length-spaces zero = refl
  byte_length-spaces (suc n) =
      omega (arith, byte_length-append " " (spaces n), byte_length-spaces n)

  byte_length-pad :
      (longest : ℕ) (key : String)
      → byte_length key ≤ longest
      → byte_length (pad longest key) ≡ longest
  unfolding pad
  byte_length-pad longest key h = omega (
    arith,
    h,
    byte_length-append key (spaces (longest - byte_length key)),
    byte_length-spaces (longest - byte_length key),
  )

  log_lines-say :
      (longest : ℕ) (kvs : List (String × String)) (w : W)
      → All (λ kv. byte_length kv.0 ≤ longest) kvs
      → (log_lines info longest kvs w ≡ (ok tt, say info (map (line longest) kvs) w))
        × All (λ kv. byte_length (pad longest kv.0) ≡ longest) kvs
  unfolding log_lines log_line
  log_lines-say longest [] w h = (refl, tt)
  log_lines-say longest (kv ∷ kvs) w (h, hs) =
      let (rest, aligned) = log_lines-say longest kvs (info (line longest kv) w) hs in
      (ground (arith, rest), (byte_length-pad longest kv.0 h, aligned))

  -- `LogKeyValues` never panics: it logs the message and a line for each pair, in which the key and
  -- its padding are as long in bytes as those of every other line.
  pub log_key_values_lem :
      (message : String) (kvs : List (String × String)) (w : W)
      → (log_key_values info message kvs w
          ≡ (ok tt, say info (message ∷ map (line (max_key_len 0 kvs)) kvs) w))
        × All (λ kv. byte_length (pad (max_key_len 0 kvs) kv.0) ≡ max_key_len 0 kvs) kvs
  unfolding log_key_values
  log_key_values_lem message kvs w =
      log_lines-say (max_key_len 0 kvs) kvs (info message w) (max_key_len-All 0 kvs)
