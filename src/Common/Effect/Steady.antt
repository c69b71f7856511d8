-- ===== src/Common/Effect/Steady.antt =====
-- Hosts on which a command always has the same answer.
use Prim.Native.String.{String}
use mathlib.Core.Path.{◌≡◌}
use mathlib.Core.Bool.{Bool, true, false}
use uberbase.Common.Effect.{Result, ok, panicked, Io}

-- A host whose answers depend on the command alone.
abbrev pub steady : {W : Type 0} → (String → Result String) → String → Io W String
steady answer cmd w = (answer cmd, w)

abbrev pub works : Result String → Bool
works (ok output) = true
works _ = false

-- Nothing on the host panics.
abbrev pub panics : Result String → Bool
panics (panicked text) = true
panics _ = false

abbrev pub IsCalm : (String → Result String) → Type 0
IsCalm answer = (cmd : String) → panics (answer cmd) ≡ false
