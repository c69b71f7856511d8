-- ===== src/Commands/Signals/Laws.antt =====
-- Shutting down happens once, and before an exit that a signal has caused.
use uberbase.Common.{ℕ, ◌≡◌, ◌≢◌, ◌≤◌, Bool, true, false}
use uberbase.Commands.Signals.{
  Handler, waiting, received, starting, stopping, exiting, returned, Process,
}

-- how often the script may have been started when the goroutine is here
abbrev starts : Handler → ℕ
starts waiting = 0
starts received = 0
starts starting = 0
starts stopping = 1
starts exiting = 1
starts returned = 0

abbrev is_down : Handler → Bool
is_down waiting = false
is_down received = false
is_down starting = true
is_down stopping = true
is_down exiting = true
is_down returned = false

record Inv (p : Process) : Type 0 where
  counted : p.stops ≤ starts p.handler
  flag : p.shutting_down ≡ is_down p.handler
  never : p.handler ≢ returned
