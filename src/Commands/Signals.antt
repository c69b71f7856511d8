-- ===== src/Commands/Signals.antt =====
-- uberbase/cmd/uberbase/main.go: the command runs while another goroutine waits for a signal. What
-- the two do is interleaved in every order.
pub mod Laws
use uberbase.Common.{ℕ, suc, ◌≡◌, ◌≢◌, Bool, true, false, Option, none, some}

-- syscall.SIGINT and syscall.SIGTERM
pub data Signal : Type 0 where
  interrupt : Signal
  terminate : Signal

-- the goroutine: before `<-quit`, after it, before the script ./bin/stop is started, while it runs,
-- after it, and returned
pub data Handler : Type 0 where
  waiting : Handler
  received : Handler
  starting : Handler
  stopping : Handler
  exiting : Handler
  returned : Handler

-- `quit` has room for one signal. `stops` counts the starts of ./bin/stop, and `status` is the one
-- that the process has exited with.
pub record Process : Type 0 where
  pub quit : Option Signal
  pub shutting_down : Bool
  pub handler : Handler
  pub stops : ℕ
  pub status : Option ℕ

-- A step of the process, while it has not exited.
pub data Step : Process → Process → Type 0 where
  -- signal.Notify does not wait: a signal that finds the channel full is dropped.
  notify :
      {p : Process} (signal : Signal)
      → p.status ≡ none
      → p.quit ≡ none
      → Step p (record p { quit = some signal })
  drop : {p : Process} (signal held : Signal) → p.status ≡ none → p.quit ≡ some held → Step p p
  receive :
      {p : Process} (signal : Signal)
      → p.status ≡ none
      → p.handler ≡ waiting
      → p.quit ≡ some signal
      → Step p (record p { quit = none; handler = received })
  -- `if shuttingDown { return }`
  already :
      {p : Process}
      → p.status ≡ none
      → p.handler ≡ received
      → p.shutting_down ≡ true
      → Step p (record p { handler = returned })
  -- `shuttingDown = true`
  shut_down :
      {p : Process}
      → p.status ≡ none
      → p.handler ≡ received
      → p.shutting_down ≡ false
      → Step p (record p { shutting_down = true; handler = starting })
  -- `Run` starts the script
  run :
      {p : Process}
      → p.status ≡ none
      → p.handler ≡ starting
      → Step p (record p { handler = stopping; stops = suc p.stops })
  -- `Run` cannot start it; the error is logged and dropped, as that of the script is.
  not_started :
      {p : Process}
      → p.status ≡ none
      → p.handler ≡ starting
      → Step p (record p { handler = exiting })
  -- The script has ended.
  stopped :
      {p : Process}
      → p.status ≡ none
      → p.handler ≡ stopping
      → Step p (record p { handler = exiting })
  exit :
      {p : Process} → p.status ≡ none → p.handler ≡ exiting → Step p (record p { status = some 0 })
  -- the end of `main`, with or without an error of the command
  finish : {p : Process} → p.status ≡ none → Step p (record p { status = some 0 })
  fail : {p : Process} → p.status ≡ none → Step p (record p { status = some 1 })

-- after `setupSignalHandling`
abbrev pub set_up : Process
set_up = record { quit = none; shutting_down = false; handler = waiting; stops = 0; status = none }

pub data Reach : Process → Type 0 where
  begin : Reach set_up
  next : {p q : Process} → Reach p → Step p q → Reach q
