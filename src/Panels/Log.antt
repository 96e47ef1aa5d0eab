-- ===== src/Panels/Log.antt =====
-- client/src/main/logger.ts, the events of client/src/preload/index.ts, client/src/renderer/App.tsx
-- and components/ActivityLog.tsx: the way of a log entry from the main process to the panel. What
-- the main process sends arrives before the page does anything else; a page has the listeners that it
-- has subscribed, and what arrives without one is dropped.
pub mod Shown
pub mod Examples
use umbra_gateway.Prelude.{ℕ, zero, suc, String, List, [], ◌∷◌, ◌++◌, Option, none, some, Bool, map}
use umbra_gateway.X402.Types.{LogEntry, Direction, out, into, info, error}
use umbra_gateway.Logger.{Logger, initial, Event, emits, opens, loads, step}

-- `listeners` are those of the page on the channel of the log, `logs` the state of `App`.
pub record Screen : Type 0 where
  pub logger : Logger
  pub listeners : ℕ
  pub logs : List LogEntry

unfoldable pub blank : Screen
blank = record { logger = initial; listeners = 0; logs = [] }

-- each listener appends the entry
unfoldable pub on_log : ℕ → LogEntry → List LogEntry → List LogEntry
on_log zero entry logs = logs
on_log (suc n) entry logs = on_log n entry (logs ++ entry ∷ [])

unfoldable pub arrive : ℕ → List LogEntry → List LogEntry → List LogEntry
unfolding on_log
arrive n [] logs = logs
arrive n (entry ∷ entries) logs = arrive n entries (on_log n entry logs)

-- what a list has beyond another one that it begins with
abbrev pub beyond : List LogEntry → List LogEntry → List LogEntry
beyond [] ys = ys
beyond (x ∷ xs) [] = []
beyond (x ∷ xs) (y ∷ ys) = beyond xs ys

-- A step of the logger, with what it sends; `fresh` is the page that it is sent to.
unfoldable pub send : Logger → Screen → Screen
unfolding arrive
send l fresh = record fresh {
  logger = l;
  logs = arrive fresh.listeners (beyond fresh.logger.sent l.sent) fresh.logs;
}

-- The main process logs, opens a window, with a page of its own, or hears that it has loaded; the
-- page mounts `App`, or unmounts it, as React does twice in its strict mode.
pub data ScreenEvent : Type 0 where
  main : Event → ScreenEvent
  mounts unmounts : ScreenEvent

abbrev remove_one : ℕ → ℕ
remove_one zero = zero
remove_one (suc n) = n

unfoldable pub on_screen : Screen → ScreenEvent → Screen
unfolding send
on_screen s (main (emits entry)) = send (step s.logger (emits entry)) s
on_screen s (main (opens loading)) =
    send (step s.logger (opens loading)) (record s { listeners = 0; logs = [] })
on_screen s (main loads) = send (step s.logger loads) s
on_screen s mounts = record s { listeners = suc s.listeners }
on_screen s unmounts = record s { listeners = remove_one s.listeners }

unfoldable pub show : Screen → List ScreenEvent → Screen
unfolding on_screen
show s [] = s
show s (e ∷ es) = show (on_screen s e) es

abbrev pub direction_class : Direction → String
direction_class out = "log-out"
direction_class into = "log-in"
direction_class info = "log-info"
direction_class error = "log-error"

pub record Line : Type 0 where
  pub class : String
  pub time : String
  pub message : String

module _ (format_time : ℕ → String) where
  unfoldable pub line : LogEntry → Line
  line entry = record {
    class = direction_class entry.direction;
    time = format_time entry.ts;
    message = entry.message;
  }

  -- what `ActivityLog` draws: the lines, or the text for none
  unfoldable pub activity_log : List LogEntry → Option (List Line)
  unfolding line
  activity_log [] = none
  activity_log (entry ∷ entries) = some (map line (entry ∷ entries))
