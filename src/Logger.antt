-- ===== src/Logger.antt =====
-- client/src/main/logger.ts: log entries reach the window, or wait for it.
pub mod Delivery
pub mod Examples
use umbra_gateway.Prelude.{String, List, [], ◌∷◌, ◌++◌, Bool, true, false, if◌then◌else◌}
use umbra_gateway.Prelude.Text.{append}
use umbra_gateway.X402.Types.{LogEntry, Direction, out, into, info, error}

-- `window` is whether one is set, `flushing` whether a flush waits for the end of its loading;
-- `sent` and `printed` hold what went to the window and to the console, the oldest first.
pub record Logger : Type 0 where
  pub window : Bool
  pub flushing : Bool
  pub buffer : List LogEntry
  pub sent : List LogEntry
  pub printed : List String

abbrev pub initial : Logger
initial = record { window = false; flushing = false; buffer = []; sent = []; printed = [] }

abbrev direction_prefix : Direction → String
direction_prefix out = "→"
direction_prefix into = "←"
direction_prefix info = "·"
direction_prefix error = "✗"

unfoldable pub flush : Logger → Logger
flush l = record l { sent = l.sent ++ l.buffer; buffer = [] }

abbrev on_window : Bool → Logger → List LogEntry → Logger
on_window loading l [] = l
on_window loading l (e ∷ es) = if loading then record l { flushing = true } else flush l

-- `loading` is what the window's `isLoading` answers.
unfoldable pub set_log_window : Bool → Logger → Logger
unfolding flush
set_log_window loading l = on_window loading (record l { window = true }) l.buffer

unfoldable pub emit_log : LogEntry → Logger → Logger
emit_log entry l =
    let l1 : Logger = record l {
      printed =
          l.printed
          ++ append "[log] " (append (direction_prefix entry.direction) (append " " entry.message))
            ∷ [];
    } in
    if l.window
    then record l1 { sent = l1.sent ++ entry ∷ [] }
    else record l1 { buffer = l1.buffer ++ entry ∷ [] }

-- the window has loaded
unfoldable pub did_finish_load : Logger → Logger
unfolding flush
did_finish_load l = if l.flushing then flush (record l { flushing = false }) else l

pub data Event : Type 0 where
  emits : LogEntry → Event
  opens : Bool → Event
  loads : Event

unfoldable pub step : Logger → Event → Logger
unfolding emit_log set_log_window did_finish_load
step l (emits entry) = emit_log entry l
step l (opens loading) = set_log_window loading l
step l loads = did_finish_load l

pub run : Logger → List Event → Logger
unfolding step
run l [] = l
run l (e ∷ es) = run (step l e) es
