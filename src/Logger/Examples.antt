-- ===== src/Logger/Examples.antt =====
-- client/src/main/logger.ts: a run with two entries.
use umbra_gateway.Prelude.{List, [], ◌∷◌, true, ◌≡◌, refl}
use umbra_gateway.X402.Types.{LogEntry, info, error}
use umbra_gateway.Logger.{
  initial, Event, emits, opens, loads, run, step, emit_log, set_log_window, did_finish_load, flush,
}

abbrev first : LogEntry
first = record { ts = 1; direction = info; message = "spawning arti" }

abbrev second : LogEntry
second = record { ts = 2; direction = error; message = "bootstrap timed out" }

abbrev events : List Event
events = emits first ∷ opens true ∷ emits second ∷ loads ∷ []

-- the older entry comes second
overtaken : (run initial events).sent ≡ second ∷ first ∷ []
unfolding run step emit_log set_log_window did_finish_load flush
overtaken = refl
