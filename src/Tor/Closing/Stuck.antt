-- ===== src/Tor/Closing/Stuck.antt =====
-- client/src/main/index.ts, with client/src/main/logger.ts: a handler of `window-all-closed` that
-- fails, as it logs to the window that was closed.
use umbra_gateway.Prelude.{List, [], ◌∷◌, Bool, true, false, ◌≡◌, ◌≢◌, if◌then◌else◌, arith}
use umbra_gateway.Tor.{
  Event, step, stop_tor, stop_done, prints, fails, exits, times_out, on_data, on_timeout, on_error,
  on_exit,
}
use umbra_gateway.Tor.Startup.{app_step, resume}
use umbra_gateway.Tor.Closing.{
  Application, Life, running, all_closed, asked, crashed, AppEvent, output, failure, exit, timeout,
  closed, helios_off, tor_off, activated, quit_asked, quit_unless_darwin, close_windows, close_tor,
  after_helios, after_tor, activate, on_process, on_event, on_event_in, live,
}

-- no window, and no call of the handler that could still end
pub record Stuck (s : Application) : Type 0 where
  pub other : s.darwin ≡ false
  pub window : s.app.window ≡ false
  pub launched : s.app.awaiting ≡ false
  pub closing : (s.shutdowns ≡ 0) × (s.app.tor.stopping ≡ false)
  pub life : s.life ≢ all_closed

on_process-Stuck :
    (s : Application) (e : Event) (fails : Bool)
    → (step s.app.tor e).stopping ≡ s.app.tor.stopping
    → Stuck s
    → Stuck (if fails then record s { life = crashed } else record s { app = app_step s.app e })
unfolding app_step resume
on_process-Stuck s e true k v = ground arith
on_process-Stuck s e false k v = ground arith

on_event-Stuck : (s : Application) (e : AppEvent) → Stuck s → Stuck (on_event s e)
unfolding on_event on_process close_windows after_helios close_tor quit_unless_darwin after_tor
    activate stop_tor stop_done step on_data on_timeout on_error on_exit
on_event-Stuck s (output text) v = on_process-Stuck s (prints text) _ (ground arith) v
on_event-Stuck s (failure message) v = on_process-Stuck s (fails message) _ (ground arith) v
on_event-Stuck s (exit how) v = on_process-Stuck s (exits how) _ (ground arith) v
on_event-Stuck s timeout v = on_process-Stuck s times_out _ (ground arith) v
on_event-Stuck s (closed helios) v = ground arith
on_event-Stuck s helios_off v = ground arith
on_event-Stuck s tor_off v = ground arith
on_event-Stuck s activated v = ground arith
on_event-Stuck s quit_asked v = ground arith

on_event_in-Stuck :
    (l : Life) (s : Application) (e : AppEvent) → Stuck s → Stuck (on_event_in l s e)
unfolding on_event_in
on_event_in-Stuck running s e v = on_event-Stuck s e v
on_event_in-Stuck all_closed s e v = v
on_event_in-Stuck asked s e v = v
on_event_in-Stuck crashed s e v = v

live-Stuck : (s : Application) (es : List AppEvent) → Stuck s → Stuck (live s es)
unfolding live
live-Stuck s [] v = v
live-Stuck s (e ∷ es) v = live-Stuck (on_event_in s.life s e) es (on_event_in-Stuck s.life s e v)

-- the last window is closed, and the wait for the light client ends, if the handler has come to it
abbrev pub closing : Bool → List AppEvent
closing helios = closed helios ∷ helios_off ∷ []

closing-Stuck :
    (helios : Bool) (s : Application)
    → s.darwin ≡ false
    → s.reachable ≡ false
    → s.life ≡ running
    → s.app.window ≡ true
    → s.app.awaiting ≡ false
    → s.app.tor.arti_process ≡ true
    → (s.shutdowns ≡ 0) × (s.app.tor.stopping ≡ false)
    → Stuck (live s (closing helios))
unfolding live on_event_in on_event close_windows after_helios close_tor
closing-Stuck helios s d c l w a p z = ground arith

-- Off macOS, where messages to a closed window throw, with a window open and the process of the
-- launch running: when the last window is closed, the handler ends before the process is stopped.
-- From then on there is no window, and whatever happens the application does not quit by itself.
pub never_quits :
    (helios : Bool) (s : Application) (es : List AppEvent)
    → s.darwin ≡ false
    → s.reachable ≡ false
    → s.life ≡ running
    → s.app.window ≡ true
    → s.app.awaiting ≡ false
    → s.app.tor.arti_process ≡ true
    → (s.shutdowns ≡ 0) × (s.app.tor.stopping ≡ false)
    → let s' = live s (closing helios) in
      (s'.app.tor.arti_process ≡ true)
      × ((live s' es).app.window ≡ false)
      × ((live s' es).life ≢ all_closed)
unfolding live on_event_in on_event close_windows after_helios close_tor
never_quits helios s es d c l w a p z =
    let v = live-Stuck (live s (closing helios)) es (closing-Stuck helios s d c l w a p z) in
    (ground arith, v.window, v.life)
