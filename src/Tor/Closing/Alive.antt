-- ===== src/Tor/Closing/Alive.antt =====
-- client/src/main/index.ts, with client/src/main/torProcess.ts: what holds of the application from
-- its launch to its end.
use umbra_gateway.Prelude.{
  ℕ, zero, suc, String, List, [], ◌∷◌, Bool, true, false, ◌≡◌, ◌≢◌, ◌⊎◌, inr, refl, arith,
  if◌then◌else◌,
}
use umbra_gateway.Tor.{
  runs, prints, fails, exits, times_out, Event, on_data, on_timeout, on_error, on_exit, initial,
  start_tor, spawn_arti, settle, step, stop_tor, stop_done,
}
use umbra_gateway.Tor.Startup.{App, continue_with, resume, launch, app_step}
use umbra_gateway.Tor.Closing.Heard.{
  Heard, process-Heard, close_tor-Heard, after_tor-Heard, launch-Heard,
}
use umbra_gateway.Tor.Closing.{
  Application, Life, running, all_closed, asked, crashed, on_process, AppEvent, output, failure,
  exit, timeout, closed, helios_off, tor_off, activated, quit_asked, start, quit_unless_darwin,
  close_windows, close_tor, after_helios, after_tor, activate, on_event, on_event_in, live,
  log_throws,
}

-- How the application ends, off macOS.
pub record Ends (s : Application) : Type 0 where
  -- it has a window, or it is about to quit, or it has quit
  pub leaves :
      s.reachable ≡ true
      → s.app.awaiting ≡ false
      → (s.app.window ≡ true) ⊎ (s.shutdowns ≢ 0) ⊎ (s.app.tor.stopping ≡ true) ⊎ (s.life ≢ running)
  -- it is about to quit only without a window
  pub closing : s.app.window ≡ true → (s.shutdowns ≡ 0) × (s.app.tor.stopping ≡ false)
  -- nothing was closed during the launch
  pub launching : s.app.awaiting ≡ true → (s.shutdowns ≡ 0) × (s.app.tor.stopping ≡ false)

pub record Alive (s : Application) : Type 0 where
  pub heard : Heard s.app
  pub ends : s.darwin ≡ false → Ends s
  -- it quits by itself only off macOS, and leaves no child behind that was not told to stop
  pub quits : s.life ≡ all_closed → (s.darwin ≡ false) × (s.app.tor.child ≢ runs)

-- what an event of the process does to the rest
record Moved (a a' : App) : Type 0 where
  kept : a'.tor.stopping ≡ a.tor.stopping
  gone : a.tor.child ≢ runs → a'.tor.child ≢ runs
  rest :
      ((a'.awaiting ≡ a.awaiting) × (a'.window ≡ a.window))
      ⊎ ((a.awaiting ≡ true) × (a'.awaiting ≡ false) × (a'.window ≡ true))

app_step-Moved :
    (a : App) (e : Event)
    → (step a.tor e).stopping ≡ a.tor.stopping
    → (a.tor.child ≢ runs → (step a.tor e).child ≢ runs)
    → Moved a (app_step a e)
unfolding app_step resume continue_with
app_step-Moved a e k g = ground arith

Moved-Alive :
    (s : Application) (a : App) → Alive s → Heard a → Moved s.app a → Alive (record s { app = a })
Moved-Alive s a v h m = record {
  heard = h;
  ends = λ d.
      let w = v.ends d in
      record { leaves = ground arith; closing = ground arith; launching = ground arith };
  quits = λ q. ((v.quits q).0, m.gone (v.quits q).1);
}

-- the application ends otherwise than by its windows
life-Alive :
    (s : Application) (l : Life)
    → l ≢ running
    → l ≢ all_closed
    → Alive s
    → Alive (record s { life = l })
life-Alive s l ended other v = record {
  heard = v.heard;
  ends = λ d.
      let w = v.ends d in
      record {
        leaves = λ r a. inr (inr (inr ended));
        closing = w.closing;
        launching = w.launching;
      };
  quits = λ q. absurd (other q);
}

process-Alive :
    (s : Application) (e : Event) (fails : Bool)
    → Alive s
    → Moved s.app (app_step s.app e)
    → Alive (if fails then record s { life = crashed } else record s { app = app_step s.app e })
process-Alive s e true v m = life-Alive s crashed (λ l. cc l) (λ l. cc l) v
process-Alive s e false v m = Moved-Alive s (app_step s.app e) v (process-Heard s.app e v.heard) m

closed-Alive : (helios : Bool) (s : Application) → Alive s → Alive (close_windows helios s)
unfolding close_windows
closed-Alive helios s v = ground arith

helios-Alive : (s : Application) (n : ℕ) → s.shutdowns ≡ n → Alive s → Alive (after_helios n s)
unfolding after_helios close_tor quit_unless_darwin stop_tor
helios-Alive s zero e v = v
helios-Alive s (suc n) e v = record {
  heard =
      close_tor-Heard (record s { shutdowns = n }) s.app.tor.arti_process
        (log_throws (record s { shutdowns = n })) v.heard;
  ends = λ d.
      let w = v.ends (ground arith) in
      record { leaves = ground arith; closing = ground arith; launching = ground arith };
  quits = ground arith;
}

tor-Alive : (s : Application) → Alive s → Alive (after_tor s)
unfolding after_tor quit_unless_darwin stop_done
tor-Alive s v = record {
  heard = after_tor-Heard s s.app.tor.stopping v.heard;
  ends = λ d.
      let w = v.ends (ground arith) in
      record { leaves = ground arith; closing = ground arith; launching = ground arith };
  quits = ground arith;
}

activated-Alive : (s : Application) → Alive s → Alive (activate s)
unfolding activate
activated-Alive s v = ground arith

on_event-Alive : (s : Application) (e : AppEvent) → Alive s → Alive (on_event s e)
unfolding on_event on_process step on_data on_timeout on_error on_exit
on_event-Alive s (output text) v =
    process-Alive s (prints text) _ v (app_step-Moved _ _ (ground arith) (λ g. ground arith))
on_event-Alive s (failure message) v =
    process-Alive s (fails message) _ v (app_step-Moved _ _ (ground arith) (λ g. ground arith))
on_event-Alive s (exit how) v =
    process-Alive s (exits how) _ v (app_step-Moved _ _ (ground arith) (λ g. ground arith))
on_event-Alive s timeout v =
    process-Alive s times_out _ v (app_step-Moved _ _ (ground arith) (λ g. ground arith))
on_event-Alive s (closed helios) v = closed-Alive helios s v
on_event-Alive s helios_off v = helios-Alive s s.shutdowns refl v
on_event-Alive s tor_off v = tor-Alive s v
on_event-Alive s activated v = activated-Alive s v
on_event-Alive s quit_asked v = life-Alive s asked (λ l. cc l) (λ l. cc l) v

on_event_in-Alive :
    (l : Life) (s : Application) (e : AppEvent) → Alive s → Alive (on_event_in l s e)
unfolding on_event_in
on_event_in-Alive running s e v = on_event-Alive s e v
on_event_in-Alive all_closed s e v = v
on_event_in-Alive asked s e v = v
on_event_in-Alive crashed s e v = v

Alive-live : (s : Application) (es : List AppEvent) → Alive s → Alive (live s es)
unfolding live
Alive-live s [] v = v
Alive-live s (e ∷ es) v = Alive-live (on_event_in s.life s e) es (on_event_in-Alive s.life s e v)

launch-Ends :
    (open_port binary darwin reachable : Bool) (path : String)
    → Ends (start open_port binary darwin reachable path)
unfolding start launch resume continue_with start_tor spawn_arti initial settle
launch-Ends true binary darwin reachable path = ground arith
launch-Ends false true darwin reachable path = ground arith
launch-Ends false false darwin reachable path = ground arith

start-Alive :
    (open_port binary darwin reachable : Bool) (path : String)
    → Alive (start open_port binary darwin reachable path)
unfolding start
start-Alive open_port binary darwin reachable path = record {
  heard = launch-Heard open_port binary path;
  ends = λ d. launch-Ends open_port binary darwin reachable path;
  quits = λ l. cc l;
}

-- From the launch on, whatever the process does, and whenever the windows are closed, the waits of
-- the handler end, and the application is activated or asked to quit: the timeout is set only while
-- `startTor` is awaited, the variable of the process goes with the managed port, and after a stop the
-- variables are as at the start. While the launch waits no window is open; afterwards requests go to the port that
-- `startTor` gave, or to port 9050 if it failed. The application quits by itself only off macOS, and
-- only when the child was not spawned, was sent SIGTERM, or has exited. Off macOS, while a window is open the handler does not wait, and, if messages
-- to a closed window do not throw, the application never stays without a window after the launch: one
-- is open, or the handler waits, or the application has ended.
pub live-Alive :
    (open_port binary darwin reachable : Bool) (path : String) (es : List AppEvent)
    → Alive (live (start open_port binary darwin reachable path) es)
live-Alive open_port binary darwin reachable path es =
    Alive-live _ es (start-Alive open_port binary darwin reachable path)
