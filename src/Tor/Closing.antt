-- ===== src/Tor/Closing.antt =====
-- client/src/main/index.ts: the life of the application after its launch, up to its end: the handler
-- of `window-all-closed`, which stops the light client and Tor and quits except on macOS, and that
-- of `activate`. Electron emits `activate` on macOS only, and it does not emit `window-all-closed`
-- when the user asks it to quit.
pub mod Heard
pub mod Alive
pub mod Reopened
pub mod Stuck
use umbra_gateway.Prelude.{
  ℕ, zero, suc, String, List, [], ◌∷◌, Bool, true, false, not, ◌&&◌, if◌then◌else◌, length, ◌==◌,
}
use umbra_gateway.Tor.{Tor, Event, step, prints, fails, exits, times_out, stop_tor, stop_done}
use umbra_gateway.Tor.Startup.{App, launch, app_step}

-- Whether the application runs, has quit since its windows were closed or because it was asked to, or
-- has ended by an error that nothing catches.
pub data Life : Type 0 where
  running all_closed asked crashed : Life

-- `shutdowns` counts the calls of the handler of `window-all-closed` that wait for
-- `shutdownHelios`. A call that waits for `stopTor` is the flag `stopping` of the process. The logger
-- keeps a window that is closed; `reachable` is whether Electron lets a message be sent to it, or
-- throws.
pub record Application : Type 0 where
  pub app : App
  pub darwin : Bool
  pub reachable : Bool
  pub shutdowns : ℕ
  pub life : Life

unfoldable pub start : (open_port binary darwin reachable : Bool) → String → Application
start open_port binary darwin reachable path = record {
  app = launch open_port binary path;
  darwin = darwin;
  reachable = reachable;
  shutdowns = 0;
  life = running;
}

unfoldable pub quit_unless_darwin : Application → Application
quit_unless_darwin s = if s.darwin then s else record s { life = all_closed }

-- `log` throws once the window of the logger is closed
abbrev pub log_throws : Application → Bool
log_throws s = not s.reachable && not s.app.window

-- the last window is closed, and the handler calls `shutdownHelios`, which logs if there is a light
-- client
unfoldable pub close_windows : Bool → Application → Application
close_windows helios s =
    let s1 : Application = record s { app = record s.app { window = false } } in
    if s.app.window
    then (if helios && log_throws s1 then s1 else record s1 { shutdowns = suc s.shutdowns })
    else s

-- the handler calls `stopTor`, which returns at once if no process runs, and logs before it kills
-- the process
unfoldable pub close_tor : Application → Application
unfolding quit_unless_darwin
close_tor s =
    if s.app.tor.arti_process
    then (if log_throws s then s else record s { app = record s.app { tor = stop_tor s.app.tor } })
    else quit_unless_darwin s

-- a call of `shutdownHelios` ends
unfoldable pub after_helios : ℕ → Application → Application
unfolding close_tor
after_helios zero s = s
after_helios (suc n) s = close_tor (record s { shutdowns = n })

-- the call of `stopTor` ends
unfoldable pub after_tor : Application → Application
unfolding quit_unless_darwin
after_tor s =
    if s.app.tor.stopping
    then quit_unless_darwin (record s { app = record s.app { tor = stop_done s.app.tor } })
    else s

-- The handler of `activate` is set when the launch is over.
unfoldable pub activate : Application → Application
activate s =
    if s.darwin && not s.app.awaiting && not s.app.window
    then record s { app = record s.app { window = true } }
    else s

-- whether the handler of an event of the process logs
unfoldable pub logs : Tor → Event → Bool
logs t e = not (length (step t e).log == length t.log)

-- An event of the process. An error that its handler throws is thrown again by the handler of
-- `uncaughtException`, as it is no panic of the light client.
unfoldable pub on_process : Event → Application → Application
unfolding logs
on_process e s =
    if log_throws s && not s.app.awaiting && logs s.app.tor e
    then record s { life = crashed }
    else record s { app = app_step s.app e }

-- What the process does, and what Electron and the user do.
pub data AppEvent : Type 0 where
  output failure exit : String → AppEvent
  closed : Bool → AppEvent
  timeout helios_off tor_off activated quit_asked : AppEvent

unfoldable pub on_event : Application → AppEvent → Application
unfolding on_process close_windows after_helios after_tor activate
on_event s (output text) = on_process (prints text) s
on_event s (failure message) = on_process (fails message) s
on_event s (exit how) = on_process (exits how) s
on_event s timeout = on_process times_out s
on_event s (closed helios) = close_windows helios s
on_event s helios_off = after_helios s.shutdowns s
on_event s tor_off = after_tor s
on_event s activated = activate s
on_event s quit_asked = record s { life = asked }

-- nothing happens once the application has quit
unfoldable pub on_event_in : Life → Application → AppEvent → Application
unfolding on_event
on_event_in running s e = on_event s e
on_event_in all_closed s e = s
on_event_in asked s e = s
on_event_in crashed s e = s

unfoldable pub live : Application → List AppEvent → Application
unfolding on_event_in
live s [] = s
live s (e ∷ es) = live (on_event_in s.life s e) es
