-- ===== src/Tor/Closing/Reopened.antt =====
-- client/src/main/index.ts, with client/src/main/torProcess.ts: a window that is opened again after
-- all of them were closed, on macOS.
use umbra_gateway.Prelude.{Bool, ℕ, List, [], ◌∷◌, none, true, false, ◌≡◌}
use umbra_gateway.Tor.Startup.{App}
use umbra_gateway.Tor.Closing.{Application, AppEvent, closed, helios_off, tor_off, activated}

-- nothing is left of the process, and requests go to the port of before
pub record Gone (port : ℕ) (a : App) : Type 0 where
  pub no_process : a.tor.arti_process ≡ false
  pub no_port : a.tor.active_socks_port ≡ none
  pub launched : a.awaiting ≡ false
  pub port_kept : a.socks_port ≡ port

-- the last window is closed, both waits of the handler end, and the application is activated
abbrev pub reopening : Bool → List AppEvent
reopening helios = closed helios ∷ helios_off ∷ tor_off ∷ activated ∷ []

record Reopened (s s' : Application) : Type 0 where
  window : s'.app.window ≡ true
  gone : Gone s.app.socks_port s'.app
