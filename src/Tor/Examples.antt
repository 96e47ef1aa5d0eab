-- ===== src/Tor/Examples.antt =====
-- client/src/main/torProcess.ts: the theorems at runs of the process.
use umbra_gateway.Prelude.{Bool, false, ◌≢◌, String, List, [], ◌∷◌, true, false, ◌≡◌, refl}
use umbra_gateway.Tor.{
  step, Tor, Event, prints, exits, times_out, asks_stop, ends_stop, initial, start_tor, run,
}
use umbra_gateway.Tor.Lifecycle.{verdict, started_verdict}
use umbra_gateway.Tor.Startup.{launch, app_step}
use umbra_gateway.Prelude.Text.{includes}
use umbra_gateway.Tor.Closing.{
  Application, AppEvent, output, exit, timeout, closed, helios_off, tor_off, activated, quit_asked,
  all_closed, start, live,
}
use umbra_gateway.Tor.Closing.Alive.{Alive, live-Alive}
use umbra_gateway.Tor.Closing.Stuck.{closing, never_quits}

abbrev ready_text : String
ready_text = "Sufficiently bootstrapped"

abbrev events : List Event
events =
    prints "ERROR guard" ∷ prints ready_text ∷ times_out ∷ asks_stop ∷ exits "0" ∷ ends_stop ∷ []

started_verdict_example :
    (run (start_tor false true "arti" initial) events).started ≡ verdict events
unfolding start_tor initial
started_verdict_example = started_verdict (start_tor false true "arti" initial) events refl refl

abbrev spawned : Tor
spawned = start_tor false true "arti" initial

abbrev session : List AppEvent
session =
    output "ERROR guard"
    ∷ output ready_text
    ∷ timeout
    ∷ closed true
    ∷ helios_off
    ∷ exit "0"
    ∷ tor_off
    ∷ []

-- off macOS the application has quit once its windows are closed
session_quits : (live (start false true false true "arti") session).life ≡ all_closed
unfolding live start launch app_step start_tor initial step includes
session_quits = refl

live-Alive_example : Alive (live (start false true false true "arti") session)
live-Alive_example = live-Alive false true false true "arti" session

-- the application on macOS or elsewhere, where messages to a closed window throw or not
abbrev opened : (darwin reachable : Bool) → Application
opened darwin reachable = live (start false true darwin reachable "arti") (output ready_text ∷ [])

abbrev afterwards : List AppEvent
afterwards = output ready_text ∷ closed false ∷ activated ∷ quit_asked ∷ []

never_quits_example :
    let s' = live (opened false false) (closing false) in
    (s'.app.tor.arti_process ≡ true)
    × ((live s' afterwards).app.window ≡ false)
    × ((live s' afterwards).life ≢ all_closed)
unfolding live start launch app_step start_tor initial step includes
never_quits_example =
    never_quits false (opened false false) afterwards refl refl refl refl refl refl (refl, refl)
