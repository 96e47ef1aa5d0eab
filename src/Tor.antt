-- ===== src/Tor.antt =====
-- client/src/main/torProcess.ts: the arti child process, as a machine that moves at each call of
-- the module and at each event of the process and of its timers.
pub mod Startup
pub mod Lifecycle
pub mod Closing
pub mod Examples
use umbra_gateway.Prelude.{
  ℕ, String, Option, none, some, List, [], ◌∷◌, Bool, true, false, not, ◌||◌, is_some,
  if◌then◌else◌,
}
use umbra_gateway.Prelude.Text.{append, includes, trim, show_ℕ, ◌===◌}

abbrev pub socks_external_port : ℕ
socks_external_port = 9050

abbrev pub socks_managed_port : ℕ
socks_managed_port = 9150

pub data TorStatus : Type 0 where
  stopped bootstrapping ready error : TorStatus

-- The promise that `startTor` returned: not settled, or settled for good.
pub data Started : Type 0 where
  pending : Started
  resolved : ℕ → Started
  rejected : String → Started

-- What has become of the child itself, which the module does not know: `signalled` is one that was sent
-- SIGTERM and has not exited yet.
pub data Child : Type 0 where
  unborn runs signalled exited : Child

unfoldable pub signal : Child → Child
signal runs = signalled
signal child = child

-- `timer` is the bootstrap timeout while it is set, `stopping` a call of `stopTor` that waits for
-- the process to exit. `log` and `printed` hold the newest entry first.
pub record Tor : Type 0 where
  pub child : Child
  pub arti_process : Bool
  pub active_socks_port : Option ℕ
  pub status : TorStatus
  pub bootstrap_percent : ℕ
  pub started : Started
  pub timer : Bool
  pub stopping : Bool
  pub log : List (Bool × String)
  pub printed : List String

unfoldable pub initial : Tor
initial = record {
  child = unborn;
  arti_process = false;
  active_socks_port = none;
  status = stopped;
  bootstrap_percent = 0;
  started = pending;
  timer = false;
  stopping = false;
  log = [];
  printed = [];
}

-- Settling a promise again changes nothing.
unfoldable pub settle : Started → Started → Started
settle pending outcome = outcome
settle (resolved port) outcome = resolved port
settle (rejected message) outcome = rejected message

-- The entry's flag tells an error from an information.
abbrev tor_log : Bool → String → Tor → Tor
tor_log is_error message s = record s { log = (is_error, message) ∷ s.log }

-- `spawnArti`, where `binary` is whether the arti binary exists at its path
unfoldable pub spawn_arti : Bool → String → Tor → Tor
unfolding settle
spawn_arti binary path s =
    if binary
    then record (tor_log false
        (append "spawning arti (port " (append (show_ℕ socks_managed_port) ")")) s) {
          status = bootstrapping;
          bootstrap_percent = 0;
          child = runs;
          arti_process = true;
          active_socks_port = some socks_managed_port;
          timer = true;
        }
    else record (tor_log true (append "arti binary not found at " path) s) {
      status = error;
      started = settle s.started (rejected (append "arti binary not found at " path));
    }

-- `startTor`, where `open_port` is whether something listens on the external port
unfoldable pub start_tor : Bool → Bool → String → Tor → Tor
unfolding settle spawn_arti
start_tor open_port binary path s =
    if open_port
    then record (tor_log false
        (append "external Tor detected on port " (append (show_ℕ socks_external_port) " — reusing"))
        s) {
          active_socks_port = some socks_external_port;
          status = ready;
          started = settle s.started (resolved socks_external_port);
        }
    else spawn_arti binary path s

is_background_noise : String → Bool
is_background_noise text =
    includes text "Questionable guard"
    || includes text "circuits died under mysterious circumstances"
    || includes text "Too many preemptive onion service circuits"
    || includes text "tor_circmgr"
    || includes text "tor_guardmgr"
    || includes text "hspool"
    || includes text "connection exited with error"

abbrev pub is_ready_line : String → Bool
is_ready_line text = includes text "Sufficiently bootstrapped"

-- a chunk on the standard output or the standard error of the process
unfoldable pub on_data : String → Tor → Tor
unfolding settle is_background_noise
on_data text s =
    if is_ready_line text
    then record (tor_log false (append "ready — SOCKS5 on port " (show_ℕ socks_managed_port)) s) {
      timer = false;
      bootstrap_percent = 100;
      status = ready;
      started = settle s.started (resolved socks_managed_port);
    }
    else let s1 : Tor =
        if is_background_noise text
        then s
        else record s { printed = append "[tor] " text ∷ s.printed } in
      if includes text "ERROR" || includes text "FATAL" then tor_log true (trim text) s1 else s1

-- the bootstrap timeout fires, if it is still set
unfoldable pub on_timeout : Tor → Tor
unfolding settle
on_timeout s =
    if s.timer
    then record (tor_log true "bootstrap timed out" s) {
      timer = false;
      status = error;
      started = settle s.started (rejected "arti bootstrap timed out");
    }
    else s

-- the process could not be spawned or killed
unfoldable pub on_error : String → Tor → Tor
unfolding settle
on_error message s = record (tor_log true (append "process error: " message) s) {
  timer = false;
  status = error;
  started = settle s.started (rejected message);
}

abbrev pub is_stopped : TorStatus → Bool
is_stopped stopped = true
is_stopped _ = false

-- the process has exited
unfoldable pub on_exit : String → Tor → Tor
on_exit how s =
    if is_stopped s.status
    then record s { child = exited }
    else record (tor_log true (append "arti exited unexpectedly " how) s) {
      child = exited;
      status = error;
      arti_process = false;
      active_socks_port = none;
    }

-- `stopTor` up to its wait for the exit of the process
unfoldable pub stop_tor : Tor → Tor
unfolding signal
stop_tor s =
    if s.arti_process
    then record (tor_log false "stopping arti" s) { child = signal s.child; stopping = true }
    else s

-- the rest of `stopTor`, once the process has exited or three seconds have passed
unfoldable pub stop_done : Tor → Tor
stop_done s =
    if s.stopping
    then record s {
      arti_process = false;
      active_socks_port = none;
      status = stopped;
      bootstrap_percent = 0;
      stopping = false;
    }
    else s

abbrev port_if : TorStatus → Option ℕ → Option ℕ
port_if ready port = port
port_if _ port = none

unfoldable pub get_arti_socks_port : Tor → Option ℕ
get_arti_socks_port s = port_if s.status s.active_socks_port

-- The events after a call of `startTor`. The node runtime may deliver output after the exit.
pub data Event : Type 0 where
  prints fails exits : String → Event
  times_out asks_stop ends_stop : Event

unfoldable pub step : Tor → Event → Tor
unfolding on_data on_timeout on_error on_exit stop_tor stop_done
step s (prints text) = on_data text s
step s (fails message) = on_error message s
step s (exits how) = on_exit how s
step s times_out = on_timeout s
step s asks_stop = stop_tor s
step s ends_stop = stop_done s

pub run : Tor → List Event → Tor
unfolding step
run s [] = s
run s (e ∷ es) = run (step s e) es
