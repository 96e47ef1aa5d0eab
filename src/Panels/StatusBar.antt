-- ===== src/Panels/StatusBar.antt =====
-- client/src/renderer/components/PrivacyStatusBar.tsx: the indicators of Tor, of the x402 wallet and
-- of the network.
pub mod Truth
use umbra_gateway.Prelude.{
  String, Option, none, some, Bool, true, false, not, ◌&&◌, Result, ok, err, if◌then◌else◌,
}
use umbra_gateway.Prelude.Text.{append}
use umbra_gateway.Helios.{HeliosStatus, disconnected, syncing, synced, error}
use umbra_gateway.Tor.{TorStatus, stopped, bootstrapping, ready}
use umbra_gateway.Ipc.Status.{TorReport}
use umbra_gateway.Panels.{Numbers}

pub record Bar : Type 0 where
  pub tor_status : TorStatus
  pub tor_onion : Bool
  pub x402_connected : Bool
  pub x402_usdc : Option String
  pub net_helios : HeliosStatus

abbrev pub initial : Bar
initial = record {
  tor_status = stopped;
  tor_onion = false;
  x402_connected = false;
  x402_usdc = none;
  net_helios = disconnected;
}

unfoldable pub tor_dot_class : TorStatus → Bool → String
tor_dot_class stopped using_onion = "bg-slate-600"
tor_dot_class TorStatus.error using_onion = "bg-red-500"
tor_dot_class bootstrapping using_onion = "bg-yellow-500 animate-pulse"
tor_dot_class ready using_onion = if using_onion then "bg-accent-green" else "bg-yellow-500"

unfoldable pub tor_label : TorStatus → String
tor_label TorStatus.error = "Tor error"
tor_label _ = "Tor"

-- What stands beside the label: a shield, an eye, or nothing.
pub data Icon : Type 0 where
  shield eye no_icon : Icon

pub record TorIndicator : Type 0 where
  pub dot_class : String
  pub label : String
  pub icon : Icon

abbrev is_ready : TorStatus → Bool
is_ready ready = true
is_ready _ = false

unfoldable pub icon_of : TorStatus → Bool → Bool → Icon
icon_of status using_onion gateway_connected =
    let is_routing = gateway_connected && is_ready status in
    if is_routing && using_onion
    then shield
    else if is_routing && not using_onion
    then eye
    else no_icon

unfoldable pub tor_indicator : TorStatus → Bool → Bool → TorIndicator
unfolding tor_dot_class tor_label icon_of
tor_indicator status using_onion gateway_connected = record {
  dot_class = tor_dot_class status using_onion;
  label = tor_label status;
  icon = icon_of status using_onion gateway_connected;
}

pub data X402State : Type 0 where
  no_gateway no_key no_funds funded : X402State

module _ {Number : Type 0} (numbers : Numbers Number) where
  unfoldable pub x402_state : Bool → Option String → X402State
  x402_state false usdc_balance = no_gateway
  x402_state true none = no_key
  x402_state true (some balance) =
      if numbers.at_most_zero (numbers.parse_float balance) then no_funds else funded

  unfoldable pub x402_label : X402State → Option String → String
  x402_label no_gateway usdc_balance = "x402 off"
  x402_label no_key usdc_balance = "x402"
  x402_label no_funds usdc_balance = "x402 · no USDC"
  x402_label funded none = "x402 · NaN USDC"
  x402_label funded (some balance) =
      append "x402 · " (append (numbers.to_fixed 2 (numbers.parse_float balance)) " USDC")

-- X402_DOT
unfoldable pub x402_dot : X402State → String
x402_dot no_gateway = "bg-slate-600"
x402_dot no_key = "bg-yellow-500 animate-pulse"
x402_dot no_funds = "bg-orange-500"
x402_dot funded = "bg-accent-green"

-- NET_DOT
unfoldable pub net_dot : HeliosStatus → String
net_dot disconnected = "bg-slate-600"
net_dot syncing = "bg-yellow-500 animate-pulse"
net_dot synced = "bg-accent-green"
net_dot error = "bg-orange-500"

-- NET_LABEL
unfoldable pub net_label : HeliosStatus → String
net_label disconnected = "Base Sepolia (direct)"
net_label syncing = "Base Sepolia (syncing)"
net_label synced = "Base Sepolia"
net_label error = "Base Sepolia (fallback)"

-- `pollStatus`, when both calls have returned
unfoldable pub poll_status : Bool → Result TorReport → Result (String × HeliosStatus) → Bar → Bar
poll_status cancelled (ok tor) (ok net) b =
    if cancelled
    then b
    else record b { tor_status = tor.status; tor_onion = tor.using_onion; net_helios = net.1 }
poll_status cancelled (ok tor) (err message) b = b
poll_status cancelled (err message) net b = b

-- `pollX402`, when the call has returned
unfoldable pub poll_x402 : Bool → Result (Bool × Option String) → Bar → Bar
poll_x402 cancelled (err message) b = b
poll_x402 cancelled (ok (connected, usdc_balance)) b =
    if cancelled then b else record b { x402_connected = connected; x402_usdc = usdc_balance }
