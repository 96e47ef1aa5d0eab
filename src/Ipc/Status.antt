-- ===== src/Ipc/Status.antt =====
-- client/src/main/index.ts: the handlers `tor:getStatus`, `helios:getStatus` and `network:getInfo`,
-- with the getters of torProcess.ts. The URL parser of the runtime is an argument.
use umbra_gateway.Prelude.{
  ℕ, String, Option, none, some, Bool, false, Result, ok, err, if◌then◌else◌,
}
use umbra_gateway.Prelude.Text.{append, ends_with}
use umbra_gateway.GatewayFetch.{Url}
use umbra_gateway.Helios.{Helios, HeliosStatus}
use umbra_gateway.Tor.{Tor, TorStatus, get_arti_socks_port}

pub record TorReport : Type 0 where
  pub status : TorStatus
  pub socks_port : Option ℕ
  pub bootstrap_percent : ℕ
  pub using_onion : Bool

-- url.endsWith('/') ? url : `${url}/`
unfoldable pub with_slash : String → String
unfolding ends_with
with_slash url = if ends_with url "/" then url else append url "/"

unfoldable pub get_tor_status : Tor → TorStatus
get_tor_status tor = tor.status

unfoldable pub get_tor_bootstrap_percent : Tor → ℕ
get_tor_bootstrap_percent tor = tor.bootstrap_percent

module _ (parse_url : String → Option Url) where
  -- `new URL(…).hostname.endsWith('.onion')`, of no gateway `false`
  unfoldable pub using_onion : Option String → Result Bool
  unfolding with_slash ends_with
  using_onion none = ok false
  using_onion (some url) = elim (parse_url (with_slash url)) [
    | none ↦ err "Invalid URL"
    | some u ↦ ok (ends_with u.hostname ".onion")
  ]

  -- tor:getStatus
  unfoldable pub tor_status : Option String → Tor → Result TorReport
  unfolding using_onion get_tor_status get_tor_bootstrap_percent
  tor_status gateway_url tor = elim (using_onion gateway_url) [
    | err message ↦ err message
    | ok onion ↦ ok (record {
      status = get_tor_status tor;
      socks_port = get_arti_socks_port tor;
      bootstrap_percent = get_tor_bootstrap_percent tor;
      using_onion = onion;
    })
  ]

-- helios:getStatus
unfoldable pub helios_status : Helios → HeliosStatus
helios_status helios = helios.status

-- network:getInfo
unfoldable pub network_info : Helios → String × HeliosStatus
network_info helios = ("Base Sepolia", helios.status)
