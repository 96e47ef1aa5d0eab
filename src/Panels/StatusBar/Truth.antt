-- ===== src/Panels/StatusBar/Truth.antt =====
-- client/src/renderer/components/PrivacyStatusBar.tsx, with client/src/main/index.ts, x402Client.ts
-- and gatewayFetch.ts: what the Tor indicator says of the way that requests take.
use umbra_gateway.Prelude.{
  ℕ, String, Option, none, some, Bool, true, false, ◌≡◌, ap, not, ◌&&◌, Result, ok, err, inl, inr,
  if◌then◌else◌,
}
use umbra_gateway.Prelude.Text.{ends_with}
use umbra_gateway.GatewayFetch.{
  Url, RequestInit, SocksRequest, via_socks, clearnet, is_onion_url, gateway_fetch,
}
use umbra_gateway.GatewayFetch.Routing.{route-cases}
use umbra_gateway.Tor.{Tor, get_arti_socks_port}
use umbra_gateway.X402.Protocol.{endpoint_of}
use umbra_gateway.Helios.{HeliosStatus}
use umbra_gateway.Ipc.Status.{
  TorReport, get_tor_status, get_tor_bootstrap_percent, with_slash, using_onion, tor_status,
}
use umbra_gateway.Panels.StatusBar.{
  Bar, Icon, shield, eye, no_icon, icon_of, tor_indicator, poll_status, is_ready,
}

-- What an icon says of the request's route: a shield of the Tor proxy, an eye of the clear network.
pub data Truthful (parse_url : String → Option Url) (port : ℕ) (url : String) (init : RequestInit)
    : Icon → Type 0 where
  through_tor :
      (request : SocksRequest)
      → gateway_fetch parse_url port (endpoint_of url) init ≡ via_socks request
      → Truthful parse_url port url init shield
  in_the_clear :
      gateway_fetch parse_url port (endpoint_of url) init ≡ clearnet (endpoint_of url) init
      → Truthful parse_url port url init eye
  silent : Truthful parse_url port url init no_icon

module _ (parse_url : String → Option Url) (port : ℕ) (url : String) (init : RequestInit) where
  -- the handler and the fetcher agree on what an onion host is
  using_onion_is :
      (onion : Bool)
      → using_onion parse_url (some url) ≡ ok onion
      → is_onion_url parse_url (endpoint_of url) ≡ onion
  unfolding using_onion with_slash endpoint_of is_onion_url
  using_onion_is onion e = agree (parse_url (with_slash url)) e
    where
      agree :
          (parsed : Option Url)
          → (elim parsed [ none ↦ err "Invalid URL" | some u ↦ ok (ends_with u.hostname ".onion") ])
            ≡ ok onion
          → (elim parsed [ none ↦ false | some u ↦ ends_with u.hostname ".onion" ]) ≡ onion
      agree none bad = cc bad
      agree (some u) good = cc good

  -- the icon for a host, where `is_routing` is whether requests go to a gateway
  routed-Truthful :
      (is_routing onion : Bool)
      → is_onion_url parse_url (endpoint_of url) ≡ onion
      → Truthful parse_url port url init
          (if is_routing && onion then shield else if is_routing && not onion then eye else no_icon)
  unfolding is_onion_url
  routed-Truthful false onion e = silent
  routed-Truthful true true e = elim (route-cases parse_url port (endpoint_of url) init) [
    | inl (u, good, is_onion, tunnelled) ↦ through_tor tunnelled.request tunnelled.routed
    | inr (other, route) ↦ cc (e, other)
  ]
  routed-Truthful true false e = elim (route-cases parse_url port (endpoint_of url) init) [
    | inl (u, good, is_onion, tunnelled) ↦ cc (e, onion_of u good is_onion)
    | inr (other, route) ↦ in_the_clear route
  ]
    where
      onion_of :
          (u : Url)
          → parse_url (endpoint_of url) ≡ some u
          → ends_with u.hostname ".onion" ≡ true
          → is_onion_url parse_url (endpoint_of url) ≡ true
      onion_of u good is_onion = rw (good, is_onion_url) is_onion

  -- Where a poll of the status succeeds for the gateway that is set, the icon beside Tor that is
  -- then shown is truthful: with the shield a request to that gateway goes to the Tor proxy, and
  -- with the eye it goes to the clear network, whichever port the fetcher has.
  pub poll-Truthful :
      (tor : Tor) (report : TorReport) (net : String × HeliosStatus) (b : Bar) (connected : Bool)
      → tor_status parse_url (some url) tor ≡ ok report
      → let shown = poll_status false (ok report) (ok net) b in
        Truthful parse_url port url init
          (tor_indicator shown.tor_status shown.tor_onion connected).icon
  unfolding tor_status tor_indicator icon_of poll_status
  poll-Truthful tor report net b connected e =
      routed-Truthful (connected && is_ready report.status) report.using_onion
        (using_onion_is report.using_onion (reported (using_onion parse_url (some url)) e))
    where
      onion_in : Result TorReport → Result Bool
      onion_in (ok r) = ok r.using_onion
      onion_in (err message) = err message

      reported :
          (onion : Result Bool)
          → (elim onion [
            | err message ↦ err message
            | ok o ↦ ok (record {
              status = get_tor_status tor;
              socks_port = get_arti_socks_port tor;
              bootstrap_percent = get_tor_bootstrap_percent tor;
              using_onion = o;
            })
          ])
            ≡ ok report
          → onion ≡ ok report.using_onion
      reported (err message) bad = cc bad
      reported (ok o) good = ap onion_in good
