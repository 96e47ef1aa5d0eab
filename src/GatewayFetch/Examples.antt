-- ===== src/GatewayFetch/Examples.antt =====
-- client/src/main/gatewayFetch.ts: the theorem on routes at an onion host.
use umbra_gateway.Prelude.{String, Option, some, [], ◌≡◌, ◌⊎◌, true, false}
use umbra_gateway.Prelude.Text.{ends_with}
use umbra_gateway.GatewayFetch.{Url, RequestInit, clearnet, gateway_fetch, default_socks_port}
use umbra_gateway.GatewayFetch.Routing.{Tunnelled, onion_routing}

abbrev parse_url : String → Option Url
parse_url url = some (record {
  protocol = "http:";
  hostname = "gateway.onion";
  port = "";
  pathname = "/";
  search = "";
})

abbrev init : RequestInit
init = record { method = some "POST"; headers = []; body = some "{}" }

abbrev url : String
url = "http://gateway.onion/"

onion_routing_example :
    ((u : Url) × (parse_url url ≡ some u)
      × (ends_with u.hostname ".onion" ≡ true)
      × Tunnelled parse_url default_socks_port url init u)
    ⊎ (((u : Url) → parse_url url ≡ some u → ends_with u.hostname ".onion" ≡ false)
        × (gateway_fetch parse_url default_socks_port url init ≡ clearnet url init))
onion_routing_example = onion_routing parse_url default_socks_port url init
