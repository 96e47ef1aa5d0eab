-- ===== src/Panels/Gateway.antt =====
-- client/src/renderer/components/GatewayPanel.tsx and App.tsx, with the handlers `rpc:setGateway` and
-- `rpc:disconnectGateway` of client/src/main/index.ts: how the user connects to a gateway. A handler
-- sets or clears the gateway when it is called, and its reply comes later; `rpc:setGateway` does not
-- fail.
pub mod Agreement
use umbra_gateway.Prelude.{
  ℕ, zero, suc, String, List, [], ◌∷◌, ◌++◌, Option, none, some, is_some, Bool, true, false, not,
  ◌&&◌, ◌||◌, if◌then◌else◌,
}
use umbra_gateway.Prelude.Text.{trim, ends_with, length, take, ◌===◌, truthy}
use umbra_gateway.Prelude.{◌-◌}
use umbra_gateway.Prelude.{nth, remove_at}

-- A call that has not returned.
pub data Call : Type 0 where
  sets : String → Call
  disconnects : Call

-- `main_url` is the gateway of the main process, `none` for null; the other fields are the states of the panel and of
-- the application.
pub record Gateway : Type 0 where
  pub main_url : Option String
  pub connected : Bool
  pub gateway_url : String
  pub input_url : String
  pub connecting : Bool
  pub under_way : List Call

abbrev pub demo_onion_gateway_url : String
demo_onion_gateway_url = "http://yai4cgbt272me46hkisdiiy24wnbhwnf7kgl7652juxxaqyr7ik4w5qd.onion"

-- `if (!gatewayUrl)` of the main process: the empty URL counts as none
abbrev pub is_usable : Option String → Bool
is_usable url = is_some (truthy url)

-- useState(gatewayUrl || DEMO_ONION_GATEWAY_URL), of the gateway that the application starts with
abbrev pub initial : Gateway
initial = record {
  main_url = none;
  connected = false;
  gateway_url = "http://localhost:8080";
  input_url =
      if "http://localhost:8080" === "" then demo_onion_gateway_url else "http://localhost:8080";
  connecting = false;
  under_way = [];
}

-- inputUrl.trim().replace(/\/$/, "")
unfoldable pub clean : String → String
unfolding trim ends_with length take
clean input = let url = trim input in if ends_with url "/" then take (length url - 1) url else url

-- `handleConnect` of the panel, up to the reply
unfoldable pub handle_connect : Gateway → Gateway
unfolding clean
handle_connect g = record g {
  connecting = true;
  main_url = some (clean g.input_url);
  under_way = g.under_way ++ sets (clean g.input_url) ∷ [];
}

-- `handleDisconnect` of the panel, up to the reply
unfoldable pub handle_disconnect : Gateway → Gateway
handle_disconnect g = record g { main_url = none; under_way = g.under_way ++ disconnects ∷ [] }

-- what they do then, with `handleConnect` and `handleDisconnect` of the application
unfoldable pub on_reply : Call → Gateway → Gateway
on_reply (sets url) g = record g { gateway_url = url; connected = true; connecting = false }
on_reply disconnects g = record g { connected = false }

-- the button Connect and the key Enter
unfoldable pub can_connect : Gateway → Bool
unfolding trim
can_connect g = not g.connected && not (g.connecting || trim g.input_url === "")

abbrev replied : Option Call → Gateway → Gateway
replied none g = g
replied (some c) g = on_reply c g

pub data Event : Type 0 where
  types : String → Event
  clicks_connect presses_enter clicks_disconnect : Event
  returns : ℕ → Event

unfoldable pub step : Gateway → Event → Gateway
unfolding handle_connect handle_disconnect on_reply can_connect
step g (types text) = if g.connected then g else record g { input_url = text }
step g clicks_connect = if can_connect g then handle_connect g else g
step g presses_enter = if g.connected then g else handle_connect g
step g clicks_disconnect = if g.connected then handle_disconnect g else g
step g (returns n) = replied (nth n g.under_way) (record g { under_way = remove_at n g.under_way })

abbrev pub run : Gateway → List Event → Gateway
run g [] = g
run g (e ∷ es) = run (step g e) es
