-- ===== src/Rpc/Examples.antt =====
-- client/src/main/rpc.ts: the theorems at one wallet.
use umbra_gateway.Prelude.{[], ◌∷◌, some, true, ◌≡◌, ok, err}
use umbra_gateway.Prelude.Int.{pos}
use umbra_gateway.Prelude.Json.{str, arr, nil}
use umbra_gateway.X402.Types
use umbra_gateway.Helios.{Helios, synced}
use umbra_gateway.Rpc.{Env, State, rpc_call}
use umbra_gateway.Rpc.Routing.{rpc_call_asks}

abbrev wallet : Types.Account
wallet = record { address = "0xME"; sign_typed_data = λ t. ok "0xSIG" }

abbrev closed : Types.Env
closed = record {
  fetch = λ trace request. err "offline";
  clock = λ n. n;
  random_hex = λ n. "0x00";
  get_address = λ address. ok address;
  parse_requirements = λ header. ok [];
  parse_jwt_payload = λ part. err "no JWT";
}

abbrev env : Env
env = record {
  x402 = closed;
  load_key = ok wallet;
  ask_helios = λ asked method params. ok (str "0x5");
  stringify = λ value. "value";
  encode_balance_of = λ address. ok "0x70a08231";
  encode_transfer = λ to amount. ok "0xa9059cbb";
  format_ether = λ value. "0";
  format_units = λ value decimals. "0";
  parse_ether = λ amount. ok (pos 1000);
  parse_units = λ amount decimals. ok (pos 10);
  to_number = λ value. some (pos 5);
  sign_transaction = λ account t. ok "0xSIGNED";
}

abbrev light : Helios
light = record { provider = some 1; ready = true; execution_rpc = some "http://g"; status = synced }

abbrev start : State
start = record {
  gateway_url = some "http://g";
  helios = light;
  world = Types.initial;
  asked = [];
  signed = [];
}

rpc_call_asks_example :
    (rpc_call env "eth_gasPrice" (arr nil) start).1.asked ≡ ("eth_gasPrice", arr nil) ∷ []
rpc_call_asks_example = rpc_call_asks env "eth_gasPrice" (arr nil) start
