-- ===== src/Ipc/Examples.antt =====
-- client/src/main/index.ts: the theorems on the handlers at concrete states.
use umbra_gateway.Prelude.{
  String, [], ◌∷◌, ◌++◌, some, none, true, false, ◌≡◌, refl, ok, err, length,
}
use umbra_gateway.Prelude.Int.{pos}
use umbra_gateway.Prelude.Json.{str}
use umbra_gateway.X402.Types
use umbra_gateway.Helios.{Helios, synced}
use umbra_gateway.Rpc.{Env, State, big_int_of}
use umbra_gateway.Ipc.Signing.{TxParams, send_transaction, pick}
use umbra_gateway.Ipc.Signing.Transactions.{SignsOnce, send_transaction-SignsOnce}
use umbra_gateway.Ipc.Panics.{Thrown, Process}

abbrev wallet : Types.Account
wallet = record { address = "0xME"; sign_typed_data = λ t. ok "0xSIG" }

abbrev offline : Types.Env
offline = record {
  fetch = λ trace request. err "offline";
  clock = λ n. n;
  random_hex = λ n. "0x00";
  get_address = λ address. ok address;
  parse_requirements = λ header. ok [];
  parse_jwt_payload = λ part. err "no JWT";
}

abbrev env : Env
env = record {
  x402 = offline;
  load_key = ok wallet;
  ask_helios = λ asked method params. ok (str "0x5");
  stringify = λ value. "value";
  encode_balance_of = λ address. ok "0x70a08231";
  encode_transfer = λ to amount. ok "0xa9059cbb";
  format_ether = λ value. "0";
  format_units = λ value decimals. "0";
  parse_ether = λ amount. ok (pos 1000);
  parse_units = λ amount decimals. ok (pos 10);
  to_number = λ value. some (pos 5);
  sign_transaction = λ account t. ok "0xSIGNED";
}

abbrev light : Helios
light = record { provider = some 1; ready = true; execution_rpc = some "http://g"; status = synced }

abbrev start : State
start = record {
  gateway_url = some "http://g";
  helios = light;
  world = Types.initial;
  asked = [];
  signed = [];
}

abbrev request : TxParams
request = ("to", "0xYOU") ∷ ("value", "0x10") ∷ ("gas", "0x5208") ∷ ("gasPrice", "0x1") ∷ []

send_transaction-SignsOnce_example :
    SignsOnce request [] (send_transaction env request start).1.signed
send_transaction-SignsOnce_example = send_transaction-SignsOnce env request start

-- an empty text for the gas has the estimate fetched, and is then taken as no gas
empty_gas : pick env (some "") (some (str "0x5208")) ≡ ok (pos 0)
unfolding pick big_int_of umbra_gateway.X402.Protocol.to_big_int umbra_gateway.Prelude.Json.display
    umbra_gateway.Prelude.Text.big_int
empty_gas = refl

abbrev panic : Thrown
panic = record { name = "RuntimeError"; is_error = true; message = "unreachable"; stack = none }

abbrev process : Process
process = record { system = record { helios = light; calls = [] }; log = []; fatal = [] }
