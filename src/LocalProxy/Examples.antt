-- ===== src/LocalProxy/Examples.antt =====
-- client/src/main/localProxy.ts: the theorems at a request without a key and at two servers.
use umbra_gateway.Prelude.{[], ◌∷◌, none, some, false, ok, err}
use umbra_gateway.Prelude.Json.{str, obj, field, end}
use umbra_gateway.X402.Types
use umbra_gateway.LocalProxy.{Env, State, handle_request}
use umbra_gateway.LocalProxy.Answers.{Answered, handle_request-Answered}
use umbra_gateway.LocalProxy.Server.{Proxy, initial, proxy_url}
use umbra_gateway.LocalProxy.Server.Turns.{
  Settled, off, starts_on, stops_it, take_turns, take_turns-Settled,
}

abbrev closed : Types.Env
closed = record {
  fetch = λ trace request. err "offline";
  clock = λ n. n;
  random_hex = λ n. "0x00";
  get_address = λ address. ok address;
  parse_requirements = λ header. ok [];
  parse_jwt_payload = λ part. err "no JWT";
}

abbrev env : Env
env = record {
  x402 = closed;
  parse = λ raw. some (obj (field "method" (str "eth_getProof") end));
  has_key = false;
  load_key = err "No key stored. Import a private key first.";
}

abbrev idle : State
idle = record { world = Types.initial; responses = []; errors = [] }

handle_request-Answered_example : Answered idle (handle_request env "http://g" "{}" idle)
handle_request-Answered_example = handle_request-Answered env "http://g" "{}" idle (λ e. cc e)

take_turns-Settled_example :
    Settled
      (some "http://h")
      (take_turns initial (starts_on "http://g" 4000 ∷ stops_it ∷ starts_on "http://h" 4001 ∷ []))
take_turns-Settled_example =
    take_turns-Settled none initial
      (starts_on "http://g" 4000 ∷ stops_it ∷ starts_on "http://h" 4001 ∷ []) (off [] 0 [])

abbrev serving : Proxy
serving = record initial {
  server = some 0;
  current_proxy_url = some (proxy_url 4000);
  made = (0, "http://g") ∷ [];
  next = 1;
  listening = record { id = 0; gateway = "http://g"; port = 4000 } ∷ [];
  resolved = proxy_url 4000 ∷ [];
}
