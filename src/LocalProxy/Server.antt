-- ===== src/LocalProxy/Server.antt =====
-- client/src/main/localProxy.ts: the start and the stop of the server. A call waits in `pending` for
-- the callbacks of `close`, or for its promise callback to run; node's `http` decides when, and which
-- port a server is given.
pub mod Turns
use umbra_gateway.Prelude.{nth, remove_at}
use umbra_gateway.Prelude.{
  ℕ, zero, suc, String, List, [], ◌∷◌, ◌++◌, Option, none, some, Bool, not, ◌==◌, if◌then◌else◌,
}
use umbra_gateway.Prelude.Text.{append, show_ℕ}

-- `closes` waits for `server.close`, and starts a server for a gateway afterwards or does not;
-- `creates` is the callback of `stopLocalProxy().then`.
pub data Pending : Type 0 where
  closes : Option String → Pending
  creates : String → Pending

-- A server that accepts connections: its number, its gateway and its port.
pub record Listening : Type 0 where
  pub id : ℕ
  pub gateway : String
  pub port : ℕ

-- `gateways` are the gateways of the servers made, the newest first; `resolved` what the calls of
-- `startLocalProxy` returned, `thrown` the exceptions that nothing catches.
pub record Proxy : Type 0 where
  pub server : Option ℕ
  pub current_proxy_url : Option String
  pub made : List (ℕ × String)
  pub next : ℕ
  pub listening : List Listening
  pub pending : List Pending
  pub resolved : List String
  pub thrown : ℕ

abbrev pub initial : Proxy
initial = record {
  server = none;
  current_proxy_url = none;
  made = [];
  next = 0;
  listening = [];
  pending = [];
  resolved = [];
  thrown = 0;
}

abbrev pub without : ℕ → List Listening → List Listening
without n [] = []
without n (l ∷ ls) = let rest = without n ls in if l.id == n then rest else l ∷ rest

-- `stopLocalProxy`, and what is done once it is resolved
unfoldable pub stop_then : Option ℕ → Option String → Proxy → Proxy
stop_then none none p = p
stop_then none (some gateway) p = record p { pending = p.pending ++ creates gateway ∷ [] }
stop_then (some n) next p = record p {
  listening = without n p.listening;
  pending = p.pending ++ closes next ∷ [];
}

unfoldable pub stop_local_proxy : Proxy → Proxy
unfolding stop_then
stop_local_proxy p = stop_then p.server none p

unfoldable pub start_local_proxy : String → Proxy → Proxy
unfolding stop_then
start_local_proxy gateway p = stop_then p.server (some gateway) p

-- createServer(…)
unfoldable pub create : String → Proxy → Proxy
create gateway p = record p {
  server = some p.next;
  made = (p.next, gateway) ∷ p.made;
  next = suc p.next;
}

-- what a pending call does when it is its turn
unfoldable pub go_on : Pending → Proxy → Proxy
unfolding create
go_on (creates gateway) p = create gateway p
go_on (closes none) p = record p { server = none; current_proxy_url = none }
go_on (closes (some gateway)) p = record p {
  server = none;
  current_proxy_url = none;
  pending = p.pending ++ creates gateway ∷ [];
}

abbrev pub gateway_of : ℕ → List (ℕ × String) → String
gateway_of n [] = ""
gateway_of n ((k, gateway) ∷ rest) = if k == n then gateway else gateway_of n rest

-- server.address(): `null` where the server does not listen
abbrev pub port_of : ℕ → List Listening → Option ℕ
port_of n [] = none
port_of n (l ∷ ls) = if l.id == n then some l.port else port_of n ls

abbrev address_of : Option ℕ → List Listening → Option ℕ
address_of none ls = none
address_of (some n) ls = port_of n ls

unfoldable pub proxy_url : ℕ → String
unfolding show_ℕ
proxy_url port = append "http://127.0.0.1:" (show_ℕ port)

-- the rest of the callback of `listen`
unfoldable pub announce : Option ℕ → Proxy → Proxy
unfolding proxy_url
announce none p = record p { thrown = suc p.thrown }
announce (some port) p = record p {
  current_proxy_url = some (proxy_url port);
  resolved = proxy_url port ∷ p.resolved;
}

-- server `n` has a port: `address()` has it from then on
unfoldable pub on_bound : ℕ → ℕ → Proxy → Proxy
on_bound n port p = record p {
  listening = record { id = n; gateway = gateway_of n p.made; port = port } ∷ p.listening;
}

-- the callback of `listen`, of whichever server, reads the address of `server`
unfoldable pub on_listening : Proxy → Proxy
unfolding announce
on_listening p = announce (address_of p.server p.listening) p

unfoldable pub get_proxy_url : Proxy → Option String
get_proxy_url p = p.current_proxy_url

pub data Event : Type 0 where
  starts : String → Event
  stops : Event
  goes_on : ℕ → Event
  binds : ℕ → ℕ → Event
  listens : ℕ → Event

abbrev resume : ℕ → Option Pending → Proxy → Proxy
resume n none p = p
resume n (some w) p = go_on w (record p { pending = remove_at n p.pending })

unfoldable pub step : Proxy → Event → Proxy
unfolding start_local_proxy stop_local_proxy go_on on_bound on_listening
step p (starts gateway) = start_local_proxy gateway p
step p stops = stop_local_proxy p
step p (goes_on n) = resume n (nth n p.pending) p
step p (binds n port) = on_bound n port p
step p (listens n) = on_listening p

abbrev pub run : Proxy → List Event → Proxy
run p [] = p
run p (e ∷ es) = run (step p e) es
