-- ===== src/LocalProxy/Server/Turns.antt =====
-- client/src/main/localProxy.ts: calls one after another, and two that overlap.
use umbra_gateway.Prelude.{
  ℕ, suc, String, List, [], ◌∷◌, Option, none, some, true, false, ◌≡◌, refl, ◌==◌, ==_iff, arith,
}
use umbra_gateway.LocalProxy.Server.{
  Proxy, initial, step, run, starts, stops, goes_on, binds, listens, proxy_url, start_local_proxy,
  stop_local_proxy, stop_then, go_on, create, on_bound, on_listening, announce,
}

-- A call that ends before the next one begins: a start for a gateway, whose server is given a port,
-- or a stop.
pub data Turn : Type 0 where
  starts_on : String → ℕ → Turn
  stops_it : Turn

abbrev pub take_turn : Proxy → Turn → Proxy
take_turn p (starts_on gateway port) =
    run p (starts gateway ∷ goes_on 0 ∷ goes_on 0 ∷ binds p.next port ∷ listens p.next ∷ [])
take_turn p stops_it = run p (stops ∷ goes_on 0 ∷ [])

abbrev pub take_turns : Proxy → List Turn → Proxy
take_turns p [] = p
take_turns p (t ∷ ts) = take_turns (take_turn p t) ts

-- the gateway of the last start, while no stop has come after it
abbrev pub wanted : Option String → List Turn → Option String
wanted gateway [] = gateway
wanted _ (starts_on gateway port ∷ ts) = wanted (some gateway) ts
wanted _ (stops_it ∷ ts) = wanted none ts

-- Between the calls: no server, or one for the gateway that is wanted, to which the URL leads.
pub data Settled : Option String → Proxy → Type 0 where
  off :
      (made : List (ℕ × String)) (next : ℕ) (resolved : List String)
      → Settled none (record initial { made = made; next = next; resolved = resolved })
  on :
      (n : ℕ) (gateway : String) (port : ℕ) (made : List (ℕ × String)) (next : ℕ)
      (resolved : List String)
      → Settled (some gateway) (record {
        server = some n;
        current_proxy_url = some (proxy_url port);
        made = made;
        next = next;
        listening = record { id = n; gateway = gateway; port = port } ∷ [];
        pending = [];
        resolved = proxy_url port ∷ resolved;
        thrown = 0;
      })

==_refl : (n : ℕ) → (n == n) ≡ true
==_refl n = (==_iff n n).1 refl

differ : (n : ℕ) → (suc n == n) ≡ false
differ n = ground arith

-- a server that is made and listens, where none is there
made-Settled :
    (gateway : String) (port : ℕ) (made : List (ℕ × String)) (next : ℕ) (resolved : List String)
    → Settled (some gateway) (
        on_listening (
          on_bound next port
            (create gateway (record initial { made = made; next = next; resolved = resolved }))))
unfolding on_listening on_bound create announce
made-Settled gateway port made next resolved =
    rw (==_refl next) (on next gateway port ((next, gateway) ∷ made) (suc next) resolved)

start-Settled :
    (w : Option String) (p : Proxy) (gateway : String) (port : ℕ)
    → Settled w p
    → Settled (some gateway) (take_turn p (starts_on gateway port))
unfolding step start_local_proxy stop_then go_on
start-Settled _ _ gateway port (off made next resolved) =
    made-Settled gateway port made next resolved
start-Settled _ _ gateway port (on n other other_port made next resolved) =
    rw (==_refl n) (made-Settled gateway port made next (proxy_url other_port ∷ resolved))

stop-Settled : (w : Option String) (p : Proxy) → Settled w p → Settled none (take_turn p stops_it)
unfolding step stop_local_proxy stop_then go_on
stop-Settled _ _ (off made next resolved) = off made next resolved
stop-Settled _ _ (on n gateway port made next resolved) =
    rw (==_refl n) (off made next (proxy_url port ∷ resolved))

-- If each call ends before the next one begins: after any calls at most one server listens, namely
-- one for the gateway of the last start if no stop has come since, and `currentProxyUrl` is its
-- URL, which is also what that start returned. No exception is thrown.
pub take_turns-Settled :
    (w : Option String) (p : Proxy) (ts : List Turn)
    → Settled w p
    → Settled (wanted w ts) (take_turns p ts)
take_turns-Settled w p [] s = s
take_turns-Settled w p (stops_it ∷ ts) s =
    take_turns-Settled none (take_turn p stops_it) ts (stop-Settled w p s)
take_turns-Settled w p (starts_on gateway port ∷ ts) s =
    take_turns-Settled (some gateway) (take_turn p (starts_on gateway port)) ts
      (start-Settled w p gateway port s)

-- If two starts overlap while a server is there: the callbacks of both closes come when it has
-- closed, and both calls make a server. If both have a port before the first one is announced,
-- both calls return the URL of the second server. The first one listens too, and neither `server`
-- nor a URL leads to it.
pub overlap_leaks :
    (w first second : String) (p : Proxy) (port other_port : ℕ)
    → Settled (some w) p
    → let q = run p (
        starts first
        ∷ starts second
        ∷ goes_on 0
        ∷ goes_on 0
        ∷ goes_on 0
        ∷ goes_on 0
        ∷ binds p.next port
        ∷ binds (suc p.next) other_port
        ∷ listens p.next
        ∷ listens (suc p.next)
        ∷ []) in
      (q.server ≡ some (suc p.next))
      × (q.resolved ≡ proxy_url other_port ∷ proxy_url other_port ∷ p.resolved)
      × (q.listening
          ≡ record { id = suc p.next; gateway = second; port = other_port }
            ∷ record { id = p.next; gateway = first; port = port }
            ∷ [])
unfolding step start_local_proxy stop_then go_on create on_bound on_listening announce
overlap_leaks _ first second _ port other_port (on n w old_port made next resolved) =
    rw (==_refl n, ==_refl next, ==_refl (suc next), differ next)
      (rw (==_refl (suc next)) (refl, refl, refl))
