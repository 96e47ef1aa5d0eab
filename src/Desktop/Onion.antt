-- ===== src/Desktop/Onion.antt =====
-- client/src/main/index.ts, rpc.ts, x402Client.ts and gatewayFetch.ts: the way that requests take.
use umbra_gateway.Prelude.{ℕ, String, List, [], ◌∷◌, Option, some, All, true, ◌≡◌}
use umbra_gateway.Prelude.Json.{Json}
use umbra_gateway.Prelude.Text.{truthy, ends_with}
use umbra_gateway.Exec.{Exec, ◌>>=◌}
use umbra_gateway.Exec.Stable.{Stable}
use umbra_gateway.X402.Types
use umbra_gateway.X402.Types.{
  World, Account, sent, signed, logged, now, random_nonce, log, gateway_fetch, sign, record_event,
}
use umbra_gateway.X402.Protocol.{post, endpoint_of}
use umbra_gateway.X402.Token.{set_cached_token, clear_cached_token}
use umbra_gateway.X402.Cooldown.{set_failure, clear_failure}
use umbra_gateway.X402.Request.{x402_request}
use umbra_gateway.X402.Request.Rules.{StepsStable, process_request-Stable}
use umbra_gateway.GatewayFetch.{Url, RequestInit}
use umbra_gateway.GatewayFetch.Routing.{Tunnelled, onion_request}
use umbra_gateway.Rpc
use umbra_gateway.Rpc.Calls.{known-set_gateway, known-clear_gateway}
use umbra_gateway.Rpc.Wallet.{sign_transaction}
use umbra_gateway.Rpc.{in_world, ask, set_gateway, clear_gateway}
use umbra_gateway.Desktop.{
  Desktop, Env, set_gateway_url, disconnect_gateway, generate_account, import_key, send,
  wc_send_transaction, Event, invokes, light_asks, rpc_env,
}
use umbra_gateway.Desktop.Handlers.{run}
use umbra_gateway.Desktop.Rules.{Kept, AllowsEvent, run-Both}

module _ {Blob : Type 0} (env : Env Blob) where
  -- The address at which a gateway is asked is that of an onion service.
  abbrev pub IsOnion : String → Type 0
  IsOnion url =
      (u : Url) × (env.parse_url (endpoint_of url) ≡ some u)
      × (ends_with u.hostname ".onion" ≡ true)

  -- However the request is made: `gatewayFetch` sends it through the Tor proxy, on the port that was
  -- set, to the host of its URL, which the proxy resolves.
  abbrev pub ThroughTor : Types.Event → Type 0
  ThroughTor (sent request) =
      (socks_port : ℕ) (init : RequestInit)
      → (u : Url) × (env.parse_url request.url ≡ some u)
        × Tunnelled env.parse_url socks_port request.url init u
  ThroughTor _ = Unit

  -- The gateway that is set, if any, is an onion service, and so was every one that was asked.
  pub record Private (s : Rpc.State) : Type 0 where
    pub gateway : (url : String) → truthy s.gateway_url ≡ some url → IsOnion url
    pub requests : All ThroughTor s.world.trace

  abbrev AllThroughTor : World → Type 0
  AllThroughTor w = All ThroughTor w.trace

  tunnelled :
      (url : String) (body : Json) (authorization : Option String)
      (payment : Option Types.PaymentPayload)
      → IsOnion url
      → ThroughTor (sent (post (endpoint_of url) body authorization payment))
  unfolding post
  tunnelled url body authorization payment (u, parsed, onion) socks_port init =
      (u, parsed, onion_request env.parse_url socks_port (endpoint_of url) init u parsed onion)

  steps :
      (e : Types.Env) (url : String) (body : Json) (account : Account)
      → IsOnion url
      → StepsStable e url (endpoint_of url) body account AllThroughTor
  unfolding now random_nonce log record_event gateway_fetch sign clear_cached_token set_cached_token
      set_failure clear_failure ◌>>=◌
  steps e url body account onion = record {
    reads = record { kept = λ h. h };
    draws = record { kept = λ h. h };
    logs = λ d message. record { kept = λ h. (tt, h) };
    fetches = λ authorization payment. record {
      kept = λ h. (tunnelled url body authorization payment onion, h);
    };
    signs = λ t d. record { kept = λ h. (tt, h) };
    clears = record { kept = λ h. h };
    fails = λ time. record { kept = λ h. h };
    forgives = record { kept = λ h. h };
    stores = λ token. record { kept = λ h. h };
  }

  -- an action of x402Client.ts
  in_world-Private :
      {A : Type 0} (m : Exec World A) → Stable AllThroughTor m → Stable Private (in_world m)
  unfolding in_world
  in_world-Private m stable = record {
    kept = λ h. record { gateway = h.gateway; requests = stable.kept h.requests };
  }

  request-Private :
      (e : Types.Env) (url : String) (body : Json) (account : Account)
      → IsOnion url
      → Stable Private (in_world (x402_request e url body account))
  unfolding x402_request
  request-Private e url body account onion =
      in_world-Private _ (
        process_request-Stable e url (endpoint_of url) body account
          (steps e url body account onion))

  kept : Kept env IsOnion (λ file. Unit) Private
  unfolding log now record_event ask ◌>>=◌
  kept = record {
    calls = λ file stored. record {
      steps = record {
        logs = λ d message. in_world-Private _ (record { kept = λ h. (tt, h) });
        reads = in_world-Private _ (record { kept = λ h. h });
        requests = λ url body account onion loaded. request-Private _ url body account onion;
      };
      known = λ s p. p.gateway;
      asks = λ method params. record {
        kept = λ h. record { gateway = h.gateway; requests = h.requests };
      };
    };
    lights = λ helios s h. record { gateway = h.gateway; requests = h.requests };
  }

  -- A gateway that an event sets, or that the local proxy was started for, is an onion service.
  abbrev pub SetsOnion : Event → Type 0
  SetsOnion (invokes (set_gateway_url url)) = IsOnion url
  SetsOnion (light_asks url raw) = IsOnion url
  SetsOnion _ = Unit

  set_gateway-Private :
      (url : String) (s : Rpc.State) → IsOnion url → Private s → Private (set_gateway url s)
  unfolding set_gateway
  set_gateway-Private url s onion h = record {
    gateway = known-set_gateway IsOnion url s onion;
    requests = h.requests;
  }

  clear_gateway-Private : (s : Rpc.State) → Private s → Private (clear_gateway s)
  unfolding clear_gateway
  clear_gateway-Private s h = record {
    gateway = known-clear_gateway IsOnion s;
    requests = h.requests;
  }

  sign-Private :
      (e : Rpc.Env) (account : Account) (t : Rpc.Transaction)
      → Stable Private (sign_transaction e account t)
  unfolding sign_transaction
  sign-Private e account t = record {
    kept = λ h. record { gateway = h.gateway; requests = h.requests };
  }

  allowed : (e : Event) → SetsOnion e → AllowsEvent env IsOnion (λ file. Unit) Private kept e
  allowed (invokes generate_account) sets = λ file. tt
  allowed (invokes (import_key input)) sets = λ file. tt
  allowed (invokes (set_gateway_url url)) sets = λ s. set_gateway-Private url s sets
  allowed (invokes disconnect_gateway) sets = clear_gateway-Private
  allowed (invokes (send symbol to amount)) sets =
      λ file stored account t loaded is. sign-Private (rpc_env env file) account t
  allowed (invokes (wc_send_transaction tx)) sets =
      λ file stored account t loaded is. sign-Private (rpc_env env file) account t
  allowed (light_asks url raw) sets = sets
  allowed _ sets = tt

  all_allowed :
      (es : List Event)
      → All SetsOnion es
      → All (AllowsEvent env IsOnion (λ file. Unit) Private kept) es
  all_allowed [] h = tt
  all_allowed (e ∷ es) (sets, h) = (allowed e sets, all_allowed es h)

  -- As long as each gateway that is set, and so each that the local proxy was started for, is an onion
  -- service: whatever the renderer calls, whatever the light client asks through the local proxy, and
  -- whatever the gateway answers, every request that is sent to a gateway goes through the Tor proxy, on the
  -- port that was set, to the host of the gateway's URL, whose name the proxy resolves.
  pub all_through_tor :
      (d : Desktop Blob) (es : List Event)
      → All SetsOnion es
      → Private d.rpc
      → Private (run env d es).rpc
  all_through_tor d es sets h =
      (run-Both env IsOnion (λ file. Unit) Private kept d es (all_allowed es sets) (tt, h)).1
