-- ===== src/X402/Request/Isolation.antt =====
-- client/src/main/x402Client.ts: a request to one gateway leaves the state of the others alone, so
-- the queues of different gateways may run interleaved.
use umbra_gateway.Prelude.{String, ◌≡◌, ◌≢◌, refl, arith}
use umbra_gateway.Prelude.Map
use umbra_gateway.Prelude.Map.{map_laws}
use umbra_gateway.Prelude.Json.{Json}
use umbra_gateway.Prelude.Text.{===_iff}
use umbra_gateway.Exec.{◌>>=◌}
use umbra_gateway.X402.Types.{
  Env, World, Account, record_event, now, random_nonce, log, gateway_fetch, sign,
}
use umbra_gateway.X402.Token.{set_cached_token, clear_cached_token}
use umbra_gateway.X402.Cooldown.{set_failure, clear_failure}
use umbra_gateway.X402.Request.{process_request}
use umbra_gateway.X402.Request.Rules.{StepsStable, process_request-Stable}

-- Two states agree on a gateway: its cached token and the time of its last rejected payment.
pub record Agree (gateway_url : String) (v w : World) : Type 0 where
  pub token : Map.get w.token_cache gateway_url ≡ Map.get v.token_cache gateway_url
  pub failure :
      Map.get w.last_payment_failure gateway_url ≡ Map.get v.last_payment_failure gateway_url

module _ (env : Env) (gateway_url endpoint : String) (rpc_body : Json) (account : Account)
    (other : String) (v : World) (ne : gateway_url ≢ other) where
  read :
      {u w : World}
      → u.token_cache ≡ w.token_cache
      → u.last_payment_failure ≡ w.last_payment_failure
      → Agree other v w
      → Agree other v u
  read t f h = record { token = rw t h.token; failure = rw f h.failure }

  steps-Agree : StepsStable env gateway_url endpoint rpc_body account (Agree other v)
  unfolding now random_nonce log record_event gateway_fetch sign clear_cached_token set_cached_token
      set_failure clear_failure ◌>>=◌
  steps-Agree = record {
    reads = record { kept = read refl refl };
    draws = record { kept = read refl refl };
    logs = λ d message. record { kept = read refl refl };
    fetches = λ authorization payment. record { kept = read refl refl };
    signs = λ t d. record { kept = read refl refl };
    clears = record {
      kept = λ h. record {
        token = simp map_laws (ground (arith, ===_iff gateway_url other));
        failure = h.failure;
      };
    };
    fails = λ time. record {
      kept = λ h. record {
        token = h.token;
        failure = simp map_laws (ground (arith, ===_iff gateway_url other));
      };
    };
    forgives = record {
      kept = λ h. record {
        token = h.token;
        failure = simp map_laws (ground (arith, ===_iff gateway_url other));
      };
    };
    stores = λ token. record {
      kept = λ h. record {
        token = simp map_laws (ground (arith, ===_iff gateway_url other));
        failure = h.failure;
      };
    };
  }

-- A request to one gateway, whether it succeeds or fails, leaves the cached token and the recorded
-- payment failure of every other gateway as they were.
pub process_request-Agree :
    (env : Env) (gateway_url endpoint : String) (rpc_body : Json) (account : Account)
    (other : String) (w : World)
    → gateway_url ≢ other
    → Agree other w (process_request env gateway_url endpoint rpc_body account w).1
process_request-Agree env gateway_url endpoint rpc_body account other w ne =
    (process_request-Stable env gateway_url endpoint rpc_body account
        (steps-Agree env gateway_url endpoint rpc_body account other w ne)).kept
      (record { token = refl; failure = refl })
