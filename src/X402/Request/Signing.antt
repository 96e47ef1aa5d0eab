-- ===== src/X402/Request/Signing.antt =====
-- client/src/main/x402Client.ts: what the account is asked to sign.
use umbra_gateway.Prelude.{String, All}
use umbra_gateway.Prelude.Json.{Json}
use umbra_gateway.Exec.{◌>>=◌}
use umbra_gateway.X402.Types.{
  Env, World, Account, Event, sent, signed, logged, record_event, now, random_nonce, log,
  gateway_fetch, sign,
}
use umbra_gateway.X402.Token.{set_cached_token, clear_cached_token}
use umbra_gateway.X402.Cooldown.{set_failure, clear_failure}
use umbra_gateway.X402.Request.{process_request}
use umbra_gateway.X402.Request.Rules.{IsDemanded, StepsStable, process_request-Stable}

module _ (env : Env) (gateway_url endpoint : String) (rpc_body : Json) (account : Account) where
  abbrev pub IsHonest : Event → Type 0
  IsHonest (sent request) = Unit
  IsHonest (signed t) = IsDemanded env gateway_url endpoint rpc_body account t
  IsHonest (logged entry) = Unit

  abbrev SignsHonestly : World → Type 0
  SignsHonestly w = All IsHonest w.trace

  steps-SignsHonestly : StepsStable env gateway_url endpoint rpc_body account SignsHonestly
  unfolding now random_nonce log record_event gateway_fetch sign clear_cached_token set_cached_token
      set_failure clear_failure ◌>>=◌
  steps-SignsHonestly = record {
    reads = record { kept = λ h. h };
    draws = record { kept = λ h. h };
    logs = λ d message. record { kept = λ h. (tt, h) };
    fetches = λ authorization payment. record { kept = λ h. (tt, h) };
    signs = λ t d. record { kept = λ h. (d, h) };
    clears = record { kept = λ h. h };
    fails = λ time. record { kept = λ h. h };
    forgives = record { kept = λ h. h };
    stores = λ token. record { kept = λ h. h };
  }

  -- Whatever the gateway answers, a request adds to what the account has signed only transfers on
  -- Base Sepolia from its own address, whose amount, recipient and token are those of one payment
  -- requirement. That is the first one in the `Payment-Required` header of an answer with status 402,
  -- which the gateway gave to this very request, sent without a token and without a payment.
  pub process_request-signs :
      (w : World)
      → All IsHonest w.trace
      → All IsHonest (process_request env gateway_url endpoint rpc_body account w).1.trace
  process_request-signs w =
      (process_request-Stable env gateway_url endpoint rpc_body account steps-SignsHonestly).kept
