-- ===== src/Desktop/Signed.antt =====
-- client/src/main/rpc.ts and x402Client.ts: what is known of all that was signed is kept, if it is known
-- of each transaction, and of the gateway that is set.
use umbra_gateway.Prelude.{String, Option, some, All, ◌≡◌, ok}
use umbra_gateway.Prelude.Json.{Json}
use umbra_gateway.Prelude.Text.{truthy}
use umbra_gateway.Exec.{Exec, ◌>>=◌}
use umbra_gateway.Exec.Stable.{Stable}
use umbra_gateway.X402.Types
use umbra_gateway.X402.Types.{
  World, Account, TypedData, sent, signed, logged, now, random_nonce, log, gateway_fetch, sign,
  record_event,
}
use umbra_gateway.X402.Protocol.{endpoint_of}
use umbra_gateway.X402.Token.{set_cached_token, clear_cached_token}
use umbra_gateway.X402.Cooldown.{set_failure, clear_failure}
use umbra_gateway.X402.Request.{x402_request}
use umbra_gateway.X402.Request.Rules.{IsDemanded, StepsStable, process_request-Stable}
use umbra_gateway.Rpc
use umbra_gateway.Rpc.{Transaction, in_world, ask, set_gateway, clear_gateway}
use umbra_gateway.Rpc.Calls.{known-set_gateway, known-clear_gateway}
use umbra_gateway.Rpc.Wallet.{sign_transaction}
use umbra_gateway.Desktop.{Env, rpc_env}
use umbra_gateway.Desktop.Rules.{Kept}

module _ {Blob : Type 0} (env : Env Blob) where
  -- A payment of an account that keystore.ts loads, to a gateway that demanded it.
  abbrev pub IsPayment : (String → Type 0) → TypedData → Type 0
  IsPayment IsGateway t =
      (file : Option Blob) × (account : Account) × ((rpc_env env file).load_key ≡ ok account)
      × (url : String) × IsGateway url
      × (body : Json) × IsDemanded env.rpc.x402 url (endpoint_of url) body account t

  abbrev pub IsHonest : (String → Type 0) → Types.Event → Type 0
  IsHonest IsGateway (signed t) = IsPayment IsGateway t
  IsHonest IsGateway _ = Unit

  module _ (May : Transaction → Type 0) (IsGateway : String → Type 0) where
    pub record Signed (s : Rpc.State) : Type 0 where
      pub gateway : (url : String) → truthy s.gateway_url ≡ some url → IsGateway url
      pub transactions : All May s.signed
      pub payments : All (IsHonest IsGateway) s.world.trace

    abbrev Honest : World → Type 0
    Honest w = All (IsHonest IsGateway) w.trace

    steps :
        (file : Option Blob) (url : String) (body : Json) (account : Account)
        → IsGateway url
        → (rpc_env env file).load_key ≡ ok account
        → StepsStable env.rpc.x402 url (endpoint_of url) body account Honest
    unfolding now random_nonce log record_event gateway_fetch sign clear_cached_token
        set_cached_token set_failure clear_failure ◌>>=◌
    steps file url body account is loaded = record {
      reads = record { kept = λ h. h };
      draws = record { kept = λ h. h };
      logs = λ d message. record { kept = λ h. (tt, h) };
      fetches = λ authorization payment. record { kept = λ h. (tt, h) };
      signs = λ t d. record { kept = λ h. ((file, account, loaded, url, is, body, d), h) };
      clears = record { kept = λ h. h };
      fails = λ time. record { kept = λ h. h };
      forgives = record { kept = λ h. h };
      stores = λ token. record { kept = λ h. h };
    }

    in_world-Signed : {A : Type 0} (m : Exec World A) → Stable Honest m → Stable Signed (in_world m)
    unfolding in_world
    in_world-Signed m stable = record {
      kept = λ h. record {
        gateway = h.gateway;
        transactions = h.transactions;
        payments = stable.kept h.payments;
      };
    }

    request-Signed :
        (file : Option Blob) (url : String) (body : Json) (account : Account)
        → IsGateway url
        → (rpc_env env file).load_key ≡ ok account
        → Stable Signed (in_world (x402_request env.rpc.x402 url body account))
    unfolding x402_request
    request-Signed file url body account is loaded = in_world-Signed _ (
        process_request-Stable env.rpc.x402 url (endpoint_of url) body account
          (steps file url body account is loaded))

    pub kept : Kept env IsGateway (λ file. Unit) Signed
    unfolding log now record_event ask ◌>>=◌
    kept = record {
      calls = λ file stored. record {
        steps = record {
          logs = λ d message. in_world-Signed _ (record { kept = λ h. (tt, h) });
          reads = in_world-Signed _ (record { kept = λ h. h });
          requests = λ url body account is loaded. request-Signed file url body account is loaded;
        };
        known = λ s p. p.gateway;
        asks = λ method params. record {
          kept = λ h. record {
            gateway = h.gateway;
            transactions = h.transactions;
            payments = h.payments;
          };
        };
      };
      lights = λ helios s h. record {
        gateway = h.gateway;
        transactions = h.transactions;
        payments = h.payments;
      };
    }

    pub sign-Signed :
        (e : Rpc.Env) (account : Account) (t : Transaction)
        → May t
        → Stable Signed (sign_transaction e account t)
    unfolding sign_transaction
    sign-Signed e account t may = record {
      kept = λ h. record {
        gateway = h.gateway;
        transactions = (may, h.transactions);
        payments = h.payments;
      };
    }

    pub set_gateway-Signed :
        (url : String) (s : Rpc.State) → IsGateway url → Signed s → Signed (set_gateway url s)
    unfolding set_gateway
    set_gateway-Signed url s is h = record {
      gateway = known-set_gateway IsGateway url s is;
      transactions = h.transactions;
      payments = h.payments;
    }

    pub clear_gateway-Signed : (s : Rpc.State) → Signed s → Signed (clear_gateway s)
    unfolding clear_gateway
    clear_gateway-Signed s h = record {
      gateway = known-clear_gateway IsGateway s;
      transactions = h.transactions;
      payments = h.payments;
    }
