-- ===== src/X402/Request/Survival.antt =====
-- client/src/main/x402Client.ts: a token that was paid for, when the call that paid fails.
use umbra_gateway.Prelude.{suc, String, ◌≡◌, refl, ap, ◌∙◌, ok, none, some, arith, ◌∷◌}
use umbra_gateway.Prelude.Map
use umbra_gateway.Prelude.Map.{map_laws}
use umbra_gateway.Prelude.Json.{Json}
use umbra_gateway.Prelude.Text.{===_refl, truthy}
use umbra_gateway.Exec.{◌>>=◌}
use umbra_gateway.X402.Types.{
  Env, World, Account, sent, logged, out, Response, PaymentPayload, record_event, now, log,
  gateway_fetch,
}
use umbra_gateway.X402.Protocol.{post}
use umbra_gateway.X402.Token.{expiry}
use umbra_gateway.X402.Request.{authorize, payment_answer, settle, execute, pay}
use umbra_gateway.X402.Request.Outcomes.{payment_accepted}

module _ (env : Env) (gateway_url endpoint : String) (rpc_body : Json) (account : Account) where
  execute-Keeps_cache :
      (token : String) (w : World)
      → (execute env gateway_url endpoint rpc_body account token w).1.token_cache ≡ w.token_cache
  unfolding execute gateway_fetch log now record_event ◌>>=◌
  execute-Keeps_cache token w = ground arith

  pay-cache :
      (w : World) (header token : String) (payload : PaymentPayload) (w1 w2 : World)
      → authorize env gateway_url endpoint rpc_body account header w ≡ (ok payload, w1)
      → settle env gateway_url endpoint rpc_body account payload w1 ≡ (ok token, w2)
      → (pay env gateway_url endpoint rpc_body account header w).1.token_cache ≡ w2.token_cache
  unfolding pay ◌>>=◌
  pay-cache w header token payload w1 w2 a s = rw (a, pay) (rw (s) (execute-Keeps_cache token w2))

  -- the state in which the answer to a payment is read
  abbrev submitted : PaymentPayload → World → World
  submitted payload w = record w {
    readings = suc w.readings;
    trace =
        sent (post endpoint rpc_body none (some payload))
        ∷ logged (record {
          ts = env.clock w.readings;
          direction = out;
          message = "→ submitting payment...";
        })
        ∷ w.trace;
  }

  settle-answer :
      (payload : PaymentPayload) (w : World) (resp : Response)
      → env.fetch
          (logged (record {
            ts = env.clock w.readings;
            direction = out;
            message = "→ submitting payment...";
          })
            ∷ w.trace)
          (post endpoint rpc_body none (some payload))
        ≡ ok resp
      → settle env gateway_url endpoint rpc_body account payload w
        ≡ payment_answer env gateway_url endpoint rpc_body account resp (submitted payload w)
  unfolding settle log now record_event gateway_fetch ◌>>=◌
  settle-answer payload w resp f = rw f refl

  -- Where a payment was authorized and the gateway accepts it with a token: the token is in the cache
  -- when the call ends, with its expiry, whatever becomes of the request that it was bought for.
  pub paid_token_survives :
      (w w1 : World) (header text token : String) (payload : PaymentPayload) (resp : Response)
      → authorize env gateway_url endpoint rpc_body account header w ≡ (ok payload, w1)
      → env.fetch
          (logged (record {
            ts = env.clock w1.readings;
            direction = out;
            message = "→ submitting payment...";
          })
            ∷ w1.trace)
          (post endpoint rpc_body none (some payload))
        ≡ ok resp
      → resp.text ≡ ok text
      → resp.status ≡ 200
      → truthy resp.payment_token ≡ some token
      → Map.get (pay env gateway_url endpoint rpc_body account header w).1.token_cache gateway_url
        ≡ some
            (record { token = token; expires_at = expiry env (env.clock (suc w1.readings)) token })
  paid_token_survives w w1 header text token payload resp a f t s p =
      let accepted =
        payment_accepted env gateway_url endpoint rpc_body account resp text token
          (submitted payload w1) t s p in
      ap (λ c. Map.get c gateway_url)
        (pay-cache w header token payload w1 _ a (settle-answer payload w1 resp f ∙ accepted))
      ∙ simp (map_laws, ===_refl)
