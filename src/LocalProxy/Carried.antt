-- ===== src/LocalProxy/Carried.antt =====
-- client/src/main/localProxy.ts: a property that the requests to the gateway keep is kept by the
-- handler of the proxy.
use umbra_gateway.Prelude.{ℕ, String, Option, some, none, ◌≡◌, ok, ◌∷◌}
use umbra_gateway.Prelude.Int.{ℤ}
use umbra_gateway.Prelude.Json.{Json}
use umbra_gateway.Exec.{modify}
use umbra_gateway.Exec.Stable.{Stable, stable_rules, Stable-bind, Stable-bind-lift, Stable-pure}
use umbra_gateway.X402.Types.{World, Account}
use umbra_gateway.X402.Request.{x402_request}
use umbra_gateway.LocalProxy.{
  Env, State, respond, respond_error, in_world, forward, recover, handle_body, handle_parsed,
  handle_request,
}

module _ {ℓ} (env : Env) (gateway_url : String) (P : World → Type ℓ)
    (requests : (body : Json) (account : Account)
      → env.load_key ≡ ok account
      → Stable P (x402_request env.x402 gateway_url body account)) where
  abbrev pub InWorld : State → Type ℓ
  InWorld s = P s.world

  respond-Stable : (status : ℕ) (answer : Json) → Stable InWorld (respond status answer)
  unfolding respond modify
  respond-Stable status answer = record { kept = λ h. h }

  error-Stable :
      (body : Json) (code : ℤ) (message : String) → Stable InWorld (respond_error body code message)
  unfolding respond_error
  error-Stable body code message = search (stable_rules, respond-Stable)

  forward-Stable : (body : Json) → Stable InWorld (forward env gateway_url body)
  unfolding forward in_world
  forward-Stable body = Stable-bind-lift _ _ λ account loaded.
      Stable-bind _ _ (record { kept = λ h. (requests body account loaded).kept h })
        λ answer. Stable-pure _

  noted-Stable :
      (message : String) → Stable InWorld (modify (λ s. record s { errors = message ∷ s.errors }))
  unfolding modify
  noted-Stable message = record { kept = λ h. h }

  recover-Stable :
      (body : Json) (message : String) → Stable InWorld (recover env gateway_url body message)
  unfolding recover
  recover-Stable body message = search (stable_rules, noted-Stable, error-Stable)

  body-Stable : (body : Json) → Stable InWorld (handle_body env gateway_url body)
  unfolding handle_body
  body-Stable body =
      search (stable_rules, forward-Stable, respond-Stable, recover-Stable, error-Stable) depth 9

  parsed-Stable : (parsed : Option Json) → Stable InWorld (handle_parsed env gateway_url parsed)
  unfolding handle_parsed
  parsed-Stable none = respond-Stable _ _
  parsed-Stable (some body) = body-Stable body

  pub handle_request-Stable : (raw : String) → Stable InWorld (handle_request env gateway_url raw)
  unfolding handle_request
  handle_request-Stable raw = parsed-Stable (env.parse raw)
