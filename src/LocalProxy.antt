-- ===== src/LocalProxy.antt =====
-- client/src/main/localProxy.ts: the local server between the light client and the gateway. A
-- request is handled as if no other ran; `JSON.parse` and the keystore are arguments.
pub mod Answers
pub mod Carried
pub mod Server
pub mod Examples
use umbra_gateway.Prelude.{
  ℕ, String, List, ◌∷◌, Option, none, some, Bool, true, false, ◌||◌, Result, if◌then◌else◌,
}
use umbra_gateway.Prelude.Int.{ℤ, pos, neg}
use umbra_gateway.Prelude.Json.{Json, null, num, str, obj, field, end, property, or_null}
use umbra_gateway.Prelude.Text.{includes}
use umbra_gateway.Exec.{Exec, pure, lift, modify, ◌>>=◌, ◌>>◌, catch}
use umbra_gateway.X402.Types
use umbra_gateway.X402.Types.{World, Account, LogEntry, Direction, error}
use umbra_gateway.X402.Protocol.{◌<>◌}
use umbra_gateway.X402.Request.{x402_request}

pub record Env : Type 0 where
  pub x402 : Types.Env
  pub parse : String → Option Json
  pub has_key : Bool
  pub load_key : Result Account

-- `responses` are the answers that were ended, with their status, the newest first.
pub record State : Type 0 where
  pub world : World
  pub responses : List (ℕ × Json)
  pub errors : List String

abbrev is_error : Direction → Bool
is_error error = true
is_error _ = false

-- `proxyLog`: the entry that goes to the activity log, if any does
pub proxy_log : LogEntry → Option (Direction × String)
proxy_log entry =
    let msg = entry.message in
    if is_error entry.direction
      || includes msg "token"
      || includes msg "credits"
      || includes msg "payment"
      || includes msg "signing"
      || includes msg "submitting"
    then some (entry.direction, "[proxy] " <> msg)
    else none

unfoldable pub error_answer : Json → ℤ → String → Json
error_answer id code message = obj (
    field "jsonrpc" (str "2.0") (
      field "id" id
        (field "error" (obj (field "code" (num code) (field "message" (str message) end))) end)))

-- res.writeHead(status, …); res.end(…)
unfoldable pub respond : ℕ → Json → Exec State (Unit {0})
respond status answer = modify (λ s. record s { responses = (status, answer) ∷ s.responses })

-- an answer to the request `body`; of a `null` body the id cannot be read
unfoldable pub respond_error : Json → ℤ → String → Exec State (Unit {0})
unfolding property
respond_error body code message = do
  id ← lift (property "id" body)
  respond 200 (error_answer (or_null id) code message)

unfoldable pub in_world {ℓ} : {A : Type ℓ} → Exec World A → Exec State A
in_world m s = let (r, w) = m s.world in (r, record s { world = w })

module _ (env : Env) (gateway_url : String) where
  -- the try block of `handleRequest`
  pub forward : Json → Exec State Json
  forward body = do
    account ← lift env.load_key
    answer ← in_world (x402_request env.x402 gateway_url body account)
    pure answer.result

  -- its catch block
  pub recover : Json → String → Exec State (Unit {0})
  recover body message = do
    modify (λ s. record s { errors = ("[proxy] gateway error: " <> message) ∷ s.errors })
    respond_error body (neg 32603) message

  pub handle_body : Json → Exec State (Unit {0})
  handle_body body =
      if env.has_key
      then catch (forward body >>= respond 200) (recover body)
      else respond_error body (neg 32000) "No wallet key — import a key to enable Helios"

  pub handle_parsed : Option Json → Exec State (Unit {0})
  handle_parsed none = respond 400 (error_answer null (neg 32700) "Parse error")
  handle_parsed (some body) = handle_body body

  pub handle_request : String → Exec State (Unit {0})
  handle_request raw = handle_parsed (env.parse raw)
