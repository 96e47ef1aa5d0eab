-- ===== src/Rpc.antt =====
-- client/src/main/rpc.ts: RPC calls through the light client or the gateway. No other handler runs
-- during an await, and the two calls of a `Promise.all` run one after the other, as the queue of
-- the gateway runs them. What viem does is an argument.
pub mod Wallet
pub mod Calls
pub mod Routing
pub mod Examples
use umbra_gateway.Prelude.{
  ℕ, zero, String, List, [], ◌∷◌, Option, none, some, Bool, true, false, not, ◌&&◌, ◌||◌, Result,
  ok, err, if◌then◌else◌,
}
use umbra_gateway.Prelude.Int.{ℤ, pos}
use umbra_gateway.Prelude.Json.{
  Json, null, bool, num, str, arr, obj, Items, cons, nil, end, field, property, display,
}
use umbra_gateway.Prelude.Text.{truthy, ◌===◌, take, take_last, show_ℤ}
use umbra_gateway.Exec.{Exec, pure, throw, lift, gets, ◌>>=◌, ◌>>◌, by_option, catch}
use umbra_gateway.X402.Types
use umbra_gateway.X402.Types.{World, Account, out, into, info, error, now, log}
use umbra_gateway.X402.Protocol.{◌<>◌, to_big_int}
use umbra_gateway.X402.Request.{x402_request}
use umbra_gateway.Helios.{Helios, is_used}

pub record Transaction : Type 0 where
  pub kind : String
  pub to : Option String
  pub value : ℤ
  pub data_bytes : Option String
  pub nonce : Option ℤ
  pub gas_price : ℤ
  pub gas : ℤ
  pub chain_id : ℤ

-- `to_number` is `Number(…)`, with `none` for NaN.
pub record Env : Type 0 where
  pub x402 : Types.Env
  pub load_key : Result Account
  pub ask_helios : List (String × Json) → String → Json → Result Json
  pub stringify : Json → String
  pub encode_balance_of : String → Result String
  pub encode_transfer : String → ℤ → Result String
  pub format_ether : ℤ → String
  pub format_units : ℤ → ℕ → String
  pub parse_ether : String → Result ℤ
  pub parse_units : String → ℕ → Result ℤ
  pub to_number : Option Json → Option ℤ
  pub sign_transaction : Account → Transaction → Result String

-- `asked` are the requests to the light client, `signed` the transactions signed, the newest first.
pub record State : Type 0 where
  pub gateway_url : Option String
  pub helios : Helios
  pub world : World
  pub asked : List (String × Json)
  pub signed : List Transaction

unfoldable pub set_gateway : String → State → State
set_gateway url s = record s { gateway_url = some url }

unfoldable pub clear_gateway : State → State
clear_gateway s = record s { gateway_url = none }

abbrev pub usdc_address : String
usdc_address = "0x036CbD53842c5426634e7929541eC2318f3dCF7e"

-- a JSON value as a condition
unfoldable pub is_truthy : Option Json → Bool
is_truthy none = false
is_truthy (some null) = false
is_truthy (some (bool b)) = b
is_truthy (some (num (pos zero))) = false
is_truthy (some (str s)) = not (s === "")
is_truthy _ = true

-- `error.message ?? JSON.stringify(error)`
message_of : (Json → String) → Json → Result (Option Json) → String
unfolding display
message_of stringify failure (ok (some null)) = stringify failure
message_of stringify failure (ok (some message)) = display message
message_of stringify failure _ = stringify failure

thrown : (Json → String) → Option Json → String
unfolding message_of property
thrown stringify none = ""
thrown stringify (some failure) = message_of stringify failure (property "message" failure)

-- `undefined` is `none`
unfoldable pub unwrap_rpc_result : (Json → String) → Json → Result (Option Json)
unfolding is_truthy thrown property
unwrap_rpc_result stringify raw = elim (property "error" raw) [
  | err message ↦ err message
  | ok failed ↦ if is_truthy failed then err (thrown stringify failed) else property "result" raw
]

-- BigInt(…) of a JSON value
unfoldable pub big_int_of : Json → Result ℤ
unfolding to_big_int display
big_int_of null = err "Cannot convert null to a BigInt"
big_int_of (bool b) = ok (pos (if b then 1 else 0))
big_int_of (num n) = ok n
big_int_of other = to_big_int (display other)

unfoldable pub hex_to_big_int : Option Json → Result ℤ
unfolding big_int_of
hex_to_big_int none = ok (pos 0)
hex_to_big_int (some (str s)) = if s === "" || s === "0x" then ok (pos 0) else big_int_of (str s)
hex_to_big_int (some other) = big_int_of other

-- HELIOS_BYPASS
abbrev pub is_bypassed : String → Bool
is_bypassed method = method === "eth_estimateGas" || method === "eth_createAccessList"

unfoldable pub in_world {ℓ} : {A : Type ℓ} → Exec World A → Exec State A
in_world m s = let (r, w) = m s.world in (r, record s { world = w })

-- a promise of `Promise.all`: its error is seen once all have been awaited
unfoldable pub attempt {ℓ} : {A : Type ℓ} → Exec State A → Exec State (Result A)
attempt m s = let (r, s') = m s in (ok r, s')

unfoldable pub all {ℓ} : {A : Type ℓ} → Exec State A → Exec State A → Exec State (A × A)
unfolding attempt
all m n = do first ← attempt m; second ← attempt n; a ← lift first; b ← lift second; pure (a, b)

abbrev pub credits_suffix : Option ℤ → String
credits_suffix none = ""
credits_suffix (some n) = " [credits: " <> show_ℤ n <> "]"

-- a value in a template literal, as `show` prints it
unfoldable pub show_result : (Json → String) → Option Json → String
show_result show none = "undefined"
show_result show (some value) = show value

module _ (env : Env) where
  -- await helios.request({ method, params })
  unfoldable pub ask : String → Json → Exec State Json
  ask method params s =
      (env.ask_helios s.asked method params, record s { asked = (method, params) ∷ s.asked })

  -- the light client's answer in an envelope, or `none` where the call falls back
  pub via_helios : String → Json → Exec State (Option Json)
  via_helios method params = do
    in_world (log env.x402 out ("→ " <> method <> " (helios)"))
    catch
        (do
          value ← ask method params
          in_world (log env.x402 into ("← " <> method <> ": " <> take 60 (env.stringify value)))
          time ← in_world (now env.x402)
          pure (
              some (
                obj (
                  field "jsonrpc" (str "2.0")
                    (field "id" (num (pos time)) (field "result" value end))))))
        (λ message. do
          in_world
              (log env.x402 error ("helios request failed, falling back to direct: " <> message))
          pure none)

  unfoldable pub rpc_body : String → Json → ℕ → Json
  rpc_body method params time = obj (
      field "jsonrpc" (str "2.0")
        (field "method" (str method) (field "params" params (field "id" (num (pos time)) end))))

  -- the log entry for the gateway's answer
  pub report : String → Json → Option ℤ → Exec State (Unit {0})
  report method answer credits = do
    failed ← lift (property "error" answer)
    if is_truthy failed
        then in_world (log env.x402 error ("← error: " <> show_result env.stringify failed))
        else (do
          value ← lift (property "result" answer)
          in_world (
              log env.x402 into (
                "← "
                <> method
                <> ": "
                <> show_result (λ v. take 60 (env.stringify v)) value
                <> credits_suffix credits)))

  pub direct : String → String → Json → Exec State Json
  direct gateway_url method params = do
    account ← lift env.load_key
    time ← in_world (now env.x402)
    in_world (log env.x402 out ("→ " <> method <> " (direct)"))
    answer ← in_world (x402_request env.x402 gateway_url (rpc_body method params time) account)
    report method answer.result answer.credits_remaining
    pure answer.result

  -- `rpcCall` with a gateway, where the flag is whether the light client is asked
  pub route : Bool → String → String → Json → Exec State Json
  route true gateway_url method params = do
    answered ← via_helios method params
    by_option answered (direct gateway_url method params) pure
  route false gateway_url method params = direct gateway_url method params

  pub rpc_call : String → Json → Exec State Json
  rpc_call method params = do
    url ← gets (λ s. s.gateway_url)
    by_option (truthy url) (throw "No gateway connected. Set a gateway URL first.") λ gateway_url.
        do
          helios ← gets (λ s. s.helios)
          route (is_used helios && not (is_bypassed method)) gateway_url method params
