-- ===== src/Ipc/Signing.antt =====
-- client/src/main/index.ts: the handlers `wc:signMessage`, `wc:signTypedData` and
-- `wc:sendTransaction`, which sign for other applications. The three calls of the `Promise.all`
-- run one after the other. viem's signatures of messages and `JSON.parse` are arguments.
pub mod Transactions
pub mod Rules
use Prim.Native.String as Chars
use umbra_gateway.Prelude.{
  ℕ, suc, String, List, [], ◌∷◌, Option, none, some, Bool, true, false, Result, ok, err, get_or,
  if◌then◌else◌,
}
use umbra_gateway.Prelude.Int.{ℤ, pos}
use umbra_gateway.Prelude.Json.{
  Json, Fields, Items, str, arr, obj, cons, nil, end, field, property, display, null,
}
use umbra_gateway.Prelude.Text.{truthy, ◌===◌, parse_int16, show_ℕ}
use umbra_gateway.Exec.{Exec, pure, throw, lift, ◌>>=◌, by_option}
use umbra_gateway.X402.Types.{Account}
use umbra_gateway.Rpc.{Env, State, Transaction, is_truthy, big_int_of, attempt, rpc_call}
use umbra_gateway.Rpc.Wallet.{sign_transaction}

-- What viem's account signs besides transactions and transfers; `domain`, `types`, `primaryType`
-- and `message` are `none` where the text has no such field.
pub record TypedDataRequest : Type 0 where
  pub domain : Option Json
  pub types : Fields
  pub primary_type : Option Json
  pub message : Option Json

pub record Signer : Type 0 where
  pub sign_message : Account → String → Result String
  pub sign_typed_data : Account → TypedDataRequest → Result String
  pub parse : String → Result Json

-- `txParams`, an object of texts: its fields in order
abbrev pub TxParams : Type 0
TxParams = List (String × String)

-- txParams[name]
abbrev pub param : String → TxParams → Option String
param name [] = none
param name ((key, value) ∷ rest) = if key === name then some value else param name rest

abbrev fields_of : TxParams → Fields
fields_of [] = end
fields_of ((key, value) ∷ rest) = field key (str value) (fields_of rest)

-- const { EIP712Domain: _eip712Domain, ...filteredTypes } = types
unfoldable pub without_domain : Fields → Fields
without_domain end = end
without_domain (field key value rest) =
    let filtered = without_domain rest in
    if key === "EIP712Domain" then filtered else field key value filtered

-- the fields of a text and of an array, which are their elements by position
char_fields : ℕ → String → Fields
unfolding show_ℕ
char_fields n Chars.[] = end
char_fields n (Chars.◌∷◌ c s) =
    field (show_ℕ n) (str (Chars.◌∷◌ c Chars.[])) (char_fields (suc n) s)

item_fields : ℕ → Items → Fields
unfolding show_ℕ
item_fields n nil = end
item_fields n (cons value rest) = field (show_ℕ n) value (item_fields (suc n) rest)

-- `types` when it is destructured
spread : Option Json → Result Fields
unfolding char_fields item_fields
spread none = err "Cannot destructure 'types' as it is undefined."
spread (some null) = err "Cannot destructure 'types' as it is null."
spread (some (obj fields)) = ok fields
spread (some (arr items)) = ok (item_fields 0 items)
spread (some (str s)) = ok (char_fields 0 s)
spread (some other) = ok end

-- fetched.result
unfoldable pub result_of : Option Json → Result (Option Json)
unfolding property
result_of none = err "Cannot read properties of null (reading 'result')"
result_of (some answer) = property "result" answer

big_int_of_option : Option Json → Result ℤ
unfolding big_int_of
big_int_of_option none = err "Cannot convert undefined to a BigInt"
big_int_of_option (some value) = big_int_of value

module _ (env : Env) (signer : Signer) where
  -- wc:signMessage
  pub sign_message : String → Exec State String
  sign_message message = do account ← lift env.load_key; lift (signer.sign_message account message)

  -- wc:signTypedData
  pub sign_typed_data : String → Exec State String
  unfolding property spread
  sign_typed_data raw = do
    account ← lift env.load_key
    parsed ← lift (signer.parse raw)
    domain ← lift (property "domain" parsed)
    types ← lift (property "types" parsed)
    primary_type ← lift (property "primaryType" parsed)
    message ← lift (property "message" parsed)
    fields ← lift (spread types)
    lift (
        signer.sign_typed_data account (record {
          domain = domain;
          types = without_domain fields;
          primary_type = primary_type;
          message = message;
        }))

module _ (env : Env) where
  -- provided ? Promise.resolve(null) : rpcCall(method, params)
  unfoldable pub unless_provided : Option String → String → Json → Exec State (Option Json)
  unless_provided provided method params =
      by_option (truthy provided) (rpc_call env method params >>= λ answer. pure (some answer))
        (λ _. pure none)

  -- BigInt(provided ?? fetched.result)
  unfoldable pub pick : Option String → Option Json → Result ℤ
  unfolding big_int_of big_int_of_option result_of
  pick (some provided) fetched = big_int_of (str provided)
  pick none fetched = elim (result_of fetched) [
    | err message ↦ err message
    | ok value ↦ big_int_of_option value
  ]

  -- provided ? parseInt(provided, 16) : Number(fetched.result)
  unfoldable pub pick_nonce : Option String → Option Json → Result (Option ℤ)
  unfolding result_of parse_int16
  pick_nonce (some provided) fetched = ok (parse_int16 provided)
  pick_nonce none fetched = elim (result_of fetched) [
    | err message ↦ err message
    | ok value ↦ ok (env.to_number value)
  ]

  -- the answers of the three calls
  pub fetch_missing : Account → TxParams → Exec State (Option Json × (Option Json × Option Json))
  fetch_missing account tx = do
    first ← attempt (
        unless_provided (param "nonce" tx) "eth_getTransactionCount"
          (arr (cons (str account.address) (cons (str "pending") nil))))
    second ← attempt (unless_provided (param "gasPrice" tx) "eth_gasPrice" (arr nil))
    third ←
        attempt
          (unless_provided (param "gas" tx) "eth_estimateGas" (arr (cons (obj (fields_of tx)) nil)))
    nonce ← lift first
    gas_price ← lift second
    gas ← lift third
    pure (nonce, (gas_price, gas))

  -- `result.error` where it is set, and else `result.result`
  unfoldable pub sent : Json → Exec State (Option Json)
  unfolding property is_truthy display
  sent answer = do
    failed ← lift (property "error" answer)
    if is_truthy failed
        then (do
          message ← lift (property "message" (get_or failed null))
          throw (display (get_or message (str ""))))
        else lift (property "result" answer)

  -- wc:sendTransaction
  pub send_transaction : TxParams → Exec State (Option Json)
  unfolding big_int_of
  send_transaction tx = do
    account ← lift env.load_key
    fetched ← fetch_missing account tx
    value ← lift (big_int_of (str (get_or (param "value" tx) "0x0")))
    nonce ← lift (pick_nonce (truthy (param "nonce" tx)) fetched.0)
    gas_price ← lift (pick (param "gasPrice" tx) fetched.1.0)
    gas ← lift (pick (param "gas" tx) fetched.1.1)
    signed_tx ← sign_transaction env account (record {
      kind = "legacy";
      to = param "to" tx;
      value = value;
      data_bytes = some (get_or (param "data" tx) "0x");
      nonce = nonce;
      gas_price = gas_price;
      gas = gas;
      chain_id = pos 84532;
    })
    answer ← rpc_call env "eth_sendRawTransaction" (arr (cons (str signed_tx) nil))
    sent answer
