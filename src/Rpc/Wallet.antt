-- ===== src/Rpc/Wallet.antt =====
-- client/src/main/rpc.ts: balances, and the transfer of tokens.
pub mod Transfers
pub mod Reads
use umbra_gateway.Prelude.{
  ℕ, String, List, [], ◌∷◌, Option, none, some, Result, ok, err, if◌then◌else◌,
}
use umbra_gateway.Prelude.Int.{ℤ, pos}
use umbra_gateway.Prelude.Json.{Json, str, arr, obj, cons, nil, end, field, display, null}
use umbra_gateway.Prelude.Text.{truthy, ◌===◌, take, take_last}
use umbra_gateway.Exec.{Exec, pure, throw, lift, gets, ◌>>=◌, ◌>>◌, by_option}
use umbra_gateway.X402.Types.{Account, info, log}
use umbra_gateway.X402.Protocol.{◌<>◌}
use umbra_gateway.Rpc.{
  Env, State, Transaction, usdc_address, unwrap_rpc_result, big_int_of, hex_to_big_int, in_world,
  all, show_result, rpc_call,
}

pub record Balances : Type 0 where
  pub address : String
  pub eth_balance : String
  pub usdc_balance : String

-- `result ?? "0x0"`, as BigInt takes it
unfoldable pub gas_price_of : Option Json → Result ℤ
unfolding big_int_of
gas_price_of none = big_int_of (str "0x0")
gas_price_of (some null) = big_int_of (str "0x0")
gas_price_of (some value) = big_int_of value

module _ (env : Env) where
  -- the parameters of an eth_call of the token's contract
  unfoldable pub balance_call : String → Json
  balance_call encoded = arr (
      cons (obj (field "to" (str usdc_address) (field "data" (str encoded) end)))
        (cons (str "latest") nil))

  pub get_x402_usdc_balance : String → Exec State String
  get_x402_usdc_balance address = do
    url ← gets (λ s. s.gateway_url)
    by_option (truthy url) (throw "No gateway connected.") λ _. do
      encoded ← lift (env.encode_balance_of address)
      raw ← rpc_call env "eth_call" (balance_call encoded)
      hex ← lift (unwrap_rpc_result env.stringify raw)
      value ← lift (hex_to_big_int hex)
      pure (env.format_units value 6)

  pub get_balances : Exec State Balances
  get_balances = do
    url ← gets (λ s. s.gateway_url)
    by_option (truthy url) (throw "No gateway connected. Set a gateway URL first.") λ _. do
      account ← lift env.load_key
      encoded ← lift (env.encode_balance_of account.address)
      raw ←
          all
            (rpc_call env "eth_getBalance"
              (arr (cons (str account.address) (cons (str "latest") nil))))
            (rpc_call env "eth_call" (balance_call encoded))
      eth_hex ← lift (unwrap_rpc_result env.stringify raw.0)
      usdc_hex ← lift (unwrap_rpc_result env.stringify raw.1)
      eth ← lift (hex_to_big_int eth_hex)
      usdc ← lift (hex_to_big_int usdc_hex)
      pure (record {
        address = account.address;
        eth_balance = env.format_ether eth;
        usdc_balance = env.format_units usdc 6;
      })

  -- await account.signTransaction(…)
  unfoldable pub sign_transaction : Account → Transaction → Exec State String
  sign_transaction account t s =
      (env.sign_transaction account t, record s { signed = t ∷ s.signed })

  -- what is signed for a transfer
  unfoldable pub transfer : String → String → String → Option ℤ → ℤ → Result Transaction
  transfer symbol to amount nonce gas_price =
      if symbol === "ETH"
      then (elim (env.parse_ether amount) [
        | err message ↦ err message
        | ok value ↦ ok (record {
          kind = "legacy";
          to = some to;
          value = value;
          data_bytes = none;
          nonce = nonce;
          gas_price = gas_price;
          gas = pos 21000;
          chain_id = pos 84532;
        })
      ])
      else if symbol === "USDC"
      then (elim (env.parse_units amount 6) [
        | err message ↦ err message
        | ok units ↦ elim (env.encode_transfer to units) [
          | err message ↦ err message
          | ok encoded ↦ ok (record {
            kind = "legacy";
            to = some usdc_address;
            value = pos 0;
            data_bytes = some encoded;
            nonce = nonce;
            gas_price = gas_price;
            gas = pos 65000;
            chain_id = pos 84532;
          })
        ]
      ])
      else err ("Unknown token: " <> symbol)

  -- the broadcast of a signed transaction
  pub broadcast : String → Exec State (Option Json)
  broadcast signed_tx = do
    raw ← rpc_call env "eth_sendRawTransaction" (arr (cons (str signed_tx) nil))
    hash ← lift (unwrap_rpc_result env.stringify raw)
    in_world (log env.x402 info ("✓ tx broadcast: " <> show_result display hash))
    pure hash

  pub send_token : String → String → String → Exec State (Option Json)
  send_token symbol to amount = do
    url ← gets (λ s. s.gateway_url)
    by_option (truthy url) (throw "No gateway connected. Set a gateway URL first.") λ _. do
      account ← lift env.load_key
      raw ←
          all
            (rpc_call env "eth_getTransactionCount"
              (arr (cons (str account.address) (cons (str "pending") nil))))
            (rpc_call env "eth_gasPrice" (arr nil))
      count ← lift (unwrap_rpc_result env.stringify raw.0)
      price ← lift (unwrap_rpc_result env.stringify raw.1)
      gas_price ← lift (gas_price_of price)
      t ← lift (transfer symbol to amount (env.to_number count) gas_price)
      signed_tx ← sign_transaction account t
      in_world (
          log env.x402 info (
            "→ sending "
            <> amount
            <> " "
            <> symbol
            <> " to "
            <> take 6 to
            <> "..."
            <> take_last 4 to))
      broadcast signed_tx
