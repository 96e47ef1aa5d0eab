-- ===== src/Desktop/Handlers.antt =====
-- client/src/main/index.ts: the handlers of the renderer's calls, and runs of calls.
use umbra_gateway.Prelude.{
  suc, String, List, [], ◌∷◌, Option, none, some, true, false, is_some, if◌then◌else◌,
}
use umbra_gateway.Prelude.Json.{Json, null, bool, str, arr, obj, nil, field, end}
use umbra_gateway.Prelude.Text.{append, truthy}
use umbra_gateway.Exec.{Exec, pure, lift, gets, modify, ◌>>=◌, ◌>>◌, by_option, catch}
use umbra_gateway.X402.Types.{info, log}
use umbra_gateway.Helios.{inits, shuts_down, ends}
use umbra_gateway.Keystore
use umbra_gateway.Rpc.{set_gateway, clear_gateway, in_world, rpc_call}
use umbra_gateway.Rpc.Wallet.{get_x402_usdc_balance, get_balances, send_token}
use umbra_gateway.Ipc.Signing.{sign_message, sign_typed_data, send_transaction}
use umbra_gateway.Ipc.Status.{tor_status}
use umbra_gateway.Desktop.{
  Call, has_key, generate_account, get_address, clear_key, import_key, set_gateway_url,
  disconnect_gateway, get_all_balances, call, send, tor_get_status, helios_get_status,
  x402_get_status, network_get_info, wc_sign_message, wc_sign_typed_data, wc_send_transaction,
  Event, invokes, helios_ends, tor_is, light_asks, in_proxy, Env, Desktop, helios_status_text,
  done_reply, tor_reply, balances_reply, x402_reply, hash_reply, in_file, in_rpc, in_helios,
  invalidate_usdc_balance,
}

module _ {Blob : Type 0} (env : Env Blob) where
  -- rpc:setGateway; `initHelios` is left to itself
  unfoldable pub handle_set_gateway : String → Exec (Desktop Blob) Json
  handle_set_gateway url = do
    modify (λ d. record d { rpc = set_gateway url d.rpc })
    invalidate_usdc_balance env
    in_rpc env (λ e. in_world (log e.x402 info (append "gateway set to " url)))
    modify (in_helios env (inits url))
    pure done_reply

  -- rpc:disconnectGateway, up to the wait of `shutdownHelios`; the log entry after it is left out
  unfoldable pub handle_disconnect_gateway : Exec (Desktop Blob) Json
  handle_disconnect_gateway = do
    modify (λ d. record d { rpc = clear_gateway d.rpc })
    invalidate_usdc_balance env
    modify (in_helios env shuts_down)
    pure done_reply

  unfoldable pub handle_generate_account : Exec (Desktop Blob) Json
  handle_generate_account = do
    n ← gets (λ d. d.drawn)
    modify (λ d. record d { drawn = suc d.drawn })
    made ← in_file env (Keystore.generate_account env.keystore (env.mnemonic n))
    pure (obj (field "mnemonic" (str made.0) (field "address" (str made.1.address) end)))

  unfoldable pub handle_send_token : String → String → String → Exec (Desktop Blob) Json
  handle_send_token symbol to amount = do
    hash ← in_rpc env (λ e. send_token e symbol to amount)
    invalidate_usdc_balance env
    pure (hash_reply hash)

  -- the body of the `try` block of x402:getStatus
  unfoldable pub fetch_balance : Exec (Desktop Blob) Json
  fetch_balance = do
    account ← in_file env (Keystore.load_key env.keystore)
    balance ← in_rpc env (λ e. get_x402_usdc_balance e account.address)
    modify (λ d. record d { cached_usdc_balance = some balance })
    pure (x402_reply true (some balance))

  unfoldable pub poll_balance : Desktop Blob → Exec (Desktop Blob) Json
  poll_balance d =
      if is_some d.file
      then by_option d.cached_usdc_balance
          (if d.usdc_balance_fetching then pure (x402_reply true none) else (do
            modify (λ d. record d { usdc_balance_fetching = true })
            reply ← catch fetch_balance (λ message. pure (x402_reply true none))
            modify (λ d. record d { usdc_balance_fetching = false })
            pure reply))
          (λ balance. pure (x402_reply true (some balance)))
      else pure (x402_reply true none)

  -- x402:getStatus
  unfoldable pub handle_x402_get_status : Exec (Desktop Blob) Json
  handle_x402_get_status = do
    d ← gets (λ d. d)
    by_option (truthy d.rpc.gateway_url) (pure (x402_reply false none)) λ url. poll_balance d

  -- `params ?? []`
  abbrev pub params_of : Json → Json
  params_of null = arr nil
  params_of params = params

  -- the reply to a call; `none` is `undefined`
  unfoldable pub invoke : Call → Exec (Desktop Blob) (Option Json)
  invoke has_key = gets (λ d. some (bool (is_some d.file)))
  invoke generate_account = handle_generate_account >>= λ v. pure (some v)
  invoke get_address =
      in_file env (Keystore.load_key env.keystore) >>= λ account. pure (some (str account.address))
  invoke clear_key = in_file env (Keystore.clear_key env.keystore) >>= λ _. pure (some done_reply)
  invoke (import_key input) =
      in_file env (Keystore.wallet_import_key env.keystore input) >>= λ _. pure (some done_reply)
  invoke (set_gateway_url url) = handle_set_gateway url >>= λ v. pure (some v)
  invoke disconnect_gateway = handle_disconnect_gateway >>= λ v. pure (some v)
  invoke get_all_balances = in_rpc env get_balances >>= λ b. pure (some (balances_reply b))
  invoke (call method params) =
      in_rpc env (λ e. rpc_call e method (params_of params)) >>= λ v. pure (some v)
  invoke (send symbol to amount) = handle_send_token symbol to amount >>= λ v. pure (some v)
  invoke tor_get_status = do
    d ← gets (λ d. d)
    report ← lift (tor_status env.parse_url d.rpc.gateway_url d.tor)
    pure (some (tor_reply report))
  invoke helios_get_status =
      gets (λ d. some (obj (field "status" (str (helios_status_text d.rpc.helios.status)) end)))
  invoke x402_get_status = handle_x402_get_status >>= λ v. pure (some v)
  invoke network_get_info = gets (λ d. some (
      obj (
        field "name" (str "Base Sepolia")
          (field "heliosStatus" (str (helios_status_text d.rpc.helios.status)) end))))
  invoke (wc_sign_message message) =
      in_rpc env (λ e. sign_message e env.signer message) >>= λ v. pure (some (str v))
  invoke (wc_sign_typed_data raw) =
      in_rpc env (λ e. sign_typed_data e env.signer raw) >>= λ v. pure (some (str v))
  invoke (wc_send_transaction tx) = in_rpc env (λ e. send_transaction e tx)

  unfoldable pub step : Desktop Blob → Event → Desktop Blob
  step d (invokes c) = (invoke c d).1
  step d (helios_ends n ended) = in_helios env (ends n ended) d
  step d (tor_is tor) = record d { tor = tor }
  step d (light_asks url raw) = in_proxy env url raw d

  abbrev pub run : Desktop Blob → List Event → Desktop Blob
  run d [] = d
  run d (e ∷ es) = run (step d e) es
