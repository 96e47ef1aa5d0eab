-- ===== src/Desktop.antt =====
-- client/src/preload/index.ts and client/src/main/index.ts: what the renderer may ask of the main
-- process, and the handlers that answer, over the state of keystore.ts, rpc.ts, helios.ts and
-- torProcess.ts. A handler runs until it has answered before the next one does; the light client goes
-- on in between, from wait to wait.
pub mod Handlers
pub mod Declared
pub mod Rules
pub mod Keyless
pub mod Onion
pub mod Signed
pub mod Asked
pub mod Polls
pub mod Examples
use umbra_gateway.Prelude.{
  ℕ, suc, String, List, [], ◌∷◌, Option, none, some, Bool, true, false, Result, ok, err, is_some,
  if◌then◌else◌,
}
use umbra_gateway.Prelude.Int.{pos}
use umbra_gateway.Prelude.Json.{Json, null, bool, num, str, arr, obj, nil, field, end}
use umbra_gateway.Prelude.Text.{append, truthy}
use umbra_gateway.Exec.{Exec, pure, lift, gets, modify, ◌>>=◌, ◌>>◌, by_option, catch}
use umbra_gateway.X402.Types.{Account, info, log}
use umbra_gateway.GatewayFetch.{Url}
use umbra_gateway.Helios
use umbra_gateway.Helios.{HeliosStatus, Waiting, Ended, inits, shuts_down, ends}
use umbra_gateway.Tor
use umbra_gateway.Tor.{Tor, TorStatus}
use umbra_gateway.Keystore
use umbra_gateway.LocalProxy
use umbra_gateway.Rpc
use umbra_gateway.Rpc.{set_gateway, clear_gateway, in_world, rpc_call}
use umbra_gateway.Rpc.Wallet.{Balances, get_x402_usdc_balance, get_balances, send_token}
use umbra_gateway.Ipc.Signing.{Signer, TxParams, sign_message, sign_typed_data, send_transaction}
use umbra_gateway.Ipc.Status.{TorReport, tor_status}

-- The functions of the preload script. The calls of WalletConnect are the last three.
pub data Call : Type 0 where
  has_key generate_account get_address clear_key : Call
  import_key : String → Call
  set_gateway_url : String → Call
  disconnect_gateway get_all_balances : Call
  call : String → Json → Call
  send : String → String → String → Call
  tor_get_status helios_get_status x402_get_status network_get_info : Call
  wc_sign_message wc_sign_typed_data : String → Call
  wc_send_transaction : TxParams → Call

-- What happens to the main process: a call, the end of a wait of helios.ts, a change of Tor, or a
-- request of the light client to the local proxy, with the URL that the proxy was started for.
pub data Event : Type 0 where
  invokes : Call → Event
  helios_ends : ℕ → Ended → Event
  tor_is : Tor → Event
  light_asks : String → String → Event

-- `rpc.load_key` is not used: the key is the one in the file.
pub record Env (Blob : Type 0) : Type 0 where
  pub keystore : Keystore.Env Blob Account
  pub rpc : Rpc.Env
  pub signer : Signer
  pub parse_url : String → Option Url
  -- JSON.parse of localProxy.ts
  pub parse_body : String → Option Json
  -- the mnemonics that are drawn
  pub mnemonic : ℕ → String

-- `file` is `keystore.bin`, `helios_calls` are the calls of helios.ts, each at its wait.
pub record Desktop (Blob : Type 0) : Type 0 where
  pub file : Option Blob
  pub rpc : Rpc.State
  pub helios_calls : List (Option Waiting)
  pub tor : Tor
  pub cached_usdc_balance : Option String
  pub usdc_balance_fetching : Bool
  pub refreshes : ℕ
  pub drawn : ℕ

abbrev pub helios_status_text : HeliosStatus → String
helios_status_text Helios.disconnected = "disconnected"
helios_status_text Helios.syncing = "syncing"
helios_status_text Helios.synced = "synced"
helios_status_text Helios.error = "error"

abbrev pub tor_status_text : TorStatus → String
tor_status_text Tor.stopped = "stopped"
tor_status_text Tor.bootstrapping = "bootstrapping"
tor_status_text Tor.ready = "ready"
tor_status_text Tor.error = "error"

abbrev pub number_or_null : Option ℕ → Json
number_or_null none = null
number_or_null (some n) = num (pos n)

abbrev pub text_or_null : Option String → Json
text_or_null none = null
text_or_null (some s) = str s

-- Replies as values of JavaScript; a field that is `undefined` is left out.
abbrev pub done_reply : Json
done_reply = obj (field "ok" (bool true) end)

abbrev pub tor_reply : TorReport → Json
tor_reply r = obj (
    field "status" (str (tor_status_text r.status)) (
      field "socksPort" (number_or_null r.socks_port) (
        field "bootstrapPercent" (num (pos r.bootstrap_percent))
          (field "usingOnion" (bool r.using_onion) end))))

abbrev pub balances_reply : Balances → Json
balances_reply b = obj (
    field "address" (str b.address)
      (field "ethBalance" (str b.eth_balance) (field "usdcBalance" (str b.usdc_balance) end)))

abbrev pub x402_reply : Bool → Option String → Json
x402_reply connected balance =
    obj (field "connected" (bool connected) (field "usdcBalance" (text_or_null balance) end))

abbrev pub hash_reply : Option Json → Json
hash_reply none = obj end
hash_reply (some hash) = obj (field "txHash" hash end)

module _ {Blob : Type 0} (env : Env Blob) where
  -- what rpc.ts uses, with the key that is stored
  abbrev pub rpc_env : Option Blob → Rpc.Env
  rpc_env file = record env.rpc { load_key = (Keystore.load_key env.keystore file).0 }

  unfoldable pub in_file : {A : Type 0} → Exec (Option Blob) A → Exec (Desktop Blob) A
  in_file m d = let (r, file) = m d.file in (r, record d { file = file })

  unfoldable pub in_rpc : {A : Type 0} → (Rpc.Env → Exec Rpc.State A) → Exec (Desktop Blob) A
  in_rpc m d = let (r, s) = m (rpc_env d.file) d.rpc in (r, record d { rpc = s })

  -- what localProxy.ts uses
  abbrev pub proxy_env : Option Blob → LocalProxy.Env
  proxy_env file = record {
    x402 = env.rpc.x402;
    parse = env.parse_body;
    has_key = is_some file;
    load_key = (Keystore.load_key env.keystore file).0;
  }

  -- a request to the local proxy
  unfoldable pub in_proxy : String → String → Desktop Blob → Desktop Blob
  in_proxy url raw d =
      let before : LocalProxy.State = record { world = d.rpc.world; responses = []; errors = [] } in
      let after = (LocalProxy.handle_request (proxy_env d.file) url raw before).1 in
      record d { rpc = record d.rpc { world = after.world } }

  -- a step of helios.ts
  unfoldable pub in_helios : Helios.Event → Desktop Blob → Desktop Blob
  in_helios e d =
      let system = Helios.step (record { helios = d.rpc.helios; calls = d.helios_calls }) e in
      record d { rpc = record d.rpc { helios = system.helios }; helios_calls = system.calls }

  unfoldable pub invalidate_usdc_balance : Exec (Desktop Blob) (Unit {0})
  invalidate_usdc_balance = modify (λ d. record d {
    cached_usdc_balance = none;
    usdc_balance_fetching = false;
    refreshes = suc d.refreshes;
  })
