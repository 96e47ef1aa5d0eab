-- ===== src/Desktop/Rules.antt =====
-- client/src/main/index.ts: a property of the stored key, and one of the state of rpc.ts, that the
-- steps of RPC calls keep are kept by the handlers.
use mathlib.Core.Path.{subst}
use umbra_gateway.Prelude.{String, Option, none, Bool, List, [], ◌∷◌, All, ◌≡◌, sym, ok}
use umbra_gateway.Exec.{Exec, modify}
use umbra_gateway.Exec.Stable.{Stable, stable_rules, Stable-bind, Stable-gets, Stable-pure}
use umbra_gateway.X402.Types.{Account}
use umbra_gateway.Helios
use umbra_gateway.Helios.{Helios}
use umbra_gateway.Keystore
use umbra_gateway.Keystore.Files.{load_key-file}
use umbra_gateway.LocalProxy.Carried.{handle_request-Stable}
use umbra_gateway.Rpc
use umbra_gateway.Rpc.{Transaction, in_world, set_gateway, clear_gateway}
use umbra_gateway.Rpc.Calls.{CallStable, logs-Stable, rpc_call-Stable}
use umbra_gateway.Rpc.Wallet.{sign_transaction}
use umbra_gateway.Rpc.Wallet.Reads.{get_x402_usdc_balance-Stable, get_balances-Stable}
use umbra_gateway.Rpc.Wallet.Transfers.{IsTransfer, send_token-Stable}
use umbra_gateway.Ipc.Signing.Transactions.{IsRequested}
use umbra_gateway.Ipc.Signing.Rules.{
  sign_message-Stable, sign_typed_data-Stable, send_transaction-Stable,
}
use umbra_gateway.Desktop.{
  Desktop, Env, Call, has_key, generate_account, get_address, clear_key, import_key,
  set_gateway_url, disconnect_gateway, get_all_balances, call, send, tor_get_status,
  helios_get_status, x402_get_status, network_get_info, wc_sign_message, wc_sign_typed_data,
  wc_send_transaction, Event, invokes, helios_ends, tor_is, light_asks, proxy_env, in_proxy,
  rpc_env, in_file, in_rpc, in_helios, invalidate_usdc_balance,
}
use umbra_gateway.Desktop.Handlers.{
  handle_set_gateway, handle_disconnect_gateway, handle_generate_account, handle_send_token,
  fetch_balance, poll_balance, handle_x402_get_status, invoke, step, run,
}

module _ {ℓ} {Blob : Type 0} (env : Env Blob) (IsUrl : String → Type ℓ) (F : Option Blob → Type ℓ)
    (R : Rpc.State → Type ℓ) where
  abbrev pub Both : Desktop Blob → Type ℓ
  Both d = F d.file × R d.rpc

  -- What holds of the file that is stored may be used by the steps of a call.
  pub record Kept : Type ℓ where
    pub calls : (file : Option Blob) → F file → CallStable (rpc_env env file) IsUrl R
    pub lights : (h : Helios) (s : Rpc.State) → R s → R (record s { helios = h })

  abbrev Signs : (Rpc.Env → Transaction → Type 0) → Type ℓ
  Signs May =
      (file : Option Blob)
      → F file
      → (account : Account) (t : Transaction) → (rpc_env env file).load_key ≡ ok account
      → May (rpc_env env file) t
      → Stable R (sign_transaction (rpc_env env file) account t)

  -- What a call may change besides.
  abbrev pub Allows : Call → Type ℓ
  Allows generate_account = (file : Option Blob) → F file
  Allows (import_key input) = (file : Option Blob) → F file
  Allows clear_key = F none
  Allows (set_gateway_url url) = (s : Rpc.State) → R s → R (set_gateway url s)
  Allows disconnect_gateway = (s : Rpc.State) → R s → R (clear_gateway s)
  Allows (send symbol to amount) = Signs (λ e. IsTransfer e symbol to amount)
  Allows (wc_send_transaction tx) = Signs (λ e. IsRequested tx)
  Allows _ = Unit

  module _ (k : Kept) where
    modify-Stable :
        (f : Desktop Blob → Desktop Blob)
        → ((d : Desktop Blob) → Both d → Both (f d))
        → Stable Both (modify f)
    unfolding modify
    modify-Stable f keeps = record { kept = λ {w} h. keeps w h }

    in_rpc-Stable :
        {A : Type 0} (m : Rpc.Env → Exec Rpc.State A)
        → ((file : Option Blob) → F file → Stable R (m (rpc_env env file)))
        → Stable Both (in_rpc env m)
    unfolding in_rpc
    in_rpc-Stable m each = record { kept = λ {w} h. (h.0, (each w.file h.0).kept h.1) }

    load_key-Stable : Stable Both (in_file env (Keystore.load_key env.keystore))
    unfolding in_file
    load_key-Stable = record {
      kept = λ {w} h. (subst F (sym (load_key-file env.keystore w.file)) h.0, h.1);
    }

    set_file-Stable :
        {A : Type 0} (m : Exec (Option Blob) A)
        → ((file : Option Blob) → F (m file).1)
        → Stable Both (in_file env m)
    unfolding in_file
    set_file-Stable m each = record { kept = λ {w} h. (each w.file, h.1) }

    clear-Stable : F none → Stable Both (in_file env (Keystore.clear_key env.keystore))
    unfolding in_file Keystore.clear_key modify
    clear-Stable empty = record { kept = λ h. (empty, h.1) }

    invalidate-Stable : Stable Both (invalidate_usdc_balance env)
    unfolding invalidate_usdc_balance
    invalidate-Stable = modify-Stable _ (λ d h. h)

    helios-Stable : (e : Helios.Event) → Stable Both (modify (in_helios env e))
    unfolding in_helios
    helios-Stable e = modify-Stable _ (λ d h. (h.0, k.lights _ d.rpc h.1))

    set_gateway-Stable :
        (url : String)
        → ((s : Rpc.State) → R s → R (set_gateway url s))
        → Stable Both (handle_set_gateway env url)
    unfolding handle_set_gateway
    set_gateway-Stable url sets =
        Stable-bind _ _ (modify-Stable _ (λ d h. (h.0, sets d.rpc h.1))) λ _.
          Stable-bind _ _ invalidate-Stable λ _.
            Stable-bind _ _
              (in_rpc-Stable _ (λ file f. logs-Stable _ IsUrl (k.calls file f).steps _ _))
              λ _. Stable-bind _ _ (helios-Stable _) λ _. Stable-pure _

    disconnect-Stable :
        ((s : Rpc.State) → R s → R (clear_gateway s)) → Stable Both (handle_disconnect_gateway env)
    unfolding handle_disconnect_gateway
    disconnect-Stable clears =
        Stable-bind _ _ (modify-Stable _ (λ d h. (h.0, clears d.rpc h.1))) λ _.
          Stable-bind _ _ invalidate-Stable
            λ _. Stable-bind _ _ (helios-Stable _) λ _. Stable-pure _

    generate-Stable : ((file : Option Blob) → F file) → Stable Both (handle_generate_account env)
    unfolding handle_generate_account
    generate-Stable all_files = Stable-bind _ _ (Stable-gets _) λ n.
        Stable-bind _ _ (modify-Stable _ (λ d h. h))
          λ _. Stable-bind _ _ (set_file-Stable _ (λ file. all_files _)) λ made. Stable-pure _

    send-Stable :
        (symbol to amount : String)
        → Signs (λ e. IsTransfer e symbol to amount)
        → Stable Both (handle_send_token env symbol to amount)
    unfolding handle_send_token
    send-Stable symbol to amount signs =
        Stable-bind _ _
          (in_rpc-Stable _
            (λ file f. send_token-Stable _ symbol to amount (k.calls file f) (signs file f)))
          λ hash. Stable-bind _ _ invalidate-Stable λ _. Stable-pure _

    fetch-Stable : Stable Both (fetch_balance env)
    unfolding fetch_balance
    fetch-Stable = Stable-bind _ _ load_key-Stable λ account.
        Stable-bind _ _
          (in_rpc-Stable _
            (λ file f. get_x402_usdc_balance-Stable _ (k.calls file f) account.address))
          λ balance. Stable-bind _ _ (modify-Stable _ (λ d h. h)) λ _. Stable-pure _

    set_fetching-Stable :
        (b : Bool) → Stable Both (modify (λ d. record d { usdc_balance_fetching = b }))
    set_fetching-Stable b = modify-Stable _ (λ d h. h)

    poll-Stable : (d : Desktop Blob) → Stable Both (poll_balance env d)
    unfolding poll_balance
    poll-Stable d = search (stable_rules, fetch-Stable, set_fetching-Stable) depth 12

    x402-Stable : Stable Both (handle_x402_get_status env)
    unfolding handle_x402_get_status
    x402-Stable = search (stable_rules, poll-Stable) depth 9

    pub invoke-Stable : (c : Call) → Allows c → Stable Both (invoke env c)
    unfolding invoke
    invoke-Stable has_key allowed = Stable-gets _
    invoke-Stable generate_account allowed = search (stable_rules, generate-Stable allowed)
    invoke-Stable get_address allowed = search (stable_rules, load_key-Stable)
    invoke-Stable clear_key allowed = Stable-bind _ _ (clear-Stable allowed) λ _. Stable-pure _
    invoke-Stable (import_key input) allowed =
        Stable-bind _ _ (set_file-Stable _ (λ file. allowed _)) λ _. Stable-pure _
    invoke-Stable (set_gateway_url url) allowed =
        search (stable_rules, set_gateway-Stable url allowed)
    invoke-Stable disconnect_gateway allowed = search (stable_rules, disconnect-Stable allowed)
    invoke-Stable get_all_balances allowed =
        Stable-bind _ _ (in_rpc-Stable _ (λ file f. get_balances-Stable _ (k.calls file f)))
          λ b. Stable-pure _
    invoke-Stable (call method params) allowed =
        Stable-bind _ _
          (in_rpc-Stable _ (λ file f. rpc_call-Stable _ IsUrl (k.calls file f) method _))
          λ v. Stable-pure _
    invoke-Stable (send symbol to amount) allowed =
        search (stable_rules, send-Stable symbol to amount allowed)
    invoke-Stable tor_get_status allowed = search stable_rules
    invoke-Stable helios_get_status allowed = Stable-gets _
    invoke-Stable x402_get_status allowed = search (stable_rules, x402-Stable)
    invoke-Stable network_get_info allowed = Stable-gets _
    invoke-Stable (wc_sign_message message) allowed =
        Stable-bind _ _ (in_rpc-Stable _ (λ file f. sign_message-Stable _ env.signer message))
          λ v. Stable-pure _
    invoke-Stable (wc_sign_typed_data raw) allowed =
        Stable-bind _ _ (in_rpc-Stable _ (λ file f. sign_typed_data-Stable _ env.signer raw))
          λ v. Stable-pure _
    invoke-Stable (wc_send_transaction tx) allowed =
        in_rpc-Stable _ (λ file f. send_transaction-Stable _ (k.calls file f) tx (allowed file f))

    -- A request of the light client, through the local proxy.
    proxy-Both :
        (d : Desktop Blob) (url raw : String) → IsUrl url → Both d → Both (in_proxy env url raw d)
    unfolding in_proxy in_world
    proxy-Both d url raw is h = (
      h.0,
      (handle_request-Stable (proxy_env env d.file) url (λ w. R (record d.rpc { world = w }))
            (λ body account loaded. record {
              kept =
                  λ {w} r. ((k.calls d.file h.0).steps.requests url body account is loaded).kept r;
            })
            raw).kept
          h.1,
    )

    -- What an event may change besides.
    abbrev pub AllowsEvent : Event → Type ℓ
    AllowsEvent (invokes c) = Allows c
    AllowsEvent (light_asks url raw) = IsUrl url
    AllowsEvent _ = Unit

    pub run-Both :
        (d : Desktop Blob) (es : List Event) → All AllowsEvent es → Both d → Both (run env d es)
    unfolding step in_helios
    run-Both d [] allowed h = h
    run-Both d (invokes c ∷ es) (a, allowed) h =
        run-Both (step env d (invokes c)) es allowed ((invoke-Stable c a).kept h)
    run-Both d (helios_ends n ended ∷ es) (a, allowed) h =
        run-Both (step env d (helios_ends n ended)) es allowed (h.0, k.lights _ d.rpc h.1)
    run-Both d (tor_is tor ∷ es) (a, allowed) h = run-Both (step env d (tor_is tor)) es allowed h
    run-Both d (light_asks url raw ∷ es) (is, allowed) h =
        run-Both (step env d (light_asks url raw)) es allowed (proxy-Both d url raw is h)
