-- ===== src/Desktop/Polls.antt =====
-- client/src/main/index.ts: the cached balance, over calls that run one after the other.
use mathlib.Core.Path.{subst}
use umbra_gateway.Prelude.{
  String, List, [], ◌∷◌, Option, some, none, Bool, true, false, All, ◌≡◌, refl, sym, ap, is_some,
  ok, if◌then◌else◌,
}
use umbra_gateway.Prelude.Json.{Json}
use umbra_gateway.Prelude.Text.{truthy}
use umbra_gateway.Exec.{Exec, modify, pure, ◌>>=◌, by_option}
use umbra_gateway.Exec.Stable.{
  Stable, stable_rules, Stable-bind, Stable-bind-gets, Stable-by_option, Stable-gets, Stable-pure,
}
use umbra_gateway.Rpc
use umbra_gateway.Desktop.{
  Desktop, Env, Call, has_key, generate_account, get_address, clear_key, import_key,
  set_gateway_url, disconnect_gateway, get_all_balances, call, send, tor_get_status,
  helios_get_status, x402_get_status, network_get_info, wc_sign_message, wc_sign_typed_data,
  wc_send_transaction, Event, invokes, helios_ends, tor_is, light_asks, in_proxy, in_file, in_rpc,
  in_helios, x402_reply,
}
use umbra_gateway.Desktop.Handlers.{
  handle_generate_account, poll_balance, handle_x402_get_status, invoke, step, run,
}

-- A call that neither changes the gateway nor sends a token.
abbrev pub LeavesBalance : Event → Type 0
LeavesBalance (invokes (set_gateway_url url)) = ⊥
LeavesBalance (invokes disconnect_gateway) = ⊥
LeavesBalance (invokes (send symbol to amount)) = ⊥
LeavesBalance _ = Unit

module _ {Blob : Type 0} (env : Env Blob) (balance : String) where
  abbrev Cached : Desktop Blob → Type 0
  Cached d = d.cached_usdc_balance ≡ some balance

  in_rpc-Cached : {A : Type 0} (m : Rpc.Env → Exec Rpc.State A) → Stable Cached (in_rpc env m)
  unfolding in_rpc
  in_rpc-Cached m = record { kept = λ h. h }

  in_file-Cached : {A : Type 0} (m : Exec (Option Blob) A) → Stable Cached (in_file env m)
  unfolding in_file
  in_file-Cached m = record { kept = λ h. h }

  generate-Cached : Stable Cached (handle_generate_account env)
  unfolding handle_generate_account modify
  generate-Cached = Stable-bind _ _ (Stable-gets _) λ n.
      Stable-bind _ _ (record { kept = λ h. h })
        λ _. Stable-bind _ _ (in_file-Cached _) λ made. Stable-pure _

  -- the balance that a poll replies while it is cached
  abbrev pub shown : Bool → Option String
  shown true = some balance
  shown false = none

  cached_poll :
      (stored : Bool) (cached : Option String) (fetch : Exec (Desktop Blob) Json)
      → cached ≡ some balance
      → (if stored
          then by_option cached fetch (λ found. pure (x402_reply true (some found)))
          else pure (x402_reply true none))
        ≡ pure (x402_reply true (shown stored))
  unfolding by_option
  cached_poll true (some found) fetch e = ap (λ o. pure (x402_reply true o)) e
  cached_poll true none fetch e = cc e
  cached_poll false cached fetch e = refl

  poll_balance-Cached :
      (d : Desktop Blob)
      → Cached d
      → poll_balance env d ≡ pure (x402_reply true (shown (is_some d.file)))
  unfolding poll_balance
  poll_balance-Cached d h = cached_poll (is_some d.file) d.cached_usdc_balance _ h

  poll-Cached : (d : Desktop Blob) → Cached d → Stable Cached (poll_balance env d)
  poll-Cached d h = subst (Stable Cached) (sym (poll_balance-Cached d h)) (Stable-pure _)

  status-Cached : Stable Cached (handle_x402_get_status env)
  unfolding handle_x402_get_status
  status-Cached =
      Stable-bind-gets _ {Known = Cached} _ (λ d h. h)
        λ d h. Stable-by_option _ _ _ (λ url. poll-Cached d h) (Stable-pure _)

  invoke-Cached : (c : Call) → LeavesBalance (invokes c) → Stable Cached (invoke env c)
  unfolding invoke
  invoke-Cached has_key leaves = Stable-gets _
  invoke-Cached generate_account leaves = search (stable_rules, generate-Cached)
  invoke-Cached get_address leaves = search (stable_rules, in_file-Cached)
  invoke-Cached clear_key leaves = search (stable_rules, in_file-Cached)
  invoke-Cached (import_key input) leaves = search (stable_rules, in_file-Cached)
  invoke-Cached (set_gateway_url url) leaves = elim leaves [ ]
  invoke-Cached disconnect_gateway leaves = elim leaves [ ]
  invoke-Cached get_all_balances leaves = search (stable_rules, in_rpc-Cached)
  invoke-Cached (call method params) leaves = search (stable_rules, in_rpc-Cached)
  invoke-Cached (send symbol to amount) leaves = elim leaves [ ]
  invoke-Cached tor_get_status leaves = search stable_rules
  invoke-Cached helios_get_status leaves = Stable-gets _
  invoke-Cached x402_get_status leaves = search (stable_rules, status-Cached)
  invoke-Cached network_get_info leaves = Stable-gets _
  invoke-Cached (wc_sign_message message) leaves = search (stable_rules, in_rpc-Cached)
  invoke-Cached (wc_sign_typed_data raw) leaves = search (stable_rules, in_rpc-Cached)
  invoke-Cached (wc_send_transaction tx) leaves = in_rpc-Cached _

  run-Cached :
      (d : Desktop Blob) (es : List Event) → All LeavesBalance es → Cached d → Cached (run env d es)
  unfolding step in_helios in_proxy
  run-Cached d [] leaves h = h
  run-Cached d (invokes c ∷ es) (l, leaves) h =
      run-Cached (step env d (invokes c)) es leaves ((invoke-Cached c l).kept h)
  run-Cached d (helios_ends n ended ∷ es) (l, leaves) h =
      run-Cached (step env d (helios_ends n ended)) es leaves h
  run-Cached d (tor_is tor ∷ es) (l, leaves) h = run-Cached (step env d (tor_is tor)) es leaves h
  run-Cached d (light_asks url raw ∷ es) (l, leaves) h =
      run-Cached (step env d (light_asks url raw)) es leaves h

  -- Once a balance is cached, as long as the gateway stays and no token is sent, and where each handler
  -- ends before the next call comes, so that no fetch is under way that could still store another
  -- balance: whatever keys are removed, imported or generated meanwhile, a poll with a gateway set
  -- replies that balance if any key is stored then, without asking the gateway.
  pub old_balance_shown :
      (d : Desktop Blob) (es : List Event)
      → All LeavesBalance es
      → d.cached_usdc_balance ≡ some balance
      → (url : String) → truthy (run env d es).rpc.gateway_url ≡ some url
      → handle_x402_get_status env (run env d es)
        ≡ (ok (x402_reply true (shown (is_some (run env d es).file))), run env d es)
  unfolding handle_x402_get_status ◌>>=◌ by_option
  old_balance_shown d es leaves h url set = polled (truthy last.rpc.gateway_url) set
    where
      last : Desktop Blob
      last = run env d es

      polled :
          (gateway : Option String)
          → gateway ≡ some url
          → by_option gateway (pure (x402_reply false none)) (λ url. poll_balance env last) last
            ≡ (ok (x402_reply true (shown (is_some last.file))), last)
      polled none e = cc e
      polled (some x) e =
          unfold by_option in
          unfold pure in ap (λ m. m last) (poll_balance-Cached last (run-Cached d es leaves h))
