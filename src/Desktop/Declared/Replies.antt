-- ===== src/Desktop/Declared/Replies.antt =====
-- client/src/main/index.ts: the handlers return what the preload script declares.
use umbra_gateway.Prelude.{ℕ, String, Option, none, some, Bool, true, false, ◌≡◌, refl, ok, is_some}
use umbra_gateway.Prelude.Json.{Json}
use umbra_gateway.Prelude.Text.{truthy}
use umbra_gateway.Exec.{Exec, pure, ◌>>=◌}
use umbra_gateway.Exec.Yields.{
  Yields, Yields-pure, Yields-bind, Yields-by_option, Yields-if, Yields-gets, Yields-catch,
}
use umbra_gateway.Ipc.Status.{TorReport}
use umbra_gateway.Desktop.{
  Desktop, Env, Call, has_key, generate_account, get_address, clear_key, import_key,
  set_gateway_url, disconnect_gateway, get_all_balances, call, send, tor_get_status,
  helios_get_status, x402_get_status, network_get_info, wc_sign_message, wc_sign_typed_data,
  wc_send_transaction, tor_reply, x402_reply,
}
use umbra_gateway.Desktop.Handlers.{
  handle_set_gateway, handle_disconnect_gateway, handle_generate_account, fetch_balance,
  poll_balance, handle_x402_get_status, invoke,
}
use umbra_gateway.Desktop.Declared.{
  fits, field_fits, all_fit, has_shape, declared, passes_on, Shape,
}

abbrev Fits : Shape → Json → Type 0
Fits shape value = has_shape shape (some value) ≡ true

module _ {Blob : Type 0} (env : Env Blob) where
  -- a reply that a handler returns is passed on
  reply :
      (shape : Shape) (handler : Exec (Desktop Blob) Json)
      → Yields (Fits shape) handler
      → Yields (λ v. has_shape shape v ≡ true) (handler >>= λ v. pure (some v))
  reply shape handler y = Yields-bind _ _ λ w v e. Yields-pure (some v) (y.yields w v e)

  set_gateway-Fits :
      (url : String) → Yields (Fits (declared (set_gateway_url url))) (handle_set_gateway env url)
  unfolding handle_set_gateway has_shape declared all_fit field_fits fits
  set_gateway-Fits url = Yields-bind _ _ λ w _ e.
      Yields-bind _ _ λ w _ e. Yields-bind _ _ λ w _ e. Yields-bind _ _ λ w _ e. Yields-pure _ refl

  disconnect-Fits : Yields (Fits (declared disconnect_gateway)) (handle_disconnect_gateway env)
  unfolding handle_disconnect_gateway has_shape declared all_fit field_fits fits
  disconnect-Fits =
      Yields-bind _ _ λ w _ e. Yields-bind _ _ λ w _ e. Yields-bind _ _ λ w _ e. Yields-pure _ refl

  generate-Fits : Yields (Fits (declared generate_account)) (handle_generate_account env)
  unfolding handle_generate_account has_shape declared all_fit field_fits fits
  generate-Fits =
      Yields-bind _ _
        λ w _ e. Yields-bind _ _ λ w _ e. Yields-bind _ _ λ w made e. Yields-pure _ refl

  abbrev FitsPoll : Json → Type 0
  FitsPoll = Fits (declared x402_get_status)

  x402-Fits : (connected : Bool) (balance : Option String) → FitsPoll (x402_reply connected balance)
  unfolding has_shape declared all_fit field_fits fits
  x402-Fits connected none = refl
  x402-Fits connected (some balance) = refl

  fetch-Fits : Yields FitsPoll (fetch_balance env)
  unfolding fetch_balance
  fetch-Fits = Yields-bind _ _ λ w account e.
      Yields-bind _ _
        λ w balance e. Yields-bind _ _ λ w _ e. Yields-pure _ (x402-Fits true (some balance))

  poll-Fits : (d : Desktop Blob) → Yields FitsPoll (poll_balance env d)
  unfolding poll_balance
  poll-Fits d =
      Yields-if (is_some d.file) _ _
        (λ stored.
          Yields-by_option d.cached_usdc_balance _ _
            (Yields-if d.usdc_balance_fetching _ _ (λ fetching. Yields-pure _ (x402-Fits true none))
              (λ idle. Yields-bind _ _ λ w _ e. Yields-bind _ _ λ w reply e.
                Yields-bind _ _ λ w' _ e'. Yields-pure reply (
                  (Yields-catch _ _ fetch-Fits
                      (λ message. Yields-pure _ (x402-Fits true none))).yields
                    w reply e)))
            (λ balance found. Yields-pure _ (x402-Fits true (some balance))))
        (λ none_stored. Yields-pure _ (x402-Fits true none))

  status-Fits : Yields FitsPoll (handle_x402_get_status env)
  unfolding handle_x402_get_status
  status-Fits = Yields-bind _ _ λ w d e.
      Yields-by_option (truthy d.rpc.gateway_url) _ _ (Yields-pure _ (x402-Fits false none))
        (λ url found. poll-Fits d)

  tor-Fits : (r : TorReport) → Fits (declared tor_get_status) (tor_reply r)
  unfolding has_shape declared all_fit field_fits fits
  tor-Fits r = port r.socks_port
    where
      port :
          (p : Option ℕ) → Fits (declared tor_get_status) (tor_reply (record r { socks_port = p }))
      port none = refl
      port (some n) = refl

  pub replies-Fits :
      (c : Call)
      → passes_on c ≡ false
      → Yields (λ v. has_shape (declared c) v ≡ true) (invoke env c)
  unfolding invoke passes_on has_shape declared all_fit field_fits fits
  replies-Fits has_key own = Yields-gets _ (λ d. refl)
  replies-Fits generate_account own = reply (declared generate_account) _ generate-Fits
  replies-Fits get_address own = Yields-bind _ _ λ w account e. Yields-pure _ refl
  replies-Fits clear_key own = Yields-bind _ _ λ w _ e. Yields-pure _ refl
  replies-Fits (import_key input) own = Yields-bind _ _ λ w _ e. Yields-pure _ refl
  replies-Fits (set_gateway_url url) own =
      reply (declared (set_gateway_url url)) _ (set_gateway-Fits url)
  replies-Fits disconnect_gateway own = reply (declared disconnect_gateway) _ disconnect-Fits
  replies-Fits get_all_balances own = Yields-bind _ _ λ w b e. Yields-pure _ refl
  replies-Fits (call method params) own = cc own
  replies-Fits (send symbol to amount) own = cc own
  replies-Fits tor_get_status own =
      Yields-bind _ _ λ w d e. Yields-bind _ _ λ w report e'. Yields-pure _ (tor-Fits report)
  replies-Fits helios_get_status own = Yields-gets _ (λ d. refl)
  replies-Fits x402_get_status own = reply (declared x402_get_status) _ status-Fits
  replies-Fits network_get_info own = Yields-gets _ (λ d. refl)
  replies-Fits (wc_sign_message message) own = Yields-bind _ _ λ w v e. Yields-pure _ refl
  replies-Fits (wc_sign_typed_data raw) own = Yields-bind _ _ λ w v e. Yields-pure _ refl
  replies-Fits (wc_send_transaction tx) own = cc own

  -- Whenever a handler returns, its reply has the type that the preload script declares, except for the
  -- three calls whose reply is made of the gateway's answer.
  pub invoke-Fits :
      (c : Call) (d : Desktop Blob) (value : Option Json)
      → passes_on c ≡ false
      → (invoke env c d).0 ≡ ok value
      → has_shape (declared c) value ≡ true
  invoke-Fits c d value own e = (replies-Fits c own).yields d value e
