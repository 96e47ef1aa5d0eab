-- ===== src/Panels/Wallet/Phrase.antt =====
-- client/src/renderer/components/WalletPanel.tsx: the seed phrase of a new account.
use umbra_gateway.Prelude.{ℕ, zero, suc, String, List, [], ◌∷◌, true, ◌&&◌, Result, ok, err}
use umbra_gateway.Panels.Wallet.{
  Panel, fetch_balances, on_balances, set_connected, view, key_view, import_view, same,
}
use umbra_gateway.Panels.Wallet.Steps.{
  step, run, is_view, reply, clicks_create, clicks_import_existing, clicks_saved, clicks_open,
  clicks_back, clicks_import, types, clicks_remove, clicks_refresh, clicks_done, clicks_send,
  generated_returns, import_returns, clear_returns, balances_return, address_returns, connects,
  Event,
}
use umbra_gateway.Panels.Wallet.Phases.{
  InPhase, if-InPhase, key_effect-InPhase, Calm, CalmRun, create-Keeps, existing-Keeps, saved-Keeps,
  open-Keeps, back-Keeps, import-Keeps, remove-Keeps, generated_ok-Keeps, generated_err-Keeps,
  import_ok-Keeps, import_err-Keeps, clear-Keeps,
}

reply-InPhase :
    (k : ℕ) (act : ℕ → Panel) (p : Panel)
    → ((n : ℕ) → InPhase (act n))
    → InPhase p
    → InPhase (reply k act p)
reply-InPhase zero act p acts h = h
reply-InPhase (suc n) act p acts h = acts n

balances-InPhase :
    (outcome : Result (String × String)) (p : Panel) (n : ℕ)
    → InPhase p
    → InPhase (on_balances outcome (record p { under_way = record p.under_way { fetches = n } }))
unfolding on_balances
balances-InPhase (ok balances) p n h = h
balances-InPhase (err reason) p n h = h

step-InPhase : (p : Panel) (e : Event) → InPhase p → Calm p e → InPhase (step p e)
unfolding step set_connected fetch_balances on_balances
step-InPhase p clicks_create h calm =
    create-Keeps p.has_key p.setup_view p.generated p.setup_busy p.under_way.generates
      p.under_way.imports p.under_way.clears p h calm
step-InPhase p clicks_import_existing h calm =
    existing-Keeps p.has_key p.setup_view p.generated p.setup_busy p.under_way.generates
      p.under_way.imports p.under_way.clears p h calm
step-InPhase p clicks_saved h calm =
    saved-Keeps p.has_key p.setup_view p.generated p.setup_busy p.under_way.generates
      p.under_way.imports p.under_way.clears p h calm
step-InPhase p clicks_open h calm =
    open-Keeps p.has_key p.setup_view p.generated p.setup_busy p.under_way.generates
      p.under_way.imports p.under_way.clears p h calm
step-InPhase p clicks_back h calm =
    back-Keeps p.has_key p.setup_view p.generated p.setup_busy p.under_way.generates
      p.under_way.imports p.under_way.clears p h calm
step-InPhase p clicks_import h calm =
    import-Keeps p.has_key p.setup_view p.generated p.setup_busy p.under_way.generates
      p.under_way.imports p.under_way.clears p h calm
step-InPhase p clicks_remove h calm =
    remove-Keeps p.has_key p.setup_view p.generated p.setup_busy p.under_way.generates
      p.under_way.imports p.under_way.clears p h calm
step-InPhase p (generated_returns (ok a)) h calm =
    generated_ok-Keeps a p.has_key p.setup_view p.generated p.setup_busy p.under_way.generates
      p.under_way.imports p.under_way.clears p h calm
step-InPhase p (generated_returns (err m)) h calm =
    generated_err-Keeps m p.has_key p.setup_view p.generated p.setup_busy p.under_way.generates
      p.under_way.imports p.under_way.clears p h calm
step-InPhase p (import_returns (ok u)) h calm =
    import_ok-Keeps u p.has_key p.setup_view p.generated p.setup_busy p.under_way.generates
      p.under_way.imports p.under_way.clears p h calm
step-InPhase p (import_returns (err m)) h calm =
    import_err-Keeps m p.has_key p.setup_view p.generated p.setup_busy p.under_way.generates
      p.under_way.imports p.under_way.clears p h calm
step-InPhase p clear_returns h calm =
    clear-Keeps p.has_key p.setup_view p.generated p.setup_busy p.under_way.generates
      p.under_way.imports p.under_way.clears p h calm
step-InPhase p (connects value) h calm =
    if-InPhase (same p.connected value) _ _ h
      (key_effect-InPhase (record p { connected = value }) h)
step-InPhase p (types text) h calm = if-InPhase (is_view (view p) import_view && true) _ _ h h
step-InPhase p clicks_refresh h calm = if-InPhase (is_view (view p) key_view && _) _ _ h h
step-InPhase p clicks_done h calm = if-InPhase (is_view (view p) key_view && _) _ _ h h
step-InPhase p (clicks_send token) h calm = if-InPhase (is_view (view p) key_view && _) _ _ h h
step-InPhase p (balances_return outcome) h calm =
    reply-InPhase p.under_way.fetches _ p (λ n. balances-InPhase outcome p n h) h
step-InPhase p (address_returns (ok address)) h calm =
    reply-InPhase p.under_way.addresses _ p (λ n. h) h
step-InPhase p (address_returns (err m)) h calm = reply-InPhase p.under_way.addresses _ p (λ n. h) h

-- As long as the user does not leave the import while it is busy and does not click twice on Remove,
-- the panel stays in its phases: a phrase is held exactly while its view is drawn, it is gone once the
-- wallet is open, and no account is generated while a key is imported, or the other way round, or while the
-- wallet is open.
pub run-InPhase : (p : Panel) (es : List Event) → InPhase p → CalmRun p es → InPhase (run p es)
run-InPhase p [] h calm = h
run-InPhase p (e ∷ es) h (now, later) = run-InPhase (step p e) es (step-InPhase p e h now) later
