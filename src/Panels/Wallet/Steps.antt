-- ===== src/Panels/Wallet/Steps.antt =====
-- client/src/renderer/components/WalletPanel.tsx: the buttons of the views, and the replies.
use umbra_gateway.Prelude.{
  if◌then◌else◌, ℕ, zero, suc, String, List, [], ◌∷◌, some, none, Bool, true, false, is_some, not,
  ◌&&◌, ◌||◌, Result, ok, err,
}
use umbra_gateway.Prelude.Text.{trim, ◌===◌}
use umbra_gateway.Panels.Tokens.{Token}
use umbra_gateway.Panels.Wallet.{
  SetupView, creating, choose, GeneratedAccount, Panel, fetch_balances, on_balances, handle_create,
  on_generated, handle_confirm_create, handle_import, on_imported, handle_clear, on_cleared,
  set_connected, importing, View, key_view, choose_view, review_view, import_view, view,
}

pub data Event : Type 0 where
  connects : Bool → Event
  clicks_create clicks_import_existing clicks_saved clicks_open clicks_back clicks_import : Event
  types : String → Event
  clicks_remove clicks_refresh clicks_done : Event
  clicks_send : Token → Event
  generated_returns : Result GeneratedAccount → Event
  import_returns : Result (Unit {0}) → Event
  clear_returns : Event
  balances_return : Result (String × String) → Event
  address_returns : Result String → Event

abbrev pub is_view : View → View → Bool
is_view key_view key_view = true
is_view choose_view choose_view = true
is_view review_view review_view = true
is_view import_view import_view = true
is_view _ _ = false

abbrev pub is_creating : SetupView → Bool
is_creating creating = true
is_creating _ = false

-- a click on a button of a view, where it is enabled
abbrev pub click : View → Bool → (Panel → Panel) → Panel → Panel
click on enabled act p = if is_view (view p) on && enabled then act p else p

-- a reply to a call of which some are under way
abbrev pub reply : ℕ → (ℕ → Panel) → Panel → Panel
reply zero act p = p
reply (suc n) act p = act n

unfoldable pub step : Panel → Event → Panel
unfolding view set_connected handle_create handle_confirm_create handle_import handle_clear
    fetch_balances on_generated on_imported on_cleared on_balances
step p (connects value) = set_connected value p
step p clicks_create = click choose_view (not (is_creating p.setup_view)) handle_create p
step p clicks_import_existing =
    click choose_view (not (is_creating p.setup_view))
      (λ q. record q { setup_error = ""; setup_view = importing }) p
step p clicks_saved = click review_view (not p.confirmed) (λ q. record q { confirmed = true }) p
step p clicks_open = click review_view p.confirmed handle_confirm_create p
step p clicks_back =
    click import_view true
      (λ q. record q { setup_error = ""; import_input = ""; setup_view = choose }) p
step p clicks_import =
    click import_view (not (p.setup_busy || trim p.import_input === "")) handle_import p
step p (types text) = click import_view true (λ q. record q { import_input = text }) p
step p clicks_remove = click key_view true handle_clear p
step p clicks_refresh =
    click key_view (not (is_some p.sending_token) && not p.loading_balances) fetch_balances p
step p clicks_done =
    click key_view (is_some p.sending_token)
      (λ q. fetch_balances (record q { sending_token = none })) p
step p (clicks_send token) =
    click key_view (not (is_some p.sending_token)) (λ q. record q { sending_token = some token }) p
step p (generated_returns outcome) =
    reply p.under_way.generates
      (λ n. on_generated outcome (record p { under_way = record p.under_way { generates = n } })) p
step p (import_returns outcome) =
    reply p.under_way.imports
      (λ n. on_imported outcome (record p { under_way = record p.under_way { imports = n } })) p
step p clear_returns =
    reply p.under_way.clears
      (λ n. on_cleared (record p { under_way = record p.under_way { clears = n } })) p
step p (balances_return outcome) =
    reply p.under_way.fetches
      (λ n. on_balances outcome (record p { under_way = record p.under_way { fetches = n } })) p
step p (address_returns (ok address)) =
    reply p.under_way.addresses
      (λ n. record p { address = some address; under_way = record p.under_way { addresses = n } }) p
step p (address_returns (err reason)) =
    reply p.under_way.addresses (λ n. record p { under_way = record p.under_way { addresses = n } })
      p

abbrev pub run : Panel → List Event → Panel
run p [] = p
run p (e ∷ es) = run (step p e) es
