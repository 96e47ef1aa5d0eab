-- ===== src/Panels/Wallet/Races.antt =====
-- client/src/renderer/components/WalletPanel.tsx: an import that is left while it is busy.
use umbra_gateway.Prelude.{
  String, [], ◌∷◌, some, Bool, true, false, not, ◌≡◌, refl, sym, ap, ok, if◌then◌else◌,
}
use mathlib.Core.Path.{subst}
use umbra_gateway.Prelude.Text.{trim, ◌===◌}
use umbra_gateway.Panels.Wallet.{
  Panel, importing, initial, GeneratedAccount, view, view_of, key_view, handle_create,
  handle_import, on_generated, on_imported, set_has_key, key_effect, fetch_balances,
}
use umbra_gateway.Panels.Wallet.Steps.{
  step, run, clicks_import_existing, types, clicks_import, clicks_back, clicks_create,
  import_returns, generated_returns,
}

-- the panel after the click on Import
busy : Bool → String → Panel
unfolding handle_import
busy connected text =
    handle_import (record (initial connected) { setup_view = importing; import_input = text })

import-busy :
    (connected : Bool) (text : String)
    → (trim text === "") ≡ false
    → run (initial connected) (clicks_import_existing ∷ types text ∷ clicks_import ∷ [])
      ≡ busy connected text
unfolding step busy view view_of
import-busy connected text e =
    ap
      (λ b.
        if not b
        then busy connected text
        else record (initial connected) { setup_view = importing; import_input = text })
      e

left-unseen :
    (connected : Bool) (text : String) (account : GeneratedAccount)
    → let p = run (busy connected text) (
        clicks_back
        ∷ clicks_create
        ∷ import_returns (ok tt)
        ∷ generated_returns (ok account)
        ∷ []) in
      (view p ≡ key_view) × (p.generated ≡ some account)
unfolding busy step handle_create handle_import on_generated on_imported set_has_key key_effect
    fetch_balances view view_of
left-unseen true text account = (refl, refl)
left-unseen false text account = (refl, refl)

-- If the user leaves an import that is busy and creates a new account, and the import returns before
-- the account is generated, the panel shows the open wallet when it is: the phrase of the new account
-- is held and not shown.
pub phrase_unseen :
    (connected : Bool) (text : String) (account : GeneratedAccount)
    → (trim text === "") ≡ false
    → let p = run (initial connected) (
        clicks_import_existing
        ∷ types text
        ∷ clicks_import
        ∷ clicks_back
        ∷ clicks_create
        ∷ import_returns (ok tt)
        ∷ generated_returns (ok account)
        ∷ []) in
      (view p ≡ key_view) × (p.generated ≡ some account)
phrase_unseen connected text account e =
    subst
      (λ p.
        let q = run p (
          clicks_back
          ∷ clicks_create
          ∷ import_returns (ok tt)
          ∷ generated_returns (ok account)
          ∷ []) in
        (view q ≡ key_view) × (q.generated ≡ some account))
      (sym (import-busy connected text e)) (left-unseen connected text account)
