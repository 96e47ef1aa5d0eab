-- ===== src/Panels/Wallet/Phases.antt =====
-- client/src/renderer/components/WalletPanel.tsx: the phases of the panel, and that each
-- event leads from one to another.
use umbra_gateway.Prelude.{
  ℕ, String, List, [], ◌∷◌, Option, none, some, Bool, true, false, not, ◌≡◌, ok, err, if◌then◌else◌,
}
use umbra_gateway.Prelude.Text.{trim, ◌===◌}
use umbra_gateway.Panels.Wallet.{
  Panel, SetupView, choose, creating, review, importing, GeneratedAccount, key_effect,
  fetch_balances, handle_create, handle_confirm_create, handle_import, handle_clear, on_generated,
  on_imported, on_cleared, set_has_key, view, view_of,
}
use umbra_gateway.Panels.Wallet.Steps.{
  step, clicks_create, clicks_import_existing, clicks_saved, clicks_open, clicks_back,
  clicks_import, clicks_remove, generated_returns, import_returns, clear_returns, Event,
}

-- The phases of the panel: the key that is loaded, the view, whether a phrase is held, whether an
-- import is busy, and how many calls that generate, import and clear are under way.
pub data Phase : Bool → SetupView → Option GeneratedAccount → Bool → ℕ → ℕ → ℕ → Type 0 where
  choosing : Phase false choose none false 0 0 0
  generating : Phase false creating none false 1 0 0
  reviewing : (account : GeneratedAccount) → Phase false review (some account) false 0 0 0
  entering : Phase false importing none false 0 0 0
  importing_key : Phase false importing none true 0 1 0
  opened : (v : SetupView) → Phase true v none false 0 0 0
  removing : (v : SetupView) → Phase true v none false 0 0 1

abbrev pub InPhase : Panel → Type 0
InPhase p =
    Phase p.has_key p.setup_view p.generated p.setup_busy p.under_way.generates p.under_way.imports
      p.under_way.clears

pub if-InPhase : (b : Bool) (p q : Panel) → InPhase p → InPhase q → InPhase (if b then p else q)
if-InPhase true p q hp hq = hp
if-InPhase false p q hp hq = hq

pub key_effect-InPhase : (p : Panel) → InPhase p → InPhase (key_effect p)
unfolding key_effect fetch_balances
key_effect-InPhase p h = if-InPhase p.has_key _ _ (if-InPhase p.connected _ _ h h) h

abbrev at_phase : Bool → SetupView → Option GeneratedAccount → Bool → ℕ → ℕ → ℕ → Panel → Panel
at_phase h v g b n i c p = record p {
  has_key = h;
  setup_view = v;
  generated = g;
  setup_busy = b;
  under_way = record p.under_way { generates = n; imports = i; clears = c };
}

-- The user does not leave the import while it is busy, and clicks on Remove once.
abbrev pub Calm : Panel → Event → Type 0
Calm p clicks_back = p.setup_busy ≡ false
Calm p clicks_remove = p.under_way.clears ≡ 0
Calm p _ = Unit

abbrev pub CalmRun : Panel → List Event → Type 0
CalmRun p [] = Unit
CalmRun p (e ∷ es) = Calm p e × CalmRun (step p e) es

-- an event that leads from phase to phase
abbrev Keeps : Event → Type 0
Keeps e =
    (h : Bool) (v : SetupView) (g : Option GeneratedAccount) (b : Bool) (n i c : ℕ) (p : Panel)
    → Phase h v g b n i c
    → Calm (at_phase h v g b n i c p) e
    → InPhase (step (at_phase h v g b n i c p) e)

pub create-Keeps : Keeps clicks_create
unfolding step handle_create handle_confirm_create handle_import handle_clear on_generated
    on_imported on_cleared set_has_key key_effect fetch_balances view view_of
create-Keeps _ _ _ _ _ _ _ p choosing calm = generating
create-Keeps _ _ _ _ _ _ _ p generating calm = generating
create-Keeps _ _ _ _ _ _ _ p (reviewing account) calm = reviewing account
create-Keeps _ _ _ _ _ _ _ p entering calm = entering
create-Keeps _ _ _ _ _ _ _ p importing_key calm = importing_key
create-Keeps _ _ _ _ _ _ _ p (opened v) calm = opened v
create-Keeps _ _ _ _ _ _ _ p (removing v) calm = removing v

pub existing-Keeps : Keeps clicks_import_existing
unfolding step handle_create handle_confirm_create handle_import handle_clear on_generated
    on_imported on_cleared set_has_key key_effect fetch_balances view view_of
existing-Keeps _ _ _ _ _ _ _ p choosing calm = entering
existing-Keeps _ _ _ _ _ _ _ p generating calm = generating
existing-Keeps _ _ _ _ _ _ _ p (reviewing account) calm = reviewing account
existing-Keeps _ _ _ _ _ _ _ p entering calm = entering
existing-Keeps _ _ _ _ _ _ _ p importing_key calm = importing_key
existing-Keeps _ _ _ _ _ _ _ p (opened v) calm = opened v
existing-Keeps _ _ _ _ _ _ _ p (removing v) calm = removing v

pub saved-Keeps : Keeps clicks_saved
unfolding step handle_create handle_confirm_create handle_import handle_clear on_generated
    on_imported on_cleared set_has_key key_effect fetch_balances view view_of
saved-Keeps _ _ _ _ _ _ _ p choosing calm = choosing
saved-Keeps _ _ _ _ _ _ _ p generating calm = generating
saved-Keeps _ _ _ _ _ _ _ p (reviewing account) calm =
    if-InPhase (not p.confirmed) _ _ (reviewing account) (reviewing account)
saved-Keeps _ _ _ _ _ _ _ p entering calm = entering
saved-Keeps _ _ _ _ _ _ _ p importing_key calm = importing_key
saved-Keeps _ _ _ _ _ _ _ p (opened v) calm = opened v
saved-Keeps _ _ _ _ _ _ _ p (removing v) calm = removing v

pub open-Keeps : Keeps clicks_open
unfolding step handle_create handle_confirm_create handle_import handle_clear on_generated
    on_imported on_cleared set_has_key key_effect fetch_balances view view_of
open-Keeps _ _ _ _ _ _ _ p choosing calm = choosing
open-Keeps _ _ _ _ _ _ _ p generating calm = generating
open-Keeps _ _ _ _ _ _ _ p (reviewing account) calm =
    if-InPhase p.confirmed _ _ (if-InPhase p.connected _ _ (opened review) (opened review))
      (reviewing account)
open-Keeps _ _ _ _ _ _ _ p entering calm = entering
open-Keeps _ _ _ _ _ _ _ p importing_key calm = importing_key
open-Keeps _ _ _ _ _ _ _ p (opened v) calm = opened v
open-Keeps _ _ _ _ _ _ _ p (removing v) calm = removing v

pub back-Keeps : Keeps clicks_back
unfolding step handle_create handle_confirm_create handle_import handle_clear on_generated
    on_imported on_cleared set_has_key key_effect fetch_balances view view_of
back-Keeps _ _ _ _ _ _ _ p choosing calm = choosing
back-Keeps _ _ _ _ _ _ _ p generating calm = generating
back-Keeps _ _ _ _ _ _ _ p (reviewing account) calm = reviewing account
back-Keeps _ _ _ _ _ _ _ p entering calm = choosing
back-Keeps _ _ _ _ _ _ _ p importing_key calm = cc calm
back-Keeps _ _ _ _ _ _ _ p (opened v) calm = opened v
back-Keeps _ _ _ _ _ _ _ p (removing v) calm = removing v

pub import-Keeps : Keeps clicks_import
unfolding step handle_create handle_confirm_create handle_import handle_clear on_generated
    on_imported on_cleared set_has_key key_effect fetch_balances view view_of
import-Keeps _ _ _ _ _ _ _ p choosing calm = choosing
import-Keeps _ _ _ _ _ _ _ p generating calm = generating
import-Keeps _ _ _ _ _ _ _ p (reviewing account) calm = reviewing account
import-Keeps _ _ _ _ _ _ _ p entering calm =
    if-InPhase (not (trim p.import_input === "")) _ _ importing_key entering
import-Keeps _ _ _ _ _ _ _ p importing_key calm = importing_key
import-Keeps _ _ _ _ _ _ _ p (opened v) calm = opened v
import-Keeps _ _ _ _ _ _ _ p (removing v) calm = removing v

pub remove-Keeps : Keeps clicks_remove
unfolding step handle_create handle_confirm_create handle_import handle_clear on_generated
    on_imported on_cleared set_has_key key_effect fetch_balances view view_of
remove-Keeps _ _ _ _ _ _ _ p choosing calm = choosing
remove-Keeps _ _ _ _ _ _ _ p generating calm = generating
remove-Keeps _ _ _ _ _ _ _ p (reviewing account) calm = reviewing account
remove-Keeps _ _ _ _ _ _ _ p entering calm = entering
remove-Keeps _ _ _ _ _ _ _ p importing_key calm = importing_key
remove-Keeps _ _ _ _ _ _ _ p (opened v) calm = removing v
remove-Keeps _ _ _ _ _ _ _ p (removing v) calm = cc calm

pub generated_ok-Keeps : (a : GeneratedAccount) → Keeps (generated_returns (ok a))
unfolding step handle_create handle_confirm_create handle_import handle_clear on_generated
    on_imported on_cleared set_has_key key_effect fetch_balances view view_of
generated_ok-Keeps a _ _ _ _ _ _ _ p choosing calm = choosing
generated_ok-Keeps a _ _ _ _ _ _ _ p generating calm = reviewing a
generated_ok-Keeps a _ _ _ _ _ _ _ p (reviewing account) calm = reviewing account
generated_ok-Keeps a _ _ _ _ _ _ _ p entering calm = entering
generated_ok-Keeps a _ _ _ _ _ _ _ p importing_key calm = importing_key
generated_ok-Keeps a _ _ _ _ _ _ _ p (opened v) calm = opened v
generated_ok-Keeps a _ _ _ _ _ _ _ p (removing v) calm = removing v

pub generated_err-Keeps : (m : String) → Keeps (generated_returns (err m))
unfolding step handle_create handle_confirm_create handle_import handle_clear on_generated
    on_imported on_cleared set_has_key key_effect fetch_balances view view_of
generated_err-Keeps m _ _ _ _ _ _ _ p choosing calm = choosing
generated_err-Keeps m _ _ _ _ _ _ _ p generating calm = choosing
generated_err-Keeps m _ _ _ _ _ _ _ p (reviewing account) calm = reviewing account
generated_err-Keeps m _ _ _ _ _ _ _ p entering calm = entering
generated_err-Keeps m _ _ _ _ _ _ _ p importing_key calm = importing_key
generated_err-Keeps m _ _ _ _ _ _ _ p (opened v) calm = opened v
generated_err-Keeps m _ _ _ _ _ _ _ p (removing v) calm = removing v

pub import_ok-Keeps : (u : Unit {0}) → Keeps (import_returns (ok u))
unfolding step handle_create handle_confirm_create handle_import handle_clear on_generated
    on_imported on_cleared set_has_key key_effect fetch_balances view view_of
import_ok-Keeps u _ _ _ _ _ _ _ p choosing calm = choosing
import_ok-Keeps u _ _ _ _ _ _ _ p generating calm = generating
import_ok-Keeps u _ _ _ _ _ _ _ p (reviewing account) calm = reviewing account
import_ok-Keeps u _ _ _ _ _ _ _ p entering calm = entering
import_ok-Keeps u _ _ _ _ _ _ _ p importing_key calm =
    if-InPhase p.connected _ _ (opened importing) (opened importing)
import_ok-Keeps u _ _ _ _ _ _ _ p (opened v) calm = opened v
import_ok-Keeps u _ _ _ _ _ _ _ p (removing v) calm = removing v

pub import_err-Keeps : (m : String) → Keeps (import_returns (err m))
unfolding step handle_create handle_confirm_create handle_import handle_clear on_generated
    on_imported on_cleared set_has_key key_effect fetch_balances view view_of
import_err-Keeps m _ _ _ _ _ _ _ p choosing calm = choosing
import_err-Keeps m _ _ _ _ _ _ _ p generating calm = generating
import_err-Keeps m _ _ _ _ _ _ _ p (reviewing account) calm = reviewing account
import_err-Keeps m _ _ _ _ _ _ _ p entering calm = entering
import_err-Keeps m _ _ _ _ _ _ _ p importing_key calm = entering
import_err-Keeps m _ _ _ _ _ _ _ p (opened v) calm = opened v
import_err-Keeps m _ _ _ _ _ _ _ p (removing v) calm = removing v

pub clear-Keeps : Keeps clear_returns
unfolding step handle_create handle_confirm_create handle_import handle_clear on_generated
    on_imported on_cleared set_has_key key_effect fetch_balances view view_of
clear-Keeps _ _ _ _ _ _ _ p choosing calm = choosing
clear-Keeps _ _ _ _ _ _ _ p generating calm = generating
clear-Keeps _ _ _ _ _ _ _ p (reviewing account) calm = reviewing account
clear-Keeps _ _ _ _ _ _ _ p entering calm = entering
clear-Keeps _ _ _ _ _ _ _ p importing_key calm = importing_key
clear-Keeps _ _ _ _ _ _ _ p (opened v) calm = opened v
clear-Keeps _ _ _ _ _ _ _ p (removing v) calm = choosing
