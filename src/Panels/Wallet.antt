-- ===== src/Panels/Wallet.antt =====
-- client/src/renderer/components/WalletPanel.tsx: the wallet's panel, from the reply to its first
-- `hasKey`. What the user does is possible in the view that is drawn only; a call of the main process
-- that is under way is counted until it returns. The flags that say that a text was copied are left
-- out.
pub mod Steps
pub mod Phases
pub mod Phrase
pub mod Races
use umbra_gateway.Prelude.{
  ℕ, zero, suc, String, List, [], ◌∷◌, Option, none, some, Bool, true, false, is_some, not, ◌==◌,
  ◌&&◌, ◌||◌, Result, ok, err, get_or, if◌then◌else◌,
}
use umbra_gateway.Prelude.Text.{trim, ◌===◌}
use umbra_gateway.Panels.{Numbers}
use umbra_gateway.Panels.Tokens.{Token}

pub data SetupView : Type 0 where
  choose creating review importing : SetupView

pub record GeneratedAccount : Type 0 where
  pub mnemonic : String
  pub address : String

-- The calls of the main process that are under way, by kind.
pub record UnderWay : Type 0 where
  pub generates : ℕ
  pub imports : ℕ
  pub clears : ℕ
  pub fetches : ℕ
  pub addresses : ℕ

-- `balances` is the pair of texts for ETH and USDC, or `none` where it is empty; `imported` are the
-- keys handed to the main process, the newest first, and `key_changes` counts `onKeyChange`.
pub record Panel : Type 0 where
  pub connected : Bool
  pub has_key : Bool
  pub address : Option String
  pub setup_view : SetupView
  pub generated : Option GeneratedAccount
  pub confirmed : Bool
  pub import_input : String
  pub setup_busy : Bool
  pub setup_error : String
  pub balances : Option (String × String)
  pub loading_balances : Bool
  pub balance_error : String
  pub sending_token : Option Token
  pub under_way : UnderWay
  pub imported : List String
  pub key_changes : ℕ

abbrev pub initial : Bool → Panel
initial connected = record {
  connected = connected;
  has_key = false;
  address = none;
  setup_view = choose;
  generated = none;
  confirmed = false;
  import_input = "";
  setup_busy = false;
  setup_error = "";
  balances = none;
  loading_balances = false;
  balance_error = "";
  sending_token = none;
  under_way = record { generates = 0; imports = 0; clears = 0; fetches = 0; addresses = 0 };
  imported = [];
  key_changes = 0;
}

-- `fetchBalances`, up to the call
unfoldable pub fetch_balances : Panel → Panel
fetch_balances p = record p {
  loading_balances = true;
  balance_error = "";
  under_way = record p.under_way { fetches = suc p.under_way.fetches };
}

-- the rest of it
unfoldable pub on_balances : Result (String × String) → Panel → Panel
on_balances (ok balances) p = record p { balances = some balances; loading_balances = false }
on_balances (err reason) p = record p { balance_error = reason; loading_balances = false }

-- the effect of a change of `hasKey` or `connected`
unfoldable pub key_effect : Panel → Panel
unfolding fetch_balances
key_effect p =
    let asked = record p {
      under_way = record p.under_way { addresses = suc p.under_way.addresses };
    } in
    if p.has_key
    then (if p.connected then fetch_balances asked else asked)
    else record p { address = none; balances = none }

abbrev same : Bool → Bool → Bool
same true b = b
same false b = not b

-- setHasKey, after which the effect runs if the value has changed
unfoldable pub set_has_key : Bool → Panel → Panel
unfolding key_effect
set_has_key value p = if same p.has_key value then p else key_effect (record p { has_key = value })

-- the property `connected` of the panel
unfoldable pub set_connected : Bool → Panel → Panel
unfolding key_effect
set_connected value p =
    if same p.connected value then p else key_effect (record p { connected = value })

unfoldable pub handle_create : Panel → Panel
handle_create p = record p {
  setup_error = "";
  setup_view = creating;
  confirmed = false;
  under_way = record p.under_way { generates = suc p.under_way.generates };
}

unfoldable pub on_generated : Result GeneratedAccount → Panel → Panel
on_generated (ok account) p = record p { generated = some account; setup_view = review }
on_generated (err reason) p = record p { setup_error = reason; setup_view = choose }

unfoldable pub handle_confirm_create : Panel → Panel
unfolding set_has_key
handle_confirm_create p =
    set_has_key true
      (record p { generated = none; confirmed = false; key_changes = suc p.key_changes })

unfoldable pub handle_import : Panel → Panel
unfolding trim
handle_import p = record p {
  setup_error = "";
  setup_busy = true;
  imported = trim p.import_input ∷ p.imported;
  under_way = record p.under_way { imports = suc p.under_way.imports };
}

unfoldable pub on_imported : Result (Unit {0}) → Panel → Panel
unfolding set_has_key
on_imported (ok done) p =
    set_has_key true
      (record p { import_input = ""; setup_busy = false; key_changes = suc p.key_changes })
on_imported (err reason) p = record p { setup_error = reason; setup_busy = false }

unfoldable pub handle_clear : Panel → Panel
handle_clear p = record p { under_way = record p.under_way { clears = suc p.under_way.clears } }

unfoldable pub on_cleared : Panel → Panel
unfolding set_has_key
on_cleared p = set_has_key false (record p {
  address = none;
  balances = none;
  sending_token = none;
  setup_view = choose;
  key_changes = suc p.key_changes;
})

-- What is drawn.
pub data View : Type 0 where
  key_view choose_view review_view import_view : View

unfoldable pub view_of : Bool → SetupView → Option GeneratedAccount → View
view_of true setup_view generated = key_view
view_of false choose generated = choose_view
view_of false creating generated = choose_view
view_of false review (some account) = review_view
view_of false review none = import_view
view_of false importing generated = import_view

unfoldable pub view : Panel → View
unfolding view_of
view p = view_of p.has_key p.setup_view p.generated

-- the text of a token's balance in the list
abbrev balance_of : String → Option (String × String) → Option String
balance_of symbol none = none
balance_of symbol (some (eth, usdc)) =
    if symbol === "ETH" then some eth else if symbol === "USDC" then some usdc else none

module _ {Number : Type 0} (numbers : Numbers Number) where
  unfoldable pub display : Token → Panel → String
  display token p = elim (balance_of token.symbol p.balances) [
    | none ↦ if p.loading_balances then "..." else "—"
    | some balance ↦
        if p.loading_balances
        then "..."
        else numbers.to_fixed (if token.decimals == 18 then 4 else 2) (numbers.parse_float balance)
  ]
