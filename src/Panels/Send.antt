-- ===== src/Panels/Send.antt =====
-- client/src/renderer/components/WalletPanel.tsx: the form that sends a token, from its opening to its
-- end. A button that is disabled cannot be clicked.
pub mod Safety
use umbra_gateway.Prelude.{
  ℕ, zero, suc, String, List, [], ◌∷◌, Option, none, some, Bool, true, false, is_some, not, ◌&&◌,
  ◌||◌, ◌==◌, Result, ok, err, if◌then◌else◌,
}
use umbra_gateway.Prelude.Text.{starts, length, drop, digits_from, ◌===◌}
use umbra_gateway.Panels.{Numbers}

-- `calls` are the calls of `window.rpc.sendToken`, the newest first, and `under_way` how many of them
-- have not returned.
pub record Form : Type 0 where
  pub to : String
  pub amount : String
  pub busy : Bool
  pub tx_hash : String
  pub failure : String
  pub calls : List (String × (String × String))
  pub under_way : ℕ

abbrev pub initial : Form
initial = record {
  to = "";
  amount = "";
  busy = false;
  tx_hash = "";
  failure = "";
  calls = [];
  under_way = 0;
}

-- /^0x[0-9a-fA-F]{40}$/
unfoldable pub is_address : String → Bool
unfolding length drop digits_from
is_address to = starts to "0x" && length to == 42 && is_some (digits_from 16 0 (drop 2 to))

-- what `handleSend` does, by whether the recipient and the amount are valid
unfoldable pub submit : Bool → Bool → String → Form → Form
submit false amount_valid symbol f = record f {
  failure = "Invalid recipient address";
  tx_hash = "";
}
submit true false symbol f = record f { failure = "Enter a valid amount"; tx_hash = "" }
submit true true symbol f = record f {
  failure = "";
  tx_hash = "";
  busy = true;
  calls = (symbol, (f.to, f.amount)) ∷ f.calls;
  under_way = suc f.under_way;
}

module _ {Number : Type 0} (numbers : Numbers Number) where
  -- parsed is a number above zero
  unfoldable pub is_amount : String → Bool
  is_amount amount =
      let parsed = numbers.parse_float amount in
      not (numbers.is_nan parsed || numbers.at_most_zero parsed)

  unfoldable pub handle_max : String → String → Form → Form
  handle_max symbol max_amount f =
      if symbol === "ETH"
      then (let max = numbers.less_gas_buffer (numbers.parse_float max_amount) in
          record f { amount = if numbers.is_positive max then numbers.to_fixed 6 max else "0" })
      else record f { amount = max_amount }

  -- `handleSend`, up to the call
  unfoldable pub handle_send : String → Form → Form
  unfolding is_address is_amount submit
  handle_send symbol f = submit (is_address f.to) (is_amount f.amount) symbol f

-- the rest of it, when a call has returned
unfoldable pub on_sent : Result String → ℕ → Form → Form
on_sent (ok hash) others f = record f { tx_hash = hash; busy = false; under_way = others }
on_sent (err reason) others f = record f { failure = reason; busy = false; under_way = others }

-- the form is drawn, and not the message that the transaction was sent
abbrev pub is_drawn : Form → Bool
is_drawn f = f.tx_hash === ""

unfoldable pub can_send : Form → Bool
can_send f = is_drawn f && not (f.busy || f.to === "" || f.amount === "")

unfoldable pub returned : ℕ → Result String → Form → Form
unfolding on_sent
returned zero outcome f = f
returned (suc n) outcome f = on_sent outcome n f

pub data Event : Type 0 where
  types_to types_amount : String → Event
  clicks_max clicks_send : Event
  returns : Result String → Event

module _ {Number : Type 0} (numbers : Numbers Number) (symbol max_amount : String) where
  unfoldable pub step : Form → Event → Form
  unfolding handle_max handle_send returned can_send
  step f (types_to to) = if is_drawn f then record f { to = to } else f
  step f (types_amount amount) = if is_drawn f then record f { amount = amount } else f
  step f clicks_max = if is_drawn f then handle_max numbers symbol max_amount f else f
  step f clicks_send = if can_send f then handle_send numbers symbol f else f
  step f (returns outcome) = returned f.under_way outcome f

  abbrev pub run : Form → List Event → Form
  run f [] = f
  run f (e ∷ es) = run (step f e) es
