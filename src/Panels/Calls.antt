-- ===== src/Panels/Calls.antt =====
-- client/src/renderer/components/RpcTestPanel.tsx: the panel that sends a call to the gateway. The
-- values of results, and how JSON.stringify writes them, are arguments. The select and the button are
-- disabled together.
pub mod Asked
use umbra_gateway.Prelude.{
  ℕ, String, List, [], ◌∷◌, ◌||◌, Option, none, some, Bool, true, false, not, ◌&&◌, Result, ok, err,
  if◌then◌else◌,
}
use umbra_gateway.Prelude.Text.{◌===◌}
use umbra_gateway.Prelude.{nth, remove_at}

abbrev pub rpc_methods : List String
rpc_methods =
    "eth_blockNumber" ∷ "eth_chainId" ∷ "eth_gasPrice" ∷ "eth_getBalance" ∷ "eth_syncing"
    ∷ "net_version" ∷ []

-- the options of the select
abbrev pub is_listed : String → List String → Bool
is_listed method [] = false
is_listed method (m ∷ ms) = method === m || is_listed method ms

-- What a run of `handleSend` waits for: the address, or the result of the call of the method.
pub data Wait : Type 0 where
  address_for result_of : String → Wait

-- `sent` are the calls of `window.rpc.call`, the newest first, and `waits` the runs of `handleSend`
-- that have not ended.
pub record Panel : Type 0 where
  pub method : String
  pub sending : Bool
  pub last_result : Option String
  pub error : String
  pub sent : List (String × List String)
  pub waits : List Wait

abbrev pub initial : Panel
initial = record {
  method = "eth_blockNumber";
  sending = false;
  last_result = none;
  error = "";
  sent = [];
  waits = [];
}

unfoldable pub can_send : Bool → Bool → Panel → Bool
can_send connected has_key p = connected && has_key && not p.sending

-- `handleSend`, up to the first await
unfoldable pub handle_send : Panel → Panel
handle_send p = record p {
  error = "";
  last_result = none;
  sending = true;
  waits =
      (if p.method === "eth_getBalance" then address_for p.method else result_of p.method)
      ∷ p.waits;
  sent = if p.method === "eth_getBalance" then p.sent else (p.method, []) ∷ p.sent;
}

-- the call with the address that was awaited
unfoldable pub call_with : String → String → Panel → Panel
call_with method address p = record p {
  sent = (method, address ∷ "latest" ∷ []) ∷ p.sent;
  waits = result_of method ∷ p.waits;
}

unfoldable pub on_result : Result String → Panel → Panel
on_result (ok text) p = record p { last_result = some text; sending = false }
on_result (err message) p = record p { error = message; sending = false }

module _ {Value : Type 0} (stringify : Value → String) where
  unfoldable pub printed : Result Value → Result String
  printed (ok value) = ok (stringify value)
  printed (err message) = err message

  -- A reply is for the n-th of the runs that wait.
  pub data Event : Type 0 where
    selects : String → Event
    clicks_send : Event
    address_comes : ℕ → Result String → Event
    result_comes : ℕ → Result Value → Event

-- The run ends, or makes its call.
unfoldable pub on_address : Result String → String → Panel → Panel
unfolding call_with on_result
on_address (ok address) method p = call_with method address p
on_address (err message) method p = on_result (err message) p

unfoldable pub with_address : Option Wait → Result String → List Wait → Panel → Panel
unfolding on_address
with_address (some (address_for method)) reply others p =
    on_address reply method (record p { waits = others })
with_address (some (result_of method)) reply others p = p
with_address none reply others p = p

unfoldable pub with_result : Option Wait → Result String → List Wait → Panel → Panel
unfolding on_result
with_result (some (result_of method)) reply others p = on_result reply (record p { waits = others })
with_result (some (address_for method)) reply others p = p
with_result none reply others p = p

module _ {Value : Type 0} (stringify : Value → String) where
  unfoldable pub step : Bool → Bool → Panel → Event stringify → Panel
  unfolding can_send handle_send with_address with_result printed
  step connected has_key p (selects method) =
      if can_send connected has_key p && is_listed method rpc_methods
      then record p { method = method }
      else p
  step connected has_key p clicks_send = if can_send connected has_key p then handle_send p else p
  step connected has_key p (address_comes n reply) =
      with_address (nth n p.waits) reply (remove_at n p.waits) p
  step connected has_key p (result_comes n reply) =
      with_result (nth n p.waits) (printed stringify reply) (remove_at n p.waits) p

  -- Each event comes with the properties `connected` and `hasKey` that the application gives then.
  abbrev pub run : Panel → List ((Bool × Bool) × Event stringify) → Panel
  run p [] = p
  run p (((connected, has_key), e) ∷ es) = run (step connected has_key p e) es
