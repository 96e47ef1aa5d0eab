-- ===== src/Balance.antt =====
-- client/src/main/index.ts: the handlers `rpc:setGateway`, `rpc:disconnectGateway`, `rpc:sendToken`
-- and `x402:getStatus`, as far as they share the cached balance. A poll that fetches waits for
-- `getX402UsdcBalance`, which asks the gateway that is set when the fetch begins.
pub mod Fetching
use umbra_gateway.Prelude.{
  ℕ, zero, suc, String, Option, none, some, List, [], ◌∷◌, ◌++◌, Bool, true, false, Result, ok, err,
  is_some, if◌then◌else◌,
}
use umbra_gateway.Prelude.Text.{truthy}

-- `fetches` are the fetches under way, with the gateway that each asks; `answers` what the polls
-- were answered, the newest first.
pub record State : Type 0 where
  pub gateway_url : Option String
  pub cached_usdc_balance : Option String
  pub usdc_balance_fetching : Bool
  pub fetches : List String
  pub refreshes : ℕ
  pub answers : List (Bool × Option String)

abbrev pub initial : State
initial = record {
  gateway_url = none;
  cached_usdc_balance = none;
  usdc_balance_fetching = false;
  fetches = [];
  refreshes = 0;
  answers = [];
}

unfoldable pub invalidate_usdc_balance : State → State
invalidate_usdc_balance s = record s {
  cached_usdc_balance = none;
  usdc_balance_fetching = false;
  refreshes = suc s.refreshes;
}

abbrev pub answer : Bool → Option String → State → State
answer connected balance s = record s { answers = (connected, balance) ∷ s.answers }

-- `x402:getStatus` with a gateway, up to the fetch
abbrev pub poll_gateway : Bool → String → State → State
poll_gateway has_key url s =
    if has_key
    then (elim s.cached_usdc_balance [
      | some balance ↦ answer true (some balance) s
      | none ↦
          if s.usdc_balance_fetching
          then answer true none s
          else record s { usdc_balance_fetching = true; fetches = s.fetches ++ url ∷ [] }
    ])
    else answer true none s

abbrev pub poll : Bool → Option String → State → State
poll has_key none s = answer false none s
poll has_key (some url) s = poll_gateway has_key url s

-- `x402:getStatus`, where `has_key` is whether a key is stored
unfoldable pub get_status : Bool → State → State
get_status has_key s = poll has_key (truthy s.gateway_url) s

abbrev pub remove_at : ℕ → List String → List String
remove_at n [] = []
remove_at zero (x ∷ xs) = xs
remove_at (suc n) (x ∷ xs) = x ∷ remove_at n xs

abbrev pub fetch_at : ℕ → List String → Option String
fetch_at n [] = none
fetch_at zero (x ∷ xs) = some x
fetch_at (suc n) (x ∷ xs) = fetch_at n xs

-- the rest of `x402:getStatus`, when fetch number `n` of those under way has ended
unfoldable pub fetched : ℕ → Result String → State → State
fetched n (ok balance) s = record (answer true (some balance) s) {
  cached_usdc_balance = some balance;
  usdc_balance_fetching = false;
  fetches = remove_at n s.fetches;
}
fetched n (err message) s = record (answer true none s) {
  usdc_balance_fetching = false;
  fetches = remove_at n s.fetches;
}

unfoldable pub set_gateway : String → State → State
unfolding invalidate_usdc_balance
set_gateway url s = invalidate_usdc_balance (record s { gateway_url = some url })

unfoldable pub disconnect_gateway : State → State
unfolding invalidate_usdc_balance
disconnect_gateway s = invalidate_usdc_balance (record s { gateway_url = none })

pub data Event : Type 0 where
  sets : String → Event
  disconnects sends : Event
  polls : Bool → Event
  fetch_ends : ℕ → Result String → Event

unfoldable pub step : State → Event → State
unfolding set_gateway disconnect_gateway get_status fetched invalidate_usdc_balance
step s (sets url) = set_gateway url s
step s disconnects = disconnect_gateway s
step s sends = invalidate_usdc_balance s
step s (polls has_key) = get_status has_key s
step s (fetch_ends n outcome) = elim (fetch_at n s.fetches) [
  | none ↦ s
  | some url ↦ fetched n outcome s
]

unfoldable pub run : State → List Event → State
unfolding step
run s [] = s
run s (e ∷ es) = run (step s e) es
