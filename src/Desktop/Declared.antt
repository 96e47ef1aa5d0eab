-- ===== src/Desktop/Declared.antt =====
-- client/src/preload/index.ts: the types that the script declares for the replies, which the type
-- checker does not compare with what the handlers return.
pub mod Replies
use umbra_gateway.Prelude.{String, List, [], ◌∷◌, Option, none, some, Bool, true, false, ◌&&◌}
use umbra_gateway.Prelude.Json.{Json, null, bool, num, str, obj, Fields, find}
use umbra_gateway.Desktop.{
  Call, has_key, generate_account, get_address, clear_key, import_key, set_gateway_url,
  disconnect_gateway, get_all_balances, call, send, tor_get_status, helios_get_status,
  x402_get_status, network_get_info, wc_sign_message, wc_sign_typed_data, wc_send_transaction,
}

-- The types that occur. A field of type `unknown` that is optional may be anything, so it is left out.
pub data Basic : Type 0 where
  boolean number string : Basic
  or_null : Basic → Basic

pub data Shape : Type 0 where
  basic : Basic → Shape
  object : List (String × Basic) → Shape

unfoldable pub fits : Basic → Json → Bool
fits boolean (bool b) = true
fits number (num n) = true
fits string (str s) = true
fits (or_null inner) null = true
fits (or_null inner) v = fits inner v
fits _ _ = false

unfoldable pub field_fits : Basic → Option Json → Bool
unfolding fits
field_fits declared none = false
field_fits declared (some v) = fits declared v

unfoldable pub all_fit : List (String × Basic) → Fields → Bool
unfolding field_fits find
all_fit [] fields = true
all_fit ((name, declared) ∷ rest) fields =
    field_fits declared (find name fields) && all_fit rest fields

-- whether a reply has a type
unfoldable pub has_shape : Shape → Option Json → Bool
unfolding fits all_fit
has_shape (basic declared) (some v) = fits declared v
has_shape (object declared) (some (obj fields)) = all_fit declared fields
has_shape _ _ = false

-- the type of the promise that a function of the script returns
unfoldable pub declared : Call → Shape
declared has_key = basic boolean
declared generate_account = object (("mnemonic", string) ∷ ("address", string) ∷ [])
declared get_address = basic string
declared clear_key = object (("ok", boolean) ∷ [])
declared (import_key input) = object (("ok", boolean) ∷ [])
declared (set_gateway_url url) = object (("ok", boolean) ∷ [])
declared disconnect_gateway = object (("ok", boolean) ∷ [])
declared get_all_balances =
    object (("address", string) ∷ ("ethBalance", string) ∷ ("usdcBalance", string) ∷ [])
declared (call method params) = object []
declared (send symbol to amount) = object (("txHash", string) ∷ [])
declared tor_get_status = object (
    ("status", string)
    ∷ ("socksPort", or_null number)
    ∷ ("bootstrapPercent", number)
    ∷ ("usingOnion", boolean)
    ∷ [])
declared helios_get_status = object (("status", string) ∷ [])
declared x402_get_status = object (("connected", boolean) ∷ ("usdcBalance", or_null string) ∷ [])
declared network_get_info = object (("name", string) ∷ ("heliosStatus", string) ∷ [])
declared (wc_sign_message message) = basic string
declared (wc_sign_typed_data raw) = basic string
declared (wc_send_transaction tx) = basic string

-- The reply is made of what the gateway answers.
unfoldable pub passes_on : Call → Bool
passes_on (call method params) = true
passes_on (send symbol to amount) = true
passes_on (wc_send_transaction tx) = true
passes_on _ = false
