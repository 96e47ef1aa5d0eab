-- ===== src/Desktop/Examples.antt =====
-- client/src/preload/index.ts and client/src/main/index.ts: the theorems at runs of calls.
use umbra_gateway.Prelude.{
  String, List, [], ◌∷◌, some, none, true, false, All, ◌≡◌, refl, ok, err, is_some,
}
use umbra_gateway.Prelude.Int.{pos}
use umbra_gateway.Prelude.Json.{str, num, find, obj, field, end}
use umbra_gateway.Prelude.Text.{append, ends_with, includes, trim}
use umbra_gateway.Exec.{◌>>=◌, by_option, modify, gets, pure}
use umbra_gateway.X402.Types
use umbra_gateway.X402.Types.{Account}
use umbra_gateway.X402.Protocol.{endpoint_of}
use umbra_gateway.X402.Request.Examples as Paying
use umbra_gateway.GatewayFetch.{Url}
use umbra_gateway.Helios
use umbra_gateway.Tor
use umbra_gateway.Keystore
use umbra_gateway.Desktop.{
  Desktop, Env, clear_key, import_key, set_gateway_url, call, send, x402_get_status, Event, invokes,
  light_asks, x402_reply, hash_reply, in_file,
}
use umbra_gateway.Desktop.Handlers.{handle_x402_get_status, invoke, step, run}
use umbra_gateway.Desktop.Declared.{has_shape, declared, passes_on, all_fit, field_fits, fits}
use umbra_gateway.Desktop.Declared.Replies.{invoke-Fits}
use umbra_gateway.Desktop.Keyless.{effects, keyless}
use umbra_gateway.Desktop.Onion.{Private, all_through_tor}
use umbra_gateway.Desktop.Signed.{IsHonest}
use umbra_gateway.Desktop.Asked.{Among, IsChosen, signed_as_asked}
use umbra_gateway.Desktop.Polls.{shown, old_balance_shown}

abbrev key : String
key = "0x4c0883a69102937d6231471b5dbb6204fe5129617082792ae468d01a3f362318"

abbrev account : Account
account = record { address = "0xME"; sign_typed_data = λ t. ok "0xSIG" }

-- A gateway that wants payments, and a URL parser that knows one onion service.
abbrev env : Env String
env = record {
  keystore = record {
    is_encryption_available = true;
    encrypt_string = λ s. append "enc:" s;
    decrypt_string = λ blob. ok key;
    private_key_to_account = λ hex. ok account;
    validate_mnemonic = λ phrase. true;
    derive_key = λ phrase. key;
  };
  rpc = record {
    x402 = Paying.env;
    load_key = err "unused";
    ask_helios = λ asked method params. err "not synced";
    stringify = λ value. "value";
    encode_balance_of = λ address. ok "0x70a08231";
    encode_transfer = λ to amount. ok "0xa9059cbb";
    format_ether = λ value. "0";
    format_units = λ value decimals. "0.000001";
    parse_ether = λ amount. ok (pos 1000);
    parse_units = λ amount decimals. ok (pos 10);
    to_number = λ value. some (pos 5);
    sign_transaction = λ account t. ok "0xSIGNED";
  };
  signer = record {
    sign_message = λ account message. ok "0xSIG";
    sign_typed_data = λ account typed. ok "0xSIG";
    parse = λ text. err "no JSON";
  };
  parse_url = λ url. some (record {
    protocol = "http:";
    hostname = "gateway.onion";
    port = "";
    pathname = "/";
    search = "";
  });
  parse_body = λ raw. some (obj (field "id" (num (pos 1)) (field "method" (str raw) end)));
  mnemonic = λ n. "abandon ability";
}

abbrev start : Desktop String
start = record {
  file = none;
  rpc = record {
    gateway_url = none;
    helios = Helios.initial;
    world = Types.initial;
    asked = [];
    signed = [];
  };
  helios_calls = [];
  tor = Tor.initial;
  cached_usdc_balance = none;
  usdc_balance_fetching = false;
  refreshes = 0;
  drawn = 0;
}

abbrev session : List Event
session =
    invokes (import_key key)
    ∷ invokes (set_gateway_url "http://gateway.onion")
    ∷ invokes (send "USDC" "0xYOU" "0.00001")
    ∷ light_asks "http://gateway.onion" "eth_getProof"
    ∷ []

signed_as_asked_example :
    All (Among env session) (run env start session).rpc.signed
    × All (IsHonest env (IsChosen env session)) (run env start session).rpc.world.trace
signed_as_asked_example = signed_as_asked env start session refl refl refl

all_through_tor_example : Private env (run env start session).rpc
unfolding endpoint_of ends_with
all_through_tor_example =
    all_through_tor env start session (tt, ((onion, refl, refl), (tt, ((onion, refl, refl), tt))))
      (record { gateway = λ url found. cc found; requests = tt })
  where
    onion : Url
    onion = record {
      protocol = "http:";
      hostname = "gateway.onion";
      port = "";
      pathname = "/";
      search = "";
    }

abbrev unlocked : Desktop String
unlocked = run env start session

abbrev removed : Desktop String
removed = run env unlocked (invokes clear_key ∷ [])

abbrev attempts : List Event
attempts =
    invokes (send "ETH" "0xYOU" "1")
    ∷ invokes (call "eth_gasPrice" (str ""))
    ∷ light_asks "http://gateway.onion" "eth_getProof"
    ∷ []

keyless_example :
    ((run env removed attempts).file ≡ none)
    × (effects (run env removed attempts).rpc.world.trace ≡ effects removed.rpc.world.trace)
    × ((run env removed attempts).rpc.signed ≡ removed.rpc.signed)
unfolding Keystore.clear_key step invoke ◌>>=◌ in_file modify
keyless_example = keyless env removed attempts refl (tt, (tt, (tt, tt)))

invoke-Fits_example : has_shape (declared x402_get_status) (some (x402_reply false none)) ≡ true
unfolding invoke handle_x402_get_status passes_on ◌>>=◌ by_option gets pure
invoke-Fits_example = invoke-Fits env x402_get_status start (some (x402_reply false none)) refl refl

-- The hash of `sendToken` is what the gateway answers, of any type.
hash_may_be_number :
    has_shape (declared (send "ETH" "0xYOU" "1")) (some (hash_reply (some (num (pos 5))))) ≡ false
unfolding has_shape declared all_fit field_fits fits find
hash_may_be_number = refl

-- another key is imported while a balance is cached
abbrev rich : Desktop String
rich = record start {
  file = some "enc:old";
  rpc = record start.rpc { gateway_url = some "http://g" };
  cached_usdc_balance = some "5.0";
}

abbrev exchange : List Event
exchange = invokes clear_key ∷ invokes (import_key key) ∷ []

old_balance_shown_example : handle_x402_get_status env (run env rich exchange) ≡ (
  ok (x402_reply true (shown env "5.0" (is_some (run env rich exchange).file))),
  run env rich exchange,
)
unfolding step invoke ◌>>=◌ in_file Keystore.wallet_import_key includes trim Keystore.import_key
    Keystore.normalize_key Keystore.clear_key
old_balance_shown_example =
    old_balance_shown env "5.0" rich exchange (tt, (tt, tt)) refl "http://g" refl
