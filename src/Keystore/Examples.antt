-- ===== src/Keystore/Examples.antt =====
-- client/src/main/keystore.ts: the theorems at one key.
use umbra_gateway.Prelude.{String, some, none, true, false, ◌≡◌, refl, ok}
use umbra_gateway.Prelude.Text.{append}
use umbra_gateway.Keystore.{Env, normalize_key, import_key, load_key}
use umbra_gateway.Keystore.RoundTrip.{load_key-import_key}

abbrev bare : String
bare = "4c0883a69102937d6231471b5dbb6204fe5129617082792ae468d01a3f362318"

abbrev key : String
key = "0x4c0883a69102937d6231471b5dbb6204fe5129617082792ae468d01a3f362318"

abbrev env : Env String String
env = record {
  is_encryption_available = true;
  encrypt_string = λ s. append "enc:" s;
  decrypt_string = λ blob. ok key;
  private_key_to_account = λ hex. ok hex;
  validate_mnemonic = λ phrase. false;
  derive_key = λ phrase. "none";
}

load_key-import_key_example :
    let (r, stored) = import_key env bare none in
    (r ≡ ok tt) × (load_key env stored ≡ (ok key, some (append "enc:" key)))
unfolding normalize_key
load_key-import_key_example = load_key-import_key env none bare key key refl refl refl refl
