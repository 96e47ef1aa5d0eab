-- ===== src/Storage.antt =====
-- client/src/main/adapters/storage.ts: the storage of the wallet's controllers. electron-store, the
-- encryption of the operating system and the JSON functions of ambire-common are arguments.
pub mod Replay
pub mod AtRest
pub mod Examples
use umbra_gateway.Prelude.{
  String, List, [], ◌∷◌, Option, none, some, Bool, true, false, not, ◌&&◌, ◌||◌, if◌then◌else◌,
}
use umbra_gateway.Prelude.Text.{◌===◌, truthy}

-- What the file holds at a key. A `Buffer` reads back as the object that its JSON is.
pub data Stored (Bytes Value : Type 0) : Type 0 where
  text : String → Stored Bytes Value
  buffer buffer_object : Bytes → Stored Bytes Value
  other : Value → Stored Bytes Value

-- `none` for what is thrown by `decryptString` and `parse`, and for `undefined` where the file has
-- no entry; `as_value` is the entry itself as the value that `get` returns.
pub record Env (Bytes Value File : Type 0) : Type 0 where
  pub parse : String → Option Value
  pub stringify : Value → String
  pub is_array : Value → Bool
  pub as_value : Stored Bytes Value → Value
  pub encrypt_string : String → Bytes
  pub decrypt_string : Bytes → Option String
  pub read : File → String → Option (Stored Bytes Value)
  pub write : File → String → Stored Bytes Value → File
  pub erase : File → String → File

-- ENCRYPTED_KEYS.has(key)
unfoldable pub is_encrypted_key : String → Bool
is_encrypted_key key =
    key === "keystoreSecrets" || key === "keystoreKeys" || key === "keystoreSeeds"

-- the bytes of an entry that is a buffer in either form
abbrev pub buffer_of : {Bytes Value : Type 0} → Stored Bytes Value → Option Bytes
buffer_of (buffer bytes) = some bytes
buffer_of (buffer_object bytes) = some bytes
buffer_of _ = none

module _ {Bytes Value File : Type 0} (env : Env Bytes Value File) where
  abbrev then_parse : Option String → Option Value
  then_parse none = none
  then_parse (some serialized) = env.parse serialized

  unfoldable pub plain_value : Stored Bytes Value → Option Value
  plain_value (text serialized) = env.parse serialized
  plain_value raw = some (env.as_value raw)

  -- the value of an entry in the try block, where the flag is whether the key is a sensitive one
  unfoldable pub decode : Bool → Option Bytes → Stored Bytes Value → Option Value
  unfolding plain_value
  decode true (some bytes) raw = then_parse (env.decrypt_string bytes)
  decode sensitive bytes raw = plain_value raw

  abbrev is_array_default : Option Value → Bool
  is_array_default none = false
  is_array_default (some value) = env.is_array value

  -- what is returned for the value that was read, or for an error
  unfoldable pub fall_back : Option Value → Option Value → Option Value
  fall_back default_value none = default_value
  fall_back default_value (some result) =
      if is_array_default default_value && not (env.is_array result)
      then default_value
      else some result

  unfoldable pub get_raw : String → Option Value → Option (Stored Bytes Value) → Option Value
  unfolding is_encrypted_key decode fall_back
  get_raw key default_value none = default_value
  get_raw key default_value (some raw) =
      fall_back default_value (decode (is_encrypted_key key) (buffer_of raw) raw)

  unfoldable pub get_named : File → Option Value → Option String → Option Value
  unfolding get_raw
  get_named file default_value none = default_value
  get_named file default_value (some key) = get_raw key default_value (env.read file key)

  unfoldable pub get : File → Option String → Option Value → Option Value
  unfolding get_named
  get file key default_value = get_named file default_value (truthy key)

  -- the entry that `set` writes, where `available` is `safeStorage.isEncryptionAvailable()`
  unfoldable pub entry_of : Bool → String → Value → Stored Bytes Value
  unfolding is_encrypted_key
  entry_of available key value =
      if is_encrypted_key key && available
      then buffer (env.encrypt_string (env.stringify value))
      else text (env.stringify value)

  unfoldable pub set : Bool → String → Value → File → File
  unfolding entry_of
  set available key value file = env.write file key (entry_of available key value)

  unfoldable pub remove : String → File → File
  remove key file = env.erase file key
