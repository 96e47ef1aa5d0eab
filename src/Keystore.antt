-- ===== src/Keystore.antt =====
-- client/src/main/keystore.ts, with the handler `wallet:importKey` of client/src/main/index.ts: the
-- private key at rest. The encryption of the operating system, viem's accounts and the functions on
-- mnemonics are arguments; the state is the content of the file `keystore.bin`.
pub mod Keys
pub mod RoundTrip
pub mod Files
pub mod Examples
use umbra_gateway.Prelude.{
  ℕ, suc, String, Option, none, some, Bool, true, false, is_some, Result, ok, err, ◌==◌, ◌&&◌,
  if◌then◌else◌,
}
use umbra_gateway.Prelude.Text.{append, starts, includes, trim, is_space, length, drop, digits_from}
use Prim.Native.String.{[], ◌∷◌}
use Prim.Native.Char.{code}
use umbra_gateway.Exec.{Exec, pure, throw, lift, gets, modify, ◌>>=◌, ◌>>◌, by_option}

-- `Blob` is the type of an encrypted file, `Account` that of viem's accounts.
pub record Env (Blob Account : Type 0) : Type 0 where
  pub is_encryption_available : Bool
  pub encrypt_string : String → Blob
  pub decrypt_string : Blob → Result String
  pub private_key_to_account : String → Result Account
  pub validate_mnemonic : String → Bool
  -- the private key of a mnemonic's seed at the path m/44'/60'/0'/0/0
  pub derive_key : String → String

-- /^0x[0-9a-fA-F]{64}$/
unfoldable pub is_key : String → Bool
unfolding length drop digits_from
is_key hex = starts hex "0x" && length hex == 66 && is_some (digits_from 16 0 (drop 2 hex))

unfoldable pub normalize_key : String → Result String
unfolding is_key
normalize_key raw =
    let hex = if starts raw "0x" then raw else append "0x" raw in
    if is_key hex then ok hex else err "Invalid private key: must be 32 bytes (64 hex chars)"

-- s.replace(/\s+/g, ' '), where `within` is whether the last character was white space
collapse : Bool → String → String
unfolding is_space
collapse within [] = []
collapse within (c ∷ s) =
    let inside = collapse true s in
    let outside = collapse false s in
    if is_space (code c) then (if within then inside else append " " inside) else c ∷ outside

unfoldable pub normalize_phrase : String → String
unfolding collapse trim
normalize_phrase phrase = collapse false (trim phrase)

abbrev no_encryption : String
no_encryption = "OS safeStorage encryption is not available on this system"

module _ {Blob Account : Type 0} (env : Env Blob Account) where
  -- existsSync(keystorePath())
  unfoldable pub has_key : Option Blob → Bool
  has_key file = is_some file

  unfoldable pub import_key : String → Exec (Option Blob) (Unit {0})
  import_key raw_hex =
      if env.is_encryption_available
      then (do
        hex ← lift (normalize_key raw_hex)
        account ← lift (env.private_key_to_account hex)
        modify (λ file. some (env.encrypt_string hex)))
      else throw no_encryption

  unfoldable pub load_key : Exec (Option Blob) Account
  load_key = do
    file ← gets (λ file. file)
    by_option file (throw "No key stored. Import a private key first.") λ encrypted.
        if env.is_encryption_available
        then (do hex ← lift (env.decrypt_string encrypted); lift (env.private_key_to_account hex))
        else throw no_encryption

  -- `generateAccount`, for the mnemonic that is drawn; it returns the account with the mnemonic
  unfoldable pub generate_account : String → Exec (Option Blob) (String × Account)
  generate_account mnemonic = do
    import_key (env.derive_key mnemonic)
    account ← lift (env.private_key_to_account (env.derive_key mnemonic))
    pure (mnemonic, account)

  unfoldable pub import_from_mnemonic : String → Exec (Option Blob) (Unit {0})
  import_from_mnemonic phrase =
      if env.validate_mnemonic (normalize_phrase phrase)
      then import_key (env.derive_key (normalize_phrase phrase))
      else throw "Invalid seed phrase. Check each word and try again."

  unfoldable pub clear_key : Exec (Option Blob) (Unit {0})
  clear_key = modify (λ file. none)

  -- the handler `wallet:importKey`
  unfoldable pub wallet_import_key : String → Exec (Option Blob) (Unit {0})
  wallet_import_key input =
      if includes (trim input) " "
      then import_from_mnemonic (trim input)
      else import_key (trim input)
