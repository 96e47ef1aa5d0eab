-- ===== src/Keystore/RoundTrip.antt =====
-- client/src/main/keystore.ts: what is stored is what is loaded, and a failure stores nothing.
use umbra_gateway.Prelude.{String, Option, none, some, true, ◌≡◌, refl, ok, err, arith}
use umbra_gateway.Exec.{◌>>=◌, by_option, throw}
use umbra_gateway.Keystore.{
  Env, normalize_key, import_key, load_key, import_from_mnemonic, clear_key, wallet_import_key,
}

module _ {Blob Account : Type 0} (env : Env Blob Account) where
  -- A key that is imported, with or without prefix, is loaded as its account, if the encryption is
  -- available and undone by the decryption; whatever was stored before is replaced.
  pub load_key-import_key :
      (file : Option Blob) (raw key : String) (account : Account)
      → env.is_encryption_available ≡ true
      → env.decrypt_string (env.encrypt_string key) ≡ ok key
      → normalize_key raw ≡ ok key
      → env.private_key_to_account key ≡ ok account
      → let (r, stored) = import_key env raw file in
        (r ≡ ok tt) × (load_key env stored ≡ (ok account, some (env.encrypt_string key)))
  unfolding import_key load_key ◌>>=◌ by_option
  load_key-import_key file raw key account on undone k a =
      (rw (on, k, a) refl, rw (on, k, a) (rw (undone, a) refl))

  import_key-fails :
      (file : Option Blob) (raw m : String)
      → (import_key env raw file).0 ≡ err m
      → (import_key env raw file).1 ≡ file
  unfolding import_key ◌>>=◌
  import_key-fails file raw m e = ground arith

  -- An import that fails, of a key or of a mnemonic, leaves the stored key as it was.
  pub failure_keeps_key :
      (file : Option Blob) (input m : String)
      → (wallet_import_key env input file).0 ≡ err m
      → (wallet_import_key env input file).1 ≡ file
  unfolding wallet_import_key import_from_mnemonic import_key ◌>>=◌ throw
  failure_keeps_key file input m e = ground arith

  -- After `clearKey` no key is loaded, whatever was stored.
  pub load_key-clear_key :
      (file : Option Blob)
      → load_key env (clear_key env file).1
        ≡ (err "No key stored. Import a private key first.", none)
  unfolding load_key clear_key ◌>>=◌ by_option
  load_key-clear_key file = refl
