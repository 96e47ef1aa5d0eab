-- ===== src/Keystore/Files.antt =====
-- client/src/main/keystore.ts: what the functions do to the file.
use umbra_gateway.Prelude.{Option, none, ◌≡◌, refl, err}
use umbra_gateway.Exec.{◌>>=◌, by_option}
use umbra_gateway.Exec.Stable.{Stable, stable_rules}
use umbra_gateway.Keystore.{Env, load_key}

module _ {Blob Account : Type 0} (env : Env Blob Account) where
  load_key-Stable : (file : Option Blob) → Stable (λ f. f ≡ file) (load_key env)
  unfolding load_key
  load_key-Stable file = search stable_rules depth 12

  -- A key that is loaded is left as it is.
  pub load_key-file : (file : Option Blob) → (load_key env file).1 ≡ file
  load_key-file file = (load_key-Stable file).kept refl

  -- Without a file no key is loaded.
  pub load_key-none : (load_key env none).0 ≡ err "No key stored. Import a private key first."
  unfolding load_key ◌>>=◌ by_option
  load_key-none = refl
