-- ===== src/Storage/AtRest.antt =====
-- client/src/main/adapters/storage.ts: the entries of the sensitive keys in the file.
use umbra_gateway.Prelude.{
  String, List, [], ◌∷◌, Option, none, some, true, ◌&&◌, if◌then◌else◌, ◌≡◌, refl, sym, ap, inl,
  inr, Bool-cases, All,
}
use mathlib.Core.Path.{subst}
use umbra_gateway.Prelude.Text.{includes, ◌===◌, ===_iff}
use umbra_gateway.Storage.{
  Stored, text, buffer, buffer_object, Env, is_encrypted_key, entry_of, set, remove,
}
use umbra_gateway.Storage.Replay.{Plain, Documented, Operation, sets, removes, key_of, apply, run}

abbrev pub WhenAvailable : {Value : Type 0} → Operation Value → Type 0
WhenAvailable (sets available key value) = available ≡ true
WhenAvailable (removes key) = Unit

-- The keys under which the wallet library keeps secrets, private keys and seeds.
pub data IsSensitive : String → Type 0 where
  secrets : IsSensitive "keystoreSecrets"
  keys : IsSensitive "keystoreKeys"
  seeds : IsSensitive "keystoreSeeds"

sensitive-Plain : (key : String) → IsSensitive key → Plain key
unfolding includes
sensitive-Plain _ secrets = (refl, refl)
sensitive-Plain _ keys = (refl, refl)
sensitive-Plain _ seeds = (refl, refl)

sensitive_encrypted : (key : String) → IsSensitive key → is_encrypted_key key ≡ true
unfolding is_encrypted_key
sensitive_encrypted _ secrets = refl
sensitive_encrypted _ keys = refl
sensitive_encrypted _ seeds = refl

module _ {Bytes Value File : Type 0} (env : Env Bytes Value File) where
  -- An entry that is missing, or that is what encryption makes of a text.
  pub data Sealed : Option (Stored Bytes Value) → Type 0 where
    absent : Sealed none
    sealed : (s : String) → Sealed (some (buffer (env.encrypt_string s)))
    sealed_object : (s : String) → Sealed (some (buffer_object (env.encrypt_string s)))

  abbrev pub Secret : File → Type 0
  Secret file = (key : String) → IsSensitive key → Sealed (env.read file key)

  module _ (documented : Documented env) where
    set-Sealed :
        (file : File) (key : String) (value : Value)
        → Plain key
        → is_encrypted_key key ≡ true
        → Sealed (env.read (set env true key value file) key)
    unfolding set entry_of
    set-Sealed file key value plain secret =
        subst (λ entry. Sealed (env.read (env.write file key entry) key))
          (ap
            (λ b.
              if b && true
              then buffer (env.encrypt_string (env.stringify value))
              else text (env.stringify value))
            (sym secret))
          (elim (documented.reads_buffer file key (env.encrypt_string (env.stringify value))
            plain) [
              | inl stored ↦ rw stored (sealed (env.stringify value))
              | inr stored ↦ rw stored (sealed_object (env.stringify value))
            ])

    apply-Secret :
        (o : Operation Value) (file : File)
        → Plain (key_of o)
        → WhenAvailable o
        → Secret file
        → Secret (apply env o file)
    unfolding set remove
    apply-Secret (sets available key value) file plain is_available secret j sensitive =
        let plain_j = sensitive-Plain j sensitive in
        elim (Bool-cases (key === j)) [
          | inl same ↦ rw is_available (
              subst (λ x. Sealed (env.read (set env true key value file) x))
                ((===_iff key j).0 same)
                (set-Sealed file key value plain (
                  subst (λ x. is_encrypted_key x ≡ true) (sym ((===_iff key j).0 same))
                    (sensitive_encrypted j sensitive))))
          | inr different ↦
              subst Sealed
                (sym (
                  documented.reads_others file key j (entry_of env available key value) plain
                    plain_j different))
                (secret j sensitive)
        ]
    apply-Secret (removes key) file plain _ secret j sensitive =
        let plain_j = sensitive-Plain j sensitive in
        elim (Bool-cases (key === j)) [
          | inl same ↦
              subst (λ x. Sealed (env.read (remove env key file) x)) ((===_iff key j).0 same)
                (subst Sealed (sym (documented.erases file key plain)) absent)
          | inr different ↦
              subst Sealed (sym (documented.erases_no_other file key j plain plain_j different))
                (secret j sensitive)
        ]

    -- While encryption is available at each `set`, and the keys that are set and removed are not empty
    -- and have no dot, which the store would read as a path into an entry: the entries of the
    -- sensitive keys in the file are never anything but encrypted texts, if they were so before and
    -- the store keeps its entries. The sensitive keys are those of the wallet's secrets, private keys
    -- and seeds.
    pub run-Secret :
        (os : List (Operation Value)) (file : File)
        → All (λ o. Plain (key_of o)) os
        → All WhenAvailable os
        → Secret file
        → Secret (run env file os)
    run-Secret [] file plain available secret = secret
    run-Secret (o ∷ os) file (plain, plains) (available, availables) secret =
        run-Secret os (apply env o file) plains availables
          (apply-Secret o file plain available secret)
