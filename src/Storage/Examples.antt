-- ===== src/Storage/Examples.antt =====
-- Tests of the storage, with a store that keeps a buffer as the object of its JSON.
use umbra_gateway.Prelude.{
  String, List, [], ◌∷◌, Option, none, some, true, false, ◌≡◌, refl, sym, ap, ◌∙◌, inr, All,
  if◌then◌else◌,
}
use mathlib.Core.Path.{subst}
use umbra_gateway.Prelude.Map
use umbra_gateway.Prelude.Map.{Map, get-set, get-delete, get-empty}
use umbra_gateway.Prelude.Text.{includes, truthy, ===_refl}
use umbra_gateway.Storage.{
  Stored, text, buffer, buffer_object, other, Env, get, get_named, get_raw, set, fall_back,
}
use umbra_gateway.Storage.Replay.{
  Documented, Operation, sets, removes, run, replay, run-Reads, Plain, Reads, key_of,
}
use umbra_gateway.Storage.AtRest.{run-Secret, Secret, Sealed, absent}

data Cipher : Type 0 where
  cipher : String → Cipher

abbrev decipher : Cipher → String
decipher (cipher s) = s

abbrev File : Type 0
File = Map (Stored Cipher String)

abbrev through_json : Stored Cipher String → Stored Cipher String
through_json (buffer bytes) = buffer_object bytes
through_json entry = entry

abbrev shown : Stored Cipher String → String
shown (text s) = s
shown (buffer bytes) = decipher bytes
shown (buffer_object bytes) = decipher bytes
shown (other s) = s

abbrev env : Env Cipher String File
env = record {
  parse = some;
  stringify = λ s. s;
  is_array = λ s. false;
  as_value = shown;
  encrypt_string = cipher;
  decrypt_string = λ s. some (decipher s);
  read = Map.get;
  write = λ file key entry. Map.set file key (through_json entry);
  erase = Map.delete;
}

set_same :
    (m : File) (key : String) (entry : Stored Cipher String)
    → Map.get (Map.set m key entry) key ≡ some entry
set_same m key entry =
    get-set m key key entry ∙ ap (λ b. if b then some entry else Map.get m key) (===_refl key)

env-Documented : Documented env
env-Documented = record {
  parses = λ value. refl;
  decrypts = λ s. refl;
  reads_text = λ m key s plain. set_same m key (text s);
  reads_buffer = λ m key bytes plain. inr (set_same m key (buffer_object bytes));
  reads_others = λ m key j entry plain plain_j different.
      get-set m key j (through_json entry)
      ∙ ap (λ b. if b then some (through_json entry) else Map.get m j) different;
  erases = λ m key plain.
      get-delete m key key ∙ ap (λ b. if b then none else Map.get m key) (===_refl key);
  erases_no_other = λ m key j plain plain_j different.
      get-delete m key j ∙ ap (λ b. if b then none else Map.get m j) different;
}

abbrev operations : List (Operation String)
operations =
    sets true "keystoreKeys" "secret"
    ∷ sets true "theme" "dark"
    ∷ sets true "accounts" "a"
    ∷ removes "theme"
    ∷ sets true "accounts" "b"
    ∷ []

abbrev file : File
file = run env Map.empty operations

usable_keys : All (λ o. Plain (key_of o)) operations
unfolding includes
usable_keys = ((refl, refl), ((refl, refl), ((refl, refl), ((refl, refl), ((refl, refl), tt)))))

run-Reads_example : Reads env file (replay (λ key. none) operations)
unfolding get get_named get_raw fall_back Map.get Map.empty
run-Reads_example =
    run-Reads env env-Documented operations Map.empty (λ key. none) usable_keys starts_empty
  where
    starts_empty : Reads env Map.empty (λ key. none)
    starts_empty key default_value plain = record {
      missing = λ e. nothing (truthy (some key));
      found = λ value e _. cc e;
      unsuited = λ value array e _ _ _. cc e;
    }
      where
        nothing : (o : Option String) → get_named env Map.empty default_value o ≡ default_value
        nothing none = refl
        nothing (some name) = refl

reads_back :
    (get env file (some "keystoreKeys") none ≡ some "secret")
    × (get env file (some "accounts") none ≡ some "b")
    × (get env file (some "theme") (some "light") ≡ some "light")
unfolding includes fall_back
reads_back = (
  (run-Reads_example "keystoreKeys" none (refl, refl)).found "secret" refl (λ a e _. cc e),
  (run-Reads_example "accounts" none (refl, refl)).found "b" refl (λ a e _. cc e),
  (run-Reads_example "theme" (some "light") (refl, refl)).missing refl,
)

run-Secret_example : Secret env file
run-Secret_example =
    run-Secret env env-Documented operations Map.empty usable_keys
      (refl, (refl, (refl, (tt, (refl, tt)))))
      (λ key sensitive. subst (Sealed env) (sym (get-empty key)) absent)

-- where encryption is not available, a sensitive value is stored as its plain text
stored_plainly :
    Map.get (set env false "keystoreKeys" "secret" Map.empty) "keystoreKeys" ≡ some (text "secret")
unfolding set Map.get Map.set
stored_plainly = refl
