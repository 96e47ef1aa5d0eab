-- ===== src/Storage/Replay.antt =====
-- client/src/main/adapters/storage.ts: the storage seen as a map from keys to values.
use umbra_gateway.Prelude.{
  String, List, [], ◌∷◌, Option, none, some, Bool, true, false, ◌&&◌, if◌then◌else◌, ◌≡◌, refl, sym,
  arith, ap, ◌∙◌, ◌⊎◌, inl, inr, Bool-cases, All,
}
use umbra_gateway.Prelude.Text.{◌===◌, ===_iff, truthy, includes}
use mathlib.Core.Path.{subst}
use umbra_gateway.Storage.{
  Stored, text, buffer, buffer_object, Env, is_encrypted_key, fall_back, get_raw, decode, get_named,
  get, entry_of, set, remove,
}

-- A key that electron-store takes as a name: it reads a dot as the path into an object.
abbrev pub Plain : String → Type 0
Plain key = (includes key "." ≡ false) × ((key === "") ≡ false)

-- What the adapter relies on: parsing and decryption undo printing and encryption, and the store
-- keeps entries by their keys, with a buffer in one of its two forms.
pub record Documented {Bytes Value File : Type 0} (env : Env Bytes Value File) : Type 0 where
  pub parses : (value : Value) → env.parse (env.stringify value) ≡ some value
  pub decrypts : (s : String) → env.decrypt_string (env.encrypt_string s) ≡ some s
  pub reads_text :
      (file : File) (key s : String)
      → Plain key
      → env.read (env.write file key (text s)) key ≡ some (text s)
  pub reads_buffer :
      (file : File) (key : String) (bytes : Bytes)
      → Plain key
      → (env.read (env.write file key (buffer bytes)) key ≡ some (buffer bytes))
        ⊎ (env.read (env.write file key (buffer bytes)) key ≡ some (buffer_object bytes))
  pub reads_others :
      (file : File) (key other_key : String) (entry : Stored Bytes Value)
      → Plain key
      → Plain other_key
      → (key === other_key) ≡ false
      → env.read (env.write file key entry) other_key ≡ env.read file other_key
  pub erases : (file : File) (key : String) → Plain key → env.read (env.erase file key) key ≡ none
  pub erases_no_other :
      (file : File) (key other_key : String)
      → Plain key
      → Plain other_key
      → (key === other_key) ≡ false
      → env.read (env.erase file key) other_key ≡ env.read file other_key

-- `sets` has whether encryption is available at that time.
pub data Operation (Value : Type 0) : Type 0 where
  sets : Bool → String → Value → Operation Value
  removes : String → Operation Value

abbrev pub key_of : {Value : Type 0} → Operation Value → String
key_of (sets available key value) = key
key_of (removes key) = key

-- The operations on an abstract map.
abbrev pub update :
    {Value : Type 0} → Operation Value → (String → Option Value) → String → Option Value
update (sets available key value) spec j = if key === j then some value else spec j
update (removes key) spec j = if key === j then none else spec j

abbrev pub replay :
    {Value : Type 0} → (String → Option Value) → List (Operation Value) → String → Option Value
replay spec [] = spec
replay spec (o ∷ os) = replay (update o spec) os

&&-left : (a b : Bool) → (a && b) ≡ true → a ≡ true
&&-left a b h = ground arith

module _ {Bytes Value File : Type 0} (env : Env Bytes Value File) where
  abbrev pub apply : Operation Value → File → File
  apply (sets available key value) file = set env available key value file
  apply (removes key) file = remove env key file

  abbrev pub run : File → List (Operation Value) → File
  run file [] = file
  run file (o ∷ os) = run (apply o file) os

  -- What `get` returns for a key, where the map has `entry` there.
  pub record Answers (file : File) (key : String) (default_value entry : Option Value)
      : Type 0 where
    pub missing : entry ≡ none → get env file (some key) default_value ≡ default_value
    -- the entry, unless the default is an array and the entry is not one
    pub found :
        (value : Value)
        → entry ≡ some value
        → ((array : Value)
            → default_value ≡ some array
            → env.is_array array ≡ true
            → env.is_array value ≡ true)
        → get env file (some key) default_value ≡ some value
    pub unsuited :
        (value array : Value)
        → entry ≡ some value
        → default_value ≡ some array
        → env.is_array array ≡ true
        → env.is_array value ≡ false
        → get env file (some key) default_value ≡ default_value

  abbrev pub Reads : File → (String → Option Value) → Type 0
  Reads file spec =
      (key : String) (default_value : Option Value)
      → Plain key
      → Answers file key default_value (spec key)

  -- the same, as the code computes it
  abbrev Follows : File → (String → Option Value) → Type 0
  Follows file spec =
      (key : String) (default_value : Option Value)
      → Plain key
      → get env file (some key) default_value ≡ fall_back env default_value (spec key)

  fall_back-kept :
      (array value : Value)
      → (env.is_array array ≡ true → env.is_array value ≡ true)
      → fall_back env (some array) (some value) ≡ some value
  unfolding fall_back
  fall_back-kept array value suits = elim (Bool-cases (env.is_array array)) [
    | inl is_one ↦ rw (is_one, suits is_one) refl
    | inr is_none ↦ rw is_none refl
  ]

  fall_back-dropped :
      (array value : Value)
      → env.is_array array ≡ true
      → env.is_array value ≡ false
      → fall_back env (some array) (some value) ≡ some array
  unfolding fall_back
  fall_back-dropped array value is_one is_none = rw (is_one, is_none) refl

  some_inj : (x y : Value) → some x ≡ some y → x ≡ y
  some_inj x y e = cc e

  Follows-Answers :
      (file : File) (key : String) (default_value entry : Option Value)
      → get env file (some key) default_value ≡ fall_back env default_value entry
      → Answers file key default_value entry
  unfolding fall_back
  Follows-Answers file key default_value none e = record {
    missing = λ _. e;
    found = λ value f _. cc f;
    unsuited = λ value array f _ _ _. cc f;
  }
  Follows-Answers file key none (some result) e = record {
    missing = λ f. cc f;
    found = λ value f _. e ∙ f;
    unsuited = λ value array f g _ _. cc g;
  }
  Follows-Answers file key (some default) (some result) e = record {
    missing = λ f. cc f;
    found = λ value f suits.
        let same = some_inj result value f in
        e
        ∙ fall_back-kept default result
            (λ is_one. subst (λ x. env.is_array x ≡ true) (sym same) (suits default refl is_one))
        ∙ f;
    unsuited = λ value array f g is_one is_none.
        e
        ∙ fall_back-dropped default result
            (subst (λ x. env.is_array x ≡ true) (sym (some_inj default array g)) is_one)
            (subst (λ x. env.is_array x ≡ false) (sym (some_inj result value f)) is_none);
  }

  Answers-Follows :
      (file : File) (key : String) (default_value entry : Option Value)
      → Answers file key default_value entry
      → get env file (some key) default_value ≡ fall_back env default_value entry
  unfolding fall_back
  Answers-Follows file key default_value none a = a.missing refl
  Answers-Follows file key none (some result) a = a.found result refl (λ array g _. cc g)
  Answers-Follows file key (some default) (some result) a =
      elim (Bool-cases (env.is_array default)) [
        | inl is_one ↦ elim (Bool-cases (env.is_array result)) [
          | inl result_too ↦
              a.found result refl (λ array g _. result_too)
              ∙ sym (fall_back-kept default result (λ _. result_too))
          | inr result_not ↦
              a.unsuited result default refl refl is_one result_not
              ∙ sym (fall_back-dropped default result is_one result_not)
        ]
        | inr is_none ↦
            a.found result refl (λ array g is_one. cc (some_inj default array g, is_none, is_one))
            ∙ sym (fall_back-kept default result (λ is_one. cc (is_none, is_one)))
      ]

  get-get_raw :
      (file : File) (key : String) (default_value : Option Value)
      → Plain key
      → get env file (some key) default_value ≡ get_raw env key default_value (env.read file key)
  unfolding get
  get-get_raw file key default_value plain = ap (get_named env file default_value) named
    where
      named : truthy (some key) ≡ some key
      named = rw plain.1 refl

  module _ (documented : Documented env) where
    get-set_same :
        (file : File) (available : Bool) (key : String) (value : Value)
        (default_value : Option Value)
        → Plain key
        → get_raw env key default_value (env.read (set env available key value file) key)
          ≡ fall_back env default_value (some value)
    unfolding set entry_of get_raw
    get-set_same file available key value default_value plain =
        encrypted_or_not (is_encrypted_key key && available) refl
      where
        encrypted_or_not :
            (b : Bool)
            → (is_encrypted_key key && available) ≡ b
            → get_raw env key default_value (
                env.read
                  (env.write file key (
                    if b
                    then buffer (env.encrypt_string (env.stringify value))
                    else text (env.stringify value)))
                  key)
              ≡ fall_back env default_value (some value)
        encrypted_or_not true e =
            elim (documented.reads_buffer file key (env.encrypt_string (env.stringify value))
              plain) [
                | inl stored ↦
                    rw
                      (
                        stored,
                        &&-left (is_encrypted_key key) available e,
                        documented.decrypts (env.stringify value),
                        documented.parses value,
                      )
                      refl
                | inr stored ↦
                    rw
                      (
                        stored,
                        &&-left (is_encrypted_key key) available e,
                        documented.decrypts (env.stringify value),
                        documented.parses value,
                      )
                      refl
              ]
        encrypted_or_not false e =
            rw (documented.reads_text file key (env.stringify value) plain)
              (decode-text (is_encrypted_key key))
          where
            decode-text :
                (b : Bool)
                → fall_back env default_value (decode env b none (text (env.stringify value)))
                  ≡ fall_back env default_value (some value)
            decode-text true = ap (fall_back env default_value) (documented.parses value)
            decode-text false = ap (fall_back env default_value) (documented.parses value)

    apply-Follows :
        (o : Operation Value) (file : File) (spec : String → Option Value)
        → Plain (key_of o)
        → Follows file spec
        → Follows (apply o file) (update o spec)
    unfolding set fall_back remove get_raw
    apply-Follows (sets available key value) file spec plain reads j default_value plain_j =
        elim (Bool-cases (key === j)) [
          | inl same ↦ rw same (
              get-get_raw (set env available key value file) j default_value plain_j
              ∙ subst
                  (λ x.
                    get_raw env x default_value (env.read (set env available key value file) x)
                    ≡ fall_back env default_value (some value))
                  ((===_iff key j).0 same)
                  (get-set_same file available key value default_value plain))
          | inr different ↦ rw different (
              get-get_raw (set env available key value file) j default_value plain_j
              ∙ (ap (get_raw env j default_value) (
                    documented.reads_others file key j (entry_of env available key value) plain
                      plain_j different)
                  ∙ (sym (get-get_raw file j default_value plain_j)
                      ∙ reads j default_value plain_j)))
        ]
    apply-Follows (removes key) file spec plain reads j default_value plain_j =
        elim (Bool-cases (key === j)) [
          | inl same ↦ rw same (
              get-get_raw (remove env key file) j default_value plain_j
              ∙ subst
                  (λ x.
                    get_raw env x default_value (env.read (remove env key file) x) ≡ default_value)
                  ((===_iff key j).0 same)
                  (ap (get_raw env key default_value) (documented.erases file key plain)))
          | inr different ↦ rw different (
              get-get_raw (remove env key file) j default_value plain_j
              ∙ (ap (get_raw env j default_value)
                    (documented.erases_no_other file key j plain plain_j different)
                  ∙ (sym (get-get_raw file j default_value plain_j)
                      ∙ reads j default_value plain_j)))
        ]

    run-Follows :
        (os : List (Operation Value)) (file : File) (spec : String → Option Value)
        → All (λ o. Plain (key_of o)) os
        → Follows file spec
        → Follows (run file os) (replay spec os)
    run-Follows [] file spec plain reads = reads
    run-Follows (o ∷ os) file spec (plain, plains) reads =
        run-Follows os (apply o file) (update o spec) plains (apply-Follows o file spec plain reads)

    -- Whatever is set and removed, and whether encryption is available at each time or not, `get`
    -- then answers as the same operations on a map from keys to values say: the default where the map
    -- has nothing, or where the default is an array and the value of the map is not one, and the value
    -- of the map everywhere else, that is the one last set and not removed since. This holds for keys
    -- that are not empty and have no dot, if parsing and decryption undo printing and encryption and
    -- the store keeps its entries.
    pub run-Reads :
        (os : List (Operation Value)) (file : File) (spec : String → Option Value)
        → All (λ o. Plain (key_of o)) os
        → Reads file spec
        → Reads (run file os) (replay spec os)
    run-Reads os file spec plain reads key default_value plain_key =
        Follows-Answers (run file os) key default_value (replay spec os key) (
          run-Follows os file spec plain (λ k d p. Answers-Follows file k d (spec k) (reads k d p))
            key default_value plain_key)
