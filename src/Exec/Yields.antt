-- ===== src/Exec/Yields.antt =====
-- What an action that returns has returned: each way to build an action has one rule, and the rules
-- of a branch and of a bind hand on what the test or the bound call has given.
use mathlib.Core.Path.{subst}
use umbra_gateway.Prelude.{
  String, Bool, true, false, Option, none, some, Result, ok, err, ◌≡◌, refl, if◌then◌else◌,
}
use umbra_gateway.Exec.{Exec, pure, throw, gets, ◌>>=◌, by_option, continue, catch, handle}

pub record Yields {ℓ κ ι} {World : Type ℓ} {Value : Type κ} (Good : Value → Type ι)
    (action : Exec World Value) : Type (ℓ ⊔ κ ⊔ ι) where
  pub yields : (w : World) (value : Value) → (action w).0 ≡ ok value → Good value

module _ {ℓ κ ι} {World : Type ℓ} {Value : Type κ} {Good : Value → Type ι} where
  pub Yields-throw : (message : String) → Yields {World = World} Good (throw message)
  unfolding throw
  Yields-throw message = record { yields = λ w value e. cc e }

  pub Yields-pure : (value : Value) → Good value → Yields {World = World} Good (pure value)
  unfolding pure
  Yields-pure value good = record { yields = λ w other e. subst Good (cc e) good }

  pub Yields-if :
      (test : Bool) (yes_way no_way : Exec World Value)
      → (test ≡ true → Yields Good yes_way)
      → (test ≡ false → Yields Good no_way)
      → Yields Good (if test then yes_way else no_way)
  Yields-if true yes_way no_way on_yes on_no = on_yes refl
  Yields-if false yes_way no_way on_yes on_no = on_no refl

module _ {ℓ κ ι ν} {World : Type ℓ} {First : Type κ} {Second : Type ι}
    {Good : Second → Type ν} where
  pub Yields-by_option :
      (found : Option First) (other : Exec World Second) (next : First → Exec World Second)
      → Yields Good other
      → ((x : First) → found ≡ some x → Yields Good (next x))
      → Yields Good (by_option found other next)
  unfolding by_option
  Yields-by_option none other next otherwise each = otherwise
  Yields-by_option (some x) other next otherwise each = each x refl

  Yields-after :
      (result : Result First) (next : First → Exec World Second) (w : World) (value : Second)
      → ((x : First) → result ≡ ok x → Yields Good (next x))
      → (continue result next w).0 ≡ ok value
      → Good value
  Yields-after (err message) next w value each e = cc e
  Yields-after (ok x) next w value each e = (each x refl).yields w value e

  -- the bound call may be looked at in the state in which it was made
  pub Yields-bind :
      (action : Exec World First) (next : First → Exec World Second)
      → ((w : World) (x : First) → (action w).0 ≡ ok x → Yields Good (next x))
      → Yields Good (action >>= next)
  unfolding ◌>>=◌
  Yields-bind action next each = record {
    yields = λ w value e. Yields-after (action w).0 next (action w).1 value (each w) e;
  }

module _ {ℓ κ ι} {World : Type ℓ} {Value : Type κ} {Good : Value → Type ι} where
  pub Yields-gets : (read : World → Value) → ((w : World) → Good (read w)) → Yields Good (gets read)
  unfolding gets
  Yields-gets read good = record { yields = λ w value e. subst Good (cc e) (good w) }

  Yields-handled :
      (result : Result Value) (handler : String → Exec World Value) (w : World) (value : Value)
      → (result ≡ ok value → Good value)
      → ((message : String) → Yields Good (handler message))
      → (handle result handler w).0 ≡ ok value
      → Good value
  Yields-handled (ok x) handler w value tried caught e = tried e
  Yields-handled (err message) handler w value tried caught e = (caught message).yields w value e

  pub Yields-catch :
      (action : Exec World Value) (handler : String → Exec World Value)
      → Yields Good action
      → ((message : String) → Yields Good (handler message))
      → Yields Good (catch action handler)
  unfolding catch
  Yields-catch action handler tried caught = record {
    yields = λ w value e.
        Yields-handled (action w).0 handler (action w).1 value (tried.yields w value) caught e;
  }
