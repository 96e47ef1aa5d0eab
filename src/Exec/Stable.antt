-- ===== src/Exec/Stable.antt =====
-- Properties of the state that no way out of an action breaks: each combinator has one rule, and
-- the rules of a branch and of a bind hand on what the branch or the bound call has established.
use umbra_gateway.Prelude.{
  String, Bool, true, false, Option, none, some, Result, ok, err, ◌⊎◌, inl, inr, ◌≡◌, refl,
  if◌then◌else◌,
}
use umbra_gateway.Exec.Yields.{Yields}
use umbra_gateway.Exec.{
  Exec, pure, throw, lift, gets, ◌>>=◌, by_option, by_sum, continue, catch, handle,
}

pub record Stable {ℓ κ ι} {World : Type ℓ} {Value : Type κ} (Good : World → Type ι)
    (action : Exec World Value) : Type (ℓ ⊔ ι) where
  pub kept : {w : World} → Good w → Good (action w).1

-- An action that hands its state on as it was.
module _ {ℓ κ ι} {World : Type ℓ} {Value : Type κ} {Good : World → Type ι} where
  pub Stable-lift : (result : Result Value) → Stable Good (lift result)
  unfolding lift
  Stable-lift result = record { kept = λ g. g }

  pub Stable-gets : (read : World → Value) → Stable Good (gets read)
  unfolding gets
  Stable-gets read = record { kept = λ g. g }

  pub Stable-throw : (message : String) → Stable Good (throw {A = Value} message)
  unfolding throw
  Stable-throw message = record { kept = λ g. g }

  pub Stable-pure : (value : Value) → Stable Good (pure value)
  unfolding pure
  Stable-pure value = record { kept = λ g. g }

-- What a handler catches is caught in the state that the action left.
module _ {ℓ κ ι} {World : Type ℓ} {Value : Type κ} {Good : World → Type ι}
    (handler : String → Exec World Value)
    (recovers : (message : String) → Stable Good (handler message)) where
  caught : (result : Result Value) {w : World} → Good w → Good (handle result handler w).1
  caught (err message) g = (recovers message).kept g
  caught (ok value) g = g

  pub Stable-catch :
      (action : Exec World Value) → Stable Good action → Stable Good (catch action handler)
  unfolding catch
  Stable-catch action start = record { kept = λ {w} g. caught (action w).0 (start.kept g) }

-- Two ways on from a test: each may use how the test came out.
pub Stable-if {ℓ κ ι} :
    {World : Type ℓ} {Value : Type κ} {Good : World → Type ι} (test : Bool)
    (good bad : Exec World Value)
    → (test ≡ false → Stable Good bad)
    → (test ≡ true → Stable Good good)
    → Stable Good (if test then good else bad)
Stable-if false good bad on_no on_yes = on_no refl
Stable-if true good bad on_no on_yes = on_yes refl

module _ {ℓ κ ι ν} {World : Type ℓ} {First : Type κ} {Second : Type ι} {Good : World → Type ν}
    (next : First → Exec World Second) where
  pub Stable-after :
      (result : Result First)
      → ((x : First) → result ≡ ok x → Stable Good (next x))
      → {w : World} → Good w
      → Good (continue result next w).1
  Stable-after (err message) each g = g
  Stable-after (ok x) each g = (each x refl).kept g

  pub Stable-bind :
      (action : Exec World First)
      → Stable Good action
      → ((x : First) → Stable Good (next x))
      → Stable Good (action >>= next)
  unfolding ◌>>=◌
  Stable-bind action start each = record {
    kept = λ {w} g. Stable-after (action w).0 (λ x _. each x) (start.kept g);
  }

  pub Stable-bind-lift :
      (result : Result First)
      → ((x : First) → result ≡ ok x → Stable Good (next x))
      → Stable Good (lift result >>= next)
  unfolding ◌>>=◌
  Stable-bind-lift result each = record { kept = Stable-after result each }

  -- what the bound call yields may be used of what it returned
  pub Stable-bind-yields :
      {Yielded : First → Type ι} (action : Exec World First)
      → Stable Good action
      → Yields Yielded action
      → ((x : First) → Yielded x → Stable Good (next x))
      → Stable Good (action >>= next)
  unfolding ◌>>=◌
  Stable-bind-yields action start yielded each = record {
    kept = λ {w} g. Stable-after (action w).0 (λ x e. each x (yielded.yields w x e)) (start.kept g);
  }

  -- what is read may be known from the state
  pub Stable-bind-gets :
      {Known : First → Type ν} (read : World → First)
      → ((w : World) → Good w → Known (read w))
      → ((x : First) → Known x → Stable Good (next x))
      → Stable Good (gets read >>= next)
  unfolding ◌>>=◌
  Stable-bind-gets read known each = record { kept = λ {w} g. (each (read w) (known w g)).kept g }

  pub Stable-by_option :
      (found : Option First) (other : Exec World Second)
      → ((x : First) → Stable Good (next x))
      → Stable Good other
      → Stable Good (by_option found other next)
  unfolding by_option
  Stable-by_option (some x) other each otherwise = each x
  Stable-by_option none other each otherwise = otherwise

  -- as it was found
  pub Stable-by_option-eq :
      (found : Option First) (other : Exec World Second)
      → ((x : First) → found ≡ some x → Stable Good (next x))
      → Stable Good other
      → Stable Good (by_option found other next)
  unfolding by_option
  Stable-by_option-eq (some x) other each otherwise = each x refl
  Stable-by_option-eq none other each otherwise = otherwise

pub Stable-by_sum {ℓ κ ι ν μ} :
    {World : Type ℓ} {Left : Type κ} {Right : Type ι} {Value : Type ν} {Good : World → Type μ}
    (either : Left ⊎ Right) (left : Left → Exec World Value) (right : Right → Exec World Value)
    → ((x : Left) → Stable Good (left x))
    → ((y : Right) → Stable Good (right y))
    → Stable Good (by_sum either left right)
unfolding by_sum
Stable-by_sum (inr y) left right on_left on_right = on_right y
Stable-by_sum (inl x) left right on_left on_right = on_left x

pub ruleset stable_rules = (
  Stable-bind, Stable-if, Stable-by_option, Stable-by_sum, Stable-catch, Stable-lift, Stable-gets,
  Stable-throw, Stable-pure,
)
