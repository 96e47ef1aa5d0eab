-- ===== src/Exec/Adds.antt =====
-- How much an action may add to a measure of the state, one rule for each way to build an action.
use umbra_gateway.Prelude.{
  ℕ, ◌+◌, ◌≤◌, String, Bool, true, false, ◌⊎◌, inl, inr, Result, ok, err, Option, none, some,
  if◌then◌else◌, arith,
}
use umbra_gateway.Exec.{Exec, pure, throw, lift, gets, ◌>>=◌, by_option, by_sum, continue}

-- `m` adds at most `n` to the measure `f`, whether it returns or throws.
pub record Adds {ℓ κ} {S : Type ℓ} {A : Type κ} (f : S → ℕ) (n : ℕ) (m : Exec S A) : Type ℓ where
  pub at : (s : S) → f (m s).1 ≤ f s + n

module _ {ℓ κ} {S : Type ℓ} {A : Type κ} {f : S → ℕ} where
  pub Adds-pure : (n : ℕ) (a : A) → Adds f n (pure a)
  unfolding pure
  Adds-pure n a = record { at = λ s. omega arith }

  pub Adds-throw : (n : ℕ) (message : String) → Adds f n (throw {A = A} message)
  unfolding throw
  Adds-throw n message = record { at = λ s. omega arith }

  pub Adds-lift : (n : ℕ) (r : Result A) → Adds f n (lift r)
  unfolding lift
  Adds-lift n r = record { at = λ s. omega arith }

  pub Adds-gets : (n : ℕ) (g : S → A) → Adds f n (gets g)
  unfolding gets
  Adds-gets n g = record { at = λ s. omega arith }

  pub Adds-if :
      (n : ℕ) (b : Bool) (l r : Exec S A) → Adds f n l → Adds f n r → Adds f n (if b then l else r)
  Adds-if n true l r al ar = al
  Adds-if n false l r al ar = ar

module _ {ℓ κ ι} {S : Type ℓ} {A : Type κ} {B : Type ι} {f : S → ℕ} where
  continue-le :
      (r : Result A) (g : A → Exec S B) (s : S) (k : ℕ)
      → ((a : A) → Adds f k (g a))
      → f (continue r g s).1 ≤ f s + k
  continue-le (ok a) g s k ag = (ag a).at s
  continue-le (err message) g s k ag = omega arith

  pub Adds-bind :
      (n k : ℕ) (m : Exec S A) (g : A → Exec S B)
      → Adds f n m
      → ((a : A) → Adds f k (g a))
      → Adds f (n + k) (m >>= g)
  unfolding ◌>>=◌
  Adds-bind n k m g am ag = record {
    at = λ s. let (r, s') = m s in omega (arith, am.at s, continue-le r g s' k ag);
  }

  -- a step that adds nothing
  pub Adds-free :
      (k : ℕ) (m : Exec S A) (g : A → Exec S B)
      → Adds f 0 m
      → ((a : A) → Adds f k (g a))
      → Adds f k (m >>= g)
  unfolding ◌>>=◌
  Adds-free k m g am ag = record {
    at = λ s. let (r, s') = m s in omega (arith, am.at s, continue-le r g s' k ag);
  }

  pub Adds-by_option :
      (n : ℕ) (o : Option A) (m : Exec S B) (g : A → Exec S B)
      → Adds f n m
      → ((a : A) → Adds f n (g a))
      → Adds f n (by_option o m g)
  unfolding by_option
  Adds-by_option n none m g am ag = am
  Adds-by_option n (some a) m g am ag = ag a

pub Adds-by_sum {ℓ κ ι ν} :
    {S : Type ℓ} {A : Type κ} {B : Type ι} {C : Type ν} {f : S → ℕ} (n : ℕ) (x : A ⊎ B)
    (g : A → Exec S C) (h : B → Exec S C)
    → ((a : A) → Adds f n (g a))
    → ((b : B) → Adds f n (h b))
    → Adds f n (by_sum x g h)
unfolding by_sum
Adds-by_sum n (inl a) g h ag ah = ag a
Adds-by_sum n (inr b) g h ag ah = ah b

pub ruleset free_rules =
    (Adds-pure, Adds-throw, Adds-lift, Adds-gets, Adds-if, Adds-free, Adds-by_option, Adds-by_sum)
