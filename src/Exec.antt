-- ===== src/Exec.antt =====
-- Code that changes state, awaits and may throw: an action takes the state and returns its value,
-- or the message of the error, with the state that it leaves. What was changed before a throw
-- stays changed.
pub mod Stable
pub mod Adds
pub mod Yields
use umbra_gateway.Prelude.{String, Option, none, some, ◌⊎◌, inl, inr, Result, ok, err}

abbrev pub Exec {ℓ κ} : Type ℓ → Type κ → Type (ℓ ⊔ κ)
Exec S A = S → Result A × S

module _ {ℓ κ} {S : Type ℓ} {A : Type κ} where
  unfoldable pub pure : A → Exec S A
  pure a s = (ok a, s)

  -- throw new Error(message)
  unfoldable pub throw : String → Exec S A
  throw message s = (err message, s)

  -- a call that changes nothing and may throw
  unfoldable pub lift : Result A → Exec S A
  lift r s = (r, s)

  unfoldable pub gets : (S → A) → Exec S A
  gets f s = (ok (f s), s)

unfoldable pub modify {ℓ} : {S : Type ℓ} → (S → S) → Exec S (Unit {0})
modify f s = (ok tt, f s)

module _ {ℓ κ ι} {S : Type ℓ} {A : Type κ} {B : Type ι} where
  abbrev pub continue : Result A → (A → Exec S B) → Exec S B
  continue (ok a) f s = f a s
  continue (err message) f s = (err message, s)

  infixl 10 ◌>>=◌
  -- to open this is to open the actions above too
  unfoldable pub ◌>>=◌ : Exec S A → (A → Exec S B) → Exec S B
  unfolding pure throw lift gets modify
  ◌>>=◌ m f s = let (r, s') = m s in continue r f s'

  -- a branch on whether a value is null
  unfoldable pub by_option : Option A → Exec S B → (A → Exec S B) → Exec S B
  by_option none m f = m
  by_option (some a) m f = f a

infixl 10 ◌>>◌
abbrev pub ◌>>◌ {ℓ κ} : {S : Type ℓ} {B : Type κ} → Exec S (Unit {0}) → Exec S B → Exec S B
m >> n = m >>= λ _. n

unfoldable pub by_sum {ℓ κ ι ν} :
    {S : Type ℓ} {A : Type κ} {B : Type ι} {C : Type ν}
    → A ⊎ B
    → (A → Exec S C)
    → (B → Exec S C)
    → Exec S C
by_sum (inl a) f g = f a
by_sum (inr b) f g = g b

module _ {ℓ κ} {S : Type ℓ} {A : Type κ} where
  abbrev pub handle : Result A → (String → Exec S A) → Exec S A
  handle (ok a) f s = (ok a, s)
  handle (err message) f s = f message s

  -- try { m } catch (err) { f(err.message) }
  unfoldable pub catch : Exec S A → (String → Exec S A) → Exec S A
  catch m f s = let (r, s') = m s in handle r f s'
