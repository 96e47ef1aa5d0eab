-- ===== src/Prelude/Map.antt =====
-- A JavaScript `Map` (or `Set`) with string keys, as the function from a key to its entry. The
-- program never iterates over one, so the order of entries is not kept. The representation is
-- private: clients have `map_laws`.
use Prim.Native.String.{String}
use mathlib.Core.Path.{◌≡◌, refl}
use mathlib.Core.Option.{Option, none, some}
use text.Mathlib.Text.{◌==◌}
use umbra_gateway.Prelude.Tests.{if◌then◌else◌}

pub record Map {ℓ} (V : Type ℓ) : Type ℓ where
  entry : String → Option V

module _ {ℓ} {V : Type ℓ} where
  unfoldable pub empty : Map V
  empty = record { entry = λ key. none }

  -- m.get(key)
  unfoldable pub get : Map V → String → Option V
  get m key = m.entry key

  -- m.set(key, value)
  unfoldable pub set : Map V → String → V → Map V
  set m key value = record { entry = λ other. if key == other then some value else m.entry other }

  -- m.delete(key)
  unfoldable pub delete : Map V → String → Map V
  delete m key = record { entry = λ other. if key == other then none else m.entry other }

  pub get-set :
      (m : Map V) (k j : String) (v : V) → get (set m k v) j ≡ (if k == j then some v else get m j)
  unfolding get set
  get-set m k j v = refl

  pub get-delete :
      (m : Map V) (k j : String) → get (delete m k) j ≡ (if k == j then none else get m j)
  unfolding get delete
  get-delete m k j = refl

pub get-empty {ℓ} : {V : Type ℓ} (k : String) → get (empty {V = V}) k ≡ none
unfolding get empty
get-empty k = refl

pub ruleset map_laws = (get-set, get-delete, get-empty)
