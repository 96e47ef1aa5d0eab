-- ===== src/X402/Token.antt =====
-- client/src/main/x402Client.ts: the token cache, one entry for each gateway URL.
pub mod Laws
use umbra_gateway.Prelude.{
  ℕ, ◌+◌, ◌*◌, suc, String, List, [], ◌∷◌, Option, none, some, Result, ok, err, Bool, true, leb,
  if◌then◌else◌,
}
use umbra_gateway.Prelude.Int.{ℤ, pos, negsuc, neg}
use umbra_gateway.Prelude.Map
use umbra_gateway.Prelude.Json.{Json, num, property}
use umbra_gateway.Prelude.Text.{split}
use umbra_gateway.Exec.{Exec, pure, gets, modify, ◌>>=◌, ◌>>◌, by_option}
use umbra_gateway.X402.Types.{Env, World, TokenEntry, now}

-- Date.now() / 1000 >= expiresAt - 30, both sides in milliseconds
unfoldable pub expires_soon : ℕ → ℤ → Bool
expires_soon time (pos e) = leb e (time + 30000)
expires_soon time (negsuc e) = true

thousandfold : ℤ → ℤ
thousandfold (pos n) = pos (1000 * n)
thousandfold (negsuc n) = neg (1000 * suc n)

-- `payload.exp`, where it is a number
exp_of : Result Json → Option ℤ
unfolding property
exp_of (err message) = none
exp_of (ok payload) = elim (property "exp" payload) [ ok (some (num n)) ↦ some n | _ ↦ none ]

-- the middle one of exactly three parts
unfoldable pub middle : List String → Option String
middle (a ∷ b ∷ c ∷ []) = some b
middle _ = none

unfoldable pub clear_cached_token : String → Exec World (Unit {0})
clear_cached_token gateway_url =
    modify (λ w. record w { token_cache = Map.delete w.token_cache gateway_url })

module _ (env : Env) where
  unfoldable pub get_cached_token : String → Exec World (Option String)
  get_cached_token gateway_url = do
    found ← gets (λ w. Map.get w.token_cache gateway_url)
    by_option found (pure none) λ entry. do
      time ← now env
      if expires_soon time entry.expires_at
          then clear_cached_token gateway_url >> pure none
          else pure (some entry.token)

  -- The expiry of a token: its `exp` claim, or an hour from now.
  unfoldable pub expiry : ℕ → String → ℤ
  unfolding exp_of middle thousandfold split
  expiry time token = elim (middle (split b'.' token)) [
    | none ↦ pos (time + 3600000)
    | some part ↦ elim (exp_of (env.parse_jwt_payload part)) [
      | none ↦ pos (time + 3600000)
      | some n ↦ thousandfold n
    ]
  ]

  unfoldable pub set_cached_token : String → String → Exec World (Unit {0})
  set_cached_token gateway_url token = do
    time ← now env
    let entry : TokenEntry = record { token = token; expires_at = expiry time token }
    modify (λ w. record w { token_cache = Map.set w.token_cache gateway_url entry })
