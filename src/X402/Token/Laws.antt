-- ===== src/X402/Token/Laws.antt =====
-- client/src/main/x402Client.ts: how long a cached token is used.
use umbra_gateway.Prelude.{
  ℕ, ◌+◌, suc, String, none, some, ok, ◌≡◌, ◌∙◌, ◌*◌, arith, Option-cases, Bool-cases, inl, inr,
  false, if◌then◌else◌, ltb,
}
use umbra_gateway.Prelude.Int.{pos}
use umbra_gateway.Prelude.Map
use umbra_gateway.Prelude.Map.{map_laws}
use umbra_gateway.Prelude.Json.{Json, num, property}
use umbra_gateway.Prelude.Text.{split, ===_refl}
use umbra_gateway.Exec.{◌>>=◌, by_option}
use umbra_gateway.X402.Types.{Env, World, TokenEntry, now}
use umbra_gateway.X402.Token.{
  get_cached_token, set_cached_token, clear_cached_token, expires_soon, expiry, middle, exp_of,
}

module _ (env : Env) (gateway_url : String) where
  -- A cached token is handed out only from an entry of its gateway whose expiry lies more than
  -- thirty seconds ahead of the clock, and the state then only counts the reading of the clock.
  pub get_cached_token_fresh :
      (w w' : World) (token : String)
      → get_cached_token env gateway_url w ≡ (ok (some token), w')
      → (entry : TokenEntry) × (Map.get w.token_cache gateway_url ≡ some entry)
        × (entry.token ≡ token)
        × (expires_soon (env.clock w.readings) entry.expires_at ≡ false)
        × (w' ≡ record w { readings = suc w.readings })
  unfolding get_cached_token clear_cached_token now ◌>>=◌ by_option
  get_cached_token_fresh w w' token e = elim (Option-cases (Map.get w.token_cache gateway_url)) [
    | inl missing ↦ cc (rw (missing, by_option) at e)
    | inr (entry, found) ↦
        let e' = rw (found, by_option) at e in
        elim (Bool-cases (expires_soon (env.clock w.readings) entry.expires_at)) [
          | inl late ↦ cc (rw late at e')
          | inr fresh ↦ let e'' = rw fresh at e' in (entry, found, cc e'', fresh, cc e'')
        ]
  ]

  get-set_cached_token :
      (w : World) (token : String)
      → (get_cached_token env gateway_url (set_cached_token env gateway_url token w).1).0
        ≡ ok (
            if expires_soon (env.clock (suc w.readings)) (expiry env (env.clock w.readings) token)
            then none
            else some token)
  unfolding get_cached_token set_cached_token clear_cached_token now ◌>>=◌ by_option
  get-set_cached_token w token =
      rw (Map.get-set, ===_refl, by_option)
        (elim (Bool-cases
          (expires_soon (env.clock (suc w.readings)) (expiry env (env.clock w.readings) token))) [
            | inl late ↦ rw late
            | inr fresh ↦ rw fresh
          ])

  -- A stored token that is no JWT, one without exactly three parts between dots, is found in the
  -- cache exactly while less than an hour less thirty seconds has passed on the clock.
  pub plain_token_lifetime :
      (w : World) (token : String)
      → middle (split b'.' token) ≡ none
      → (get_cached_token env gateway_url (set_cached_token env gateway_url token w).1).0
        ≡ ok (
            if ltb (env.clock (suc w.readings)) (env.clock w.readings + 3570000)
            then some token
            else none)
  unfolding expires_soon expiry
  plain_token_lifetime w token h = get-set_cached_token w token ∙ rw (h, expiry) (ground arith)

  -- A stored JWT whose payload has the number `exp` is found in the cache exactly while the clock,
  -- in seconds, reads less than `exp` less thirty.
  pub jwt_lifetime :
      (w : World) (token part : String) (payload : Json) (n : ℕ)
      → middle (split b'.' token) ≡ some part
      → env.parse_jwt_payload part ≡ ok payload
      → property "exp" payload ≡ ok (some (num (pos n)))
      → (get_cached_token env gateway_url (set_cached_token env gateway_url token w).1).0
        ≡ ok (if ltb (env.clock (suc w.readings) + 30000) (1000 * n) then some token else none)
  unfolding expires_soon expiry
  jwt_lifetime w token part payload n h p x =
      get-set_cached_token w token ∙ rw (h, expiry) (rw p (rw (x, exp_of) (ground arith)))
