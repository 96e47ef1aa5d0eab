-- ===== src/X402/Cooldown.antt =====
-- client/src/main/x402Client.ts: after a rejected payment no other is tried for eight seconds.
pub mod Laws
use umbra_gateway.Prelude.{ℕ, ◌+◌, ◌-◌, ◌/◌, String, Bool, false, ltb, get_or}
use umbra_gateway.Prelude.Map
use umbra_gateway.Exec.{Exec, pure, gets, modify, ◌>>=◌, by_option}
use umbra_gateway.X402.Types.{Env, World, now}

abbrev pub payment_cooldown_ms : ℕ
payment_cooldown_ms = 8000

-- Date.now() - t < PAYMENT_COOLDOWN_MS
unfoldable pub is_recent : ℕ → ℕ → Bool
is_recent time t = ltb time (t + payment_cooldown_ms)

-- Math.max(0, Math.ceil((PAYMENT_COOLDOWN_MS - (Date.now() - t)) / 1000))
unfoldable pub seconds_left : ℕ → ℕ → ℕ
seconds_left time t = (t + payment_cooldown_ms - time + 999) / 1000

-- lastPaymentFailure.set(gatewayUrl, time)
unfoldable pub set_failure : String → ℕ → Exec World (Unit {0})
set_failure gateway_url time =
    modify λ w. record w { last_payment_failure = Map.set w.last_payment_failure gateway_url time }

-- lastPaymentFailure.delete(gatewayUrl)
unfoldable pub clear_failure : String → Exec World (Unit {0})
clear_failure gateway_url =
    modify λ w. record w { last_payment_failure = Map.delete w.last_payment_failure gateway_url }

module _ (env : Env) where
  unfoldable pub is_in_cooldown : String → Exec World Bool
  is_in_cooldown gateway_url = do
    found ← gets (λ w. Map.get w.last_payment_failure gateway_url)
    by_option found (pure false) λ t. do time ← now env; pure (is_recent time t)

  unfoldable pub cooldown_remaining : String → Exec World ℕ
  cooldown_remaining gateway_url = do
    found ← gets (λ w. Map.get w.last_payment_failure gateway_url)
    time ← now env
    pure (seconds_left time (get_or found 0))
