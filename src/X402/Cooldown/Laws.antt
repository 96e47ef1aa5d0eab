-- ===== src/X402/Cooldown/Laws.antt =====
-- client/src/main/x402Client.ts: the count of seconds in the cooldown's message.
use umbra_gateway.Prelude.{ℕ, ◌≤◌, ◌<◌, ◌-◌, ◌+◌, ◌*◌, ◌≡◌, ◌↔◌, true, arith}
use umbra_gateway.X402.Cooldown.{is_recent, seconds_left, payment_cooldown_ms}

-- The cooldown blocks payments exactly while the message would count at least one second, and that
-- count is what is left of the eight seconds, rounded up to a whole second.
pub seconds_left_bounds :
    (time t : ℕ)
    → ((is_recent time t ≡ true) ↔ (1 ≤ seconds_left time t))
      × (t + payment_cooldown_ms - time ≤ 1000 * seconds_left time t)
      × (1000 * seconds_left time t < t + payment_cooldown_ms - time + 1000)
unfolding is_recent seconds_left
seconds_left_bounds time t = ((λ r. ground arith, λ h. ground arith), omega arith, omega arith)
