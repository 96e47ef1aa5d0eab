-- ===== src/Panels.antt =====
-- client/src/renderer: the panels, as machines that move when the user acts and when a call of the
-- main process returns. What React draws is given by functions on their state.
pub mod StatusBar
pub mod Send
pub mod Tokens
pub mod Wallet
pub mod Sending
pub mod Gateway
pub mod Calls
pub mod Log
pub mod Sessions
pub mod Examples
pub mod Requests
pub mod Approvals
use umbra_gateway.Prelude.{ℕ, String, Bool}

-- The runtime's floating-point numbers, as far as the panels use them.
pub record Numbers (Number : Type 0) : Type 0 where
  pub parse_float : String → Number
  pub is_nan : Number → Bool
  -- x <= 0 and x > 0, which are both false of NaN
  pub at_most_zero : Number → Bool
  pub is_positive : Number → Bool
  -- Math.max(0, x - 0.0005)
  pub less_gas_buffer : Number → Number
  pub to_fixed : ℕ → Number → String
