-- ===== src/X402.antt =====
-- client/src/main/x402Client.ts: the payment layer between the wallet and a gateway.
pub mod Types
pub mod Token
pub mod Cooldown
pub mod Protocol
pub mod Request
pub mod Queue
