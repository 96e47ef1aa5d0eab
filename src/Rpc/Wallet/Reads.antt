-- ===== src/Rpc/Wallet/Reads.antt =====
-- client/src/main/rpc.ts: what the readers of balances keep.
use umbra_gateway.Prelude.{String}
use umbra_gateway.Exec.Stable.{Stable, stable_rules}
use umbra_gateway.Rpc.{Env, State}
use umbra_gateway.Rpc.Wallet.{get_x402_usdc_balance, get_balances}
use umbra_gateway.Rpc.Calls.{CallStable, all-Stable, rpc_call-Stable}

module _ {ℓ} (env : Env) {IsUrl : String → Type ℓ} {P : State → Type ℓ}
    (k : CallStable env IsUrl P) where
  pub get_x402_usdc_balance-Stable :
      (address : String) → Stable P (get_x402_usdc_balance env address)
  unfolding get_x402_usdc_balance
  get_x402_usdc_balance-Stable address = search (stable_rules, rpc_call-Stable env IsUrl k) depth 12

  pub get_balances-Stable : Stable P (get_balances env)
  unfolding get_balances
  get_balances-Stable = search (stable_rules, all-Stable, rpc_call-Stable env IsUrl k) depth 20
