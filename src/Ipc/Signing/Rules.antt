-- ===== src/Ipc/Signing/Rules.antt =====
-- client/src/main/index.ts: what the handlers that sign for other applications keep.
use umbra_gateway.Prelude.{String, Option, ◌≡◌, ok}
use umbra_gateway.Prelude.Json.{Json}
use umbra_gateway.Exec.Stable.{Stable, stable_rules, Stable-bind, Stable-bind-lift}
use umbra_gateway.X402.Types.{Account}
use umbra_gateway.Rpc.{Env, State, Transaction}
use umbra_gateway.Rpc.Wallet.{sign_transaction}
use umbra_gateway.Rpc.Calls.{CallStable, attempt-Stable, rpc_call-Stable}
use umbra_gateway.Ipc.Signing.{
  Signer, TxParams, sign_message, sign_typed_data, unless_provided, fetch_missing, sent,
  send_transaction,
}
use umbra_gateway.Ipc.Signing.Transactions.{IsRequested, signed-IsRequested}

module _ {ℓ} (env : Env) {P : State → Type ℓ} where
  pub sign_message-Stable : (signer : Signer) (m : String) → Stable P (sign_message env signer m)
  unfolding sign_message
  sign_message-Stable signer m = search stable_rules

  pub sign_typed_data-Stable :
      (signer : Signer) (raw : String) → Stable P (sign_typed_data env signer raw)
  unfolding sign_typed_data
  sign_typed_data-Stable signer raw = search stable_rules depth 12

  module _ {IsUrl : String → Type ℓ} (k : CallStable env IsUrl P) where
    unless-Stable :
        (provided : Option String) (method : String) (params : Json)
        → Stable P (unless_provided env provided method params)
    unfolding unless_provided
    unless-Stable provided method params =
        search (stable_rules, rpc_call-Stable env IsUrl k) depth 9

    fetch-Stable : (account : Account) (tx : TxParams) → Stable P (fetch_missing env account tx)
    unfolding fetch_missing
    fetch-Stable account tx = search (stable_rules, attempt-Stable, unless-Stable) depth 20

    sent-Stable : (answer : Json) → Stable P (sent env answer)
    unfolding sent
    sent-Stable answer = search stable_rules depth 12

    pub send_transaction-Stable :
        (tx : TxParams)
        → ((account : Account) (t : Transaction)
            → env.load_key ≡ ok account
            → IsRequested tx t
            → Stable P (sign_transaction env account t))
        → Stable P (send_transaction env tx)
    unfolding send_transaction
    send_transaction-Stable tx signs = Stable-bind-lift _ _ λ account loaded.
        Stable-bind _ _ (fetch-Stable account tx) λ fetched. Stable-bind-lift _ _ λ value is_value.
          Stable-bind-lift _ _ λ number is_nonce. Stable-bind-lift _ _ λ gas_price is_price.
            Stable-bind-lift _ _ λ gas is_gas.
              Stable-bind _ _
                (signs account _ loaded
                  (signed-IsRequested env tx fetched _ _ _ _ is_value is_nonce is_price is_gas))
                λ signed_tx. Stable-bind _ _ (rpc_call-Stable env IsUrl k _ _) sent-Stable
