-- ===== src/Rpc/Wallet/Transfers.antt =====
-- client/src/main/rpc.ts: what a transfer signs.
use mathlib.Core.Path.{subst}
use umbra_gateway.Prelude.{
  String, Option, none, some, All, ◌≡◌, ok, Result-cases, Bool-cases, inl, inr,
}
use umbra_gateway.Prelude.Int.{ℤ, pos}
use umbra_gateway.Prelude.Text.{◌===◌, ===_iff}
use umbra_gateway.Exec.Stable.{
  Stable, stable_rules, Stable-bind, Stable-bind-lift, Stable-by_option, Stable-throw, Stable-gets,
}
use umbra_gateway.X402.Types.{Account}
use umbra_gateway.Rpc.{Env, State, Transaction, usdc_address}
use umbra_gateway.Rpc.Wallet.{transfer, sign_transaction, broadcast, send_token}
use umbra_gateway.Rpc.Calls.{CallStable, all-Stable, logs-Stable, rpc_call-Stable}
use umbra_gateway.Rpc.Routing.{calls}

module _ (env : Env) (symbol to amount : String) where
  -- The two transfers that may be signed, both on Base Sepolia: of ether to the recipient, and a
  -- call of the USDC contract that transfers to the recipient.
  pub data IsTransfer : Transaction → Type 0 where
    ether :
        (nonce : Option ℤ) (gas_price value : ℤ)
        → symbol ≡ "ETH"
        → env.parse_ether amount ≡ ok value
        → IsTransfer (record {
          kind = "legacy";
          to = some to;
          value = value;
          data_bytes = none;
          nonce = nonce;
          gas_price = gas_price;
          gas = pos 21000;
          chain_id = pos 84532;
        })
    usdc :
        (nonce : Option ℤ) (gas_price units : ℤ) (encoded : String)
        → symbol ≡ "USDC"
        → env.parse_units amount 6 ≡ ok units
        → env.encode_transfer to units ≡ ok encoded
        → IsTransfer (record {
          kind = "legacy";
          to = some usdc_address;
          value = pos 0;
          data_bytes = some encoded;
          nonce = nonce;
          gas_price = gas_price;
          gas = pos 65000;
          chain_id = pos 84532;
        })

  transfer-IsTransfer :
      (nonce : Option ℤ) (gas_price : ℤ) (t : Transaction)
      → transfer env symbol to amount nonce gas_price ≡ ok t
      → IsTransfer t
  unfolding transfer
  transfer-IsTransfer nonce gas_price t e = elim (Bool-cases (symbol === "ETH")) [
    | inl is_eth ↦ elim (Result-cases (env.parse_ether amount)) [
      | inl (value, parsed) ↦
          subst IsTransfer (cc (rw parsed at (rw is_eth at e)))
            (ether nonce gas_price value ((===_iff symbol "ETH").0 is_eth) parsed)
      | inr (m, bad) ↦ cc (rw bad at (rw is_eth at e))
    ]
    | inr not_eth ↦ elim (Bool-cases (symbol === "USDC")) [
      | inl is_usdc ↦ elim (Result-cases (env.parse_units amount 6)) [
        | inl (units, parsed) ↦ elim (Result-cases (env.encode_transfer to units)) [
          | inl (encoded, good) ↦
              subst IsTransfer (cc (rw good at (rw parsed at (rw is_usdc at (rw not_eth at e)))))
                (usdc nonce gas_price units encoded ((===_iff symbol "USDC").0 is_usdc) parsed good)
          | inr (m, bad) ↦ cc (rw bad at (rw parsed at (rw is_usdc at (rw not_eth at e))))
        ]
        | inr (m, bad) ↦ cc (rw bad at (rw is_usdc at (rw not_eth at e)))
      ]
      | inr not_usdc ↦ cc (rw not_usdc at (rw not_eth at e))
    ]
  ]

  -- A property that is kept by the steps of RPC calls, and by signing such a transfer, is kept by
  -- the whole.
  module _ {ℓ} {IsUrl : String → Type ℓ} {P : State → Type ℓ} (k : CallStable env IsUrl P) where
    broadcast-Stable : (signed_tx : String) → Stable P (broadcast env signed_tx)
    unfolding broadcast
    broadcast-Stable signed_tx =
        search (stable_rules, rpc_call-Stable env IsUrl k, logs-Stable env IsUrl k.steps) depth 9

    pub send_token-Stable :
        ((account : Account) (t : Transaction)
          → env.load_key ≡ ok account
          → IsTransfer t
          → Stable P (sign_transaction env account t))
        → Stable P (send_token env symbol to amount)
    unfolding send_token
    send_token-Stable signs = Stable-bind _ _ (Stable-gets _) λ url.
        Stable-by_option _ _ _
          (λ _. Stable-bind-lift _ _ λ account loaded.
            Stable-bind _ _
              (all-Stable _ _ (rpc_call-Stable env IsUrl k _ _) (rpc_call-Stable env IsUrl k _ _))
              λ raw. Stable-bind-lift _ _ λ count _. Stable-bind-lift _ _ λ price _.
                Stable-bind-lift _ _ λ gas_price _. Stable-bind-lift _ _ λ t is.
                  Stable-bind _ _ (signs account t loaded (transfer-IsTransfer _ _ t is)) λ signed.
                    Stable-bind _ _ (logs-Stable env IsUrl k.steps _ _)
                      λ _. broadcast-Stable signed)
          (Stable-throw _)

  -- Whatever the gateway and the light client answer, and whether the call succeeds or fails,
  -- `sendToken` adds to the transactions signed nothing but the transfer that it was called for: of
  -- ether to the recipient, or of USDC to the recipient by a call of its contract, of the given
  -- amount and on Base Sepolia.
  pub send_token-signs :
      (s : State)
      → All IsTransfer s.signed
      → All IsTransfer (send_token env symbol to amount s).1.signed
  unfolding sign_transaction
  send_token-signs s h =
      (send_token-Stable {P = λ t. All IsTransfer t.signed} (calls (λ w t h. h) (λ l t h. h) env)
          (λ account t loaded is. record { kept = λ h. (is, h) })).kept
        h
