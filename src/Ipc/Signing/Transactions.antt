-- ===== src/Ipc/Signing/Transactions.antt =====
-- client/src/main/index.ts: what the handler `wc:sendTransaction` signs.
use umbra_gateway.Prelude.{
  String, List, ◌∷◌, Option, none, some, ◌≡◌, refl, ap, ◌⊎◌, inl, inr, Result, ok, err, get_or,
}
use umbra_gateway.Prelude.Int.{ℤ, pos}
use umbra_gateway.Prelude.Json.{Json, str}
use umbra_gateway.Prelude.Text.{truthy, parse_int16}
use umbra_gateway.Exec.{Exec, lift, continue, ◌>>=◌}
use umbra_gateway.Exec.Stable.{Stable, stable_rules, Stable-bind, Stable-after}
use umbra_gateway.X402.Types.{Account}
use umbra_gateway.Rpc.{Env, State, Transaction, big_int_of, rpc_call}
use umbra_gateway.Rpc.Calls.{attempt-Stable}
use umbra_gateway.Rpc.Routing.{rpc_call-Stable}
use umbra_gateway.Rpc.Wallet.{sign_transaction}
use umbra_gateway.Ipc.Signing.{
  TxParams, param, unless_provided, pick, pick_nonce, fetch_missing, sent, send_transaction,
}

-- A number that the request gives is the one that is used.
abbrev pub Used : Option String → ℤ → Type 0
Used given n = (s : String) → given ≡ some s → big_int_of (str s) ≡ ok n

-- The transaction that a request asks for, on Base Sepolia: recipient, value and data are those of
-- the request, and so are the nonce, the gas price and the gas that it gives.
pub record IsRequested (tx : TxParams) (t : Transaction) : Type 0 where
  pub kind : t.kind ≡ "legacy"
  pub chain_id : t.chain_id ≡ pos 84532
  pub to : t.to ≡ param "to" tx
  pub value : big_int_of (str (get_or (param "value" tx) "0x0")) ≡ ok t.value
  pub data_bytes : t.data_bytes ≡ some (get_or (param "data" tx) "0x")
  pub nonce : (s : String) → truthy (param "nonce" tx) ≡ some s → t.nonce ≡ parse_int16 s
  pub gas_price : Used (param "gasPrice" tx) t.gas_price
  pub gas : Used (param "gas" tx) t.gas

-- Nothing was signed, or the one transaction that was asked for.
abbrev pub SignsOnce : TxParams → List Transaction → List Transaction → Type 0
SignsOnce tx before after =
    (after ≡ before) ⊎ ((t : Transaction) × IsRequested tx t × (after ≡ t ∷ before))

pick-Used :
    (env : Env) (given : Option String) (fetched : Option Json) (n : ℤ)
    → pick env given fetched ≡ ok n
    → Used given n
unfolding pick
pick-Used env (some given) fetched n picked s e = cc (picked, e)
pick-Used env none fetched n picked s e = cc e

nonce-Used :
    (env : Env) (given : Option String) (fetched : Option Json) (nonce : Option ℤ)
    → pick_nonce env given fetched ≡ ok nonce
    → (s : String) → given ≡ some s
    → nonce ≡ parse_int16 s
unfolding pick_nonce
nonce-Used env (some given) fetched number picked s e = cc (picked, e)
nonce-Used env none fetched number picked s e = cc e

-- What is signed once its parts have been read.
pub signed-IsRequested :
    (env : Env) (tx : TxParams) (fetched : Option Json × (Option Json × Option Json)) (value : ℤ)
    (number : Option ℤ) (gas_price gas : ℤ)
    → big_int_of (str (get_or (param "value" tx) "0x0")) ≡ ok value
    → pick_nonce env (truthy (param "nonce" tx)) fetched.0 ≡ ok number
    → pick env (param "gasPrice" tx) fetched.1.0 ≡ ok gas_price
    → pick env (param "gas" tx) fetched.1.1 ≡ ok gas
    → IsRequested tx (record {
      kind = "legacy";
      to = param "to" tx;
      value = value;
      data_bytes = some (get_or (param "data" tx) "0x");
      nonce = number;
      gas_price = gas_price;
      gas = gas;
      chain_id = pos 84532;
    })
signed-IsRequested env tx fetched value number gas_price gas is_value is_nonce is_price is_gas =
    record {
      kind = refl;
      chain_id = refl;
      to = refl;
      value = is_value;
      data_bytes = refl;
      nonce = nonce-Used env _ _ number is_nonce;
      gas_price = pick-Used env _ _ gas_price is_price;
      gas = pick-Used env _ _ gas is_gas;
    }

module _ (env : Env) (tx : TxParams) (before : List Transaction) where
  abbrev Unsigned : State → Type 0
  Unsigned s = s.signed ≡ before

  -- an action that signs at most once, where nothing was signed before
  record Leads {ℓ} {A : Type ℓ} (m : Exec State A) : Type 0 where
    leads : (s : State) → Unsigned s → SignsOnce tx before (m s).1.signed

  module _ {ℓ κ} {A : Type ℓ} {B : Type κ} (next : A → Exec State B) where
    Leads-after :
        (result : Result A)
        → ((a : A) → result ≡ ok a → Leads (next a))
        → (s : State) → Unsigned s
        → SignsOnce tx before (continue result next s).1.signed
    Leads-after (err message) each s e = inl e
    Leads-after (ok a) each s e = (each a refl).leads s e

    Leads-bind :
        (m : Exec State A) → Stable Unsigned m → ((a : A) → Leads (next a)) → Leads (m >>= next)
    unfolding ◌>>=◌
    Leads-bind m stable each = record {
      leads = λ s e. Leads-after (m s).0 (λ a _. each a) (m s).1 (stable.kept e);
    }

    Leads-lift :
        (result : Result A)
        → ((a : A) → result ≡ ok a → Leads (next a))
        → Leads (lift result >>= next)
    unfolding ◌>>=◌
    Leads-lift result each = record { leads = Leads-after result each }

  Leads-sign :
      {A : Type 0} (account : Account) (t : Transaction) (next : String → Exec State A)
      → IsRequested tx t
      → ((signed_tx : String) → Stable (λ s. s.signed ≡ t ∷ before) (next signed_tx))
      → Leads (sign_transaction env account t >>= next)
  unfolding sign_transaction ◌>>=◌
  Leads-sign account t next requested each = record {
    leads = λ s e. inr (
      t,
      requested,
      Stable-after next (env.sign_transaction account t) (λ signed_tx _. each signed_tx)
          (ap (◌∷◌ t) e),
    );
  }

  rpc :
      (l : List Transaction) (method : String) (params : Json)
      → Stable (λ s. s.signed ≡ l) (rpc_call env method params)
  rpc l method params = rpc_call-Stable (λ w s e. e) (λ a s e. e) env method params

  unless-Stable :
      (provided : Option String) (method : String) (params : Json)
      → Stable Unsigned (unless_provided env provided method params)
  unfolding unless_provided
  unless-Stable provided method params = search (stable_rules, rpc before) depth 9

  fetch-Stable : (account : Account) → Stable Unsigned (fetch_missing env account tx)
  unfolding fetch_missing
  fetch-Stable account = search (stable_rules, attempt-Stable, unless-Stable) depth 20

  sent-Stable :
      (l : List Transaction) (answer : Json) → Stable (λ s. s.signed ≡ l) (sent env answer)
  unfolding sent
  sent-Stable l answer = search stable_rules depth 12

  send-Leads : Leads (send_transaction env tx)
  unfolding send_transaction
  send-Leads = Leads-lift _ _ λ account _. Leads-bind _ _ (fetch-Stable account) λ fetched.
      Leads-lift _ _ λ value is_value. Leads-lift _ _ λ number is_nonce.
        Leads-lift _ _ λ gas_price is_price. Leads-lift _ _ λ gas is_gas.
          Leads-sign account _ _
            (signed-IsRequested env tx fetched _ _ _ _ is_value is_nonce is_price is_gas)
            λ signed_tx. Stable-bind _ _ (rpc _ _ _) (sent-Stable _)

-- Whatever the gateway and the light client answer, a call of `wc:sendTransaction` signs nothing or
-- one transaction. That is on Base Sepolia, its recipient, value and data are those of the request,
-- and so are the nonce, the gas price and the gas as far as the request gives them.
pub send_transaction-SignsOnce :
    (env : Env) (tx : TxParams) (s : State)
    → SignsOnce tx s.signed (send_transaction env tx s).1.signed
send_transaction-SignsOnce env tx s = (send-Leads env tx s.signed).leads s refl
