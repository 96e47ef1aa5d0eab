-- ===== src/WalletConnect.antt =====
-- client/src/renderer/walletconnect.ts: the sessions with other applications and the requests that
-- the user approves or rejects. WalletKit, the helper that builds namespaces, and the calls of the
-- main process are arguments; an `await` of one of them is an atomic step.
pub mod Requests
pub mod Sessions
pub mod Examples
use umbra_gateway.Prelude.{
  ℕ, zero, suc, String, List, [], ◌∷◌, Option, none, some, Bool, true, false, Result, ok, err,
  if◌then◌else◌, ◌||◌,
}
use umbra_gateway.Prelude.Json.{Json, null, str, property, display}
use umbra_gateway.Prelude.Text.{append, ◌===◌, truthy}
use umbra_gateway.Exec.{Exec, pure, throw, lift, gets, modify, ◌>>=◌, ◌>>◌, by_option, catch}

abbrev pub caip_chain : String
caip_chain = "eip155:84532"

abbrev pub base_sepolia_hex_chain_id : String
base_sepolia_hex_chain_id = "0x14a34"

abbrev pub supported_methods : List String
supported_methods =
    "eth_sendTransaction" ∷ "eth_sign" ∷ "personal_sign" ∷ "eth_signTypedData"
    ∷ "eth_signTypedData_v4" ∷ "wallet_switchEthereumChain" ∷ "wallet_addEthereumChain" ∷ []

-- The calls of `window.wc`. An argument is `none` where the source passes `undefined`.
pub data IpcCall : Type 0 where
  sign_message sign_typed_data send_transaction : Option Json → IpcCall

pub data Answer : Type 0 where
  result : Json → Answer
  error : ℕ → String → Answer

pub record Namespace : Type 0 where
  pub chains : List String
  pub methods : List String
  pub events : List String
  pub accounts : List String

pub record SessionProposal (Params : Type 0) : Type 0 where
  pub id : ℕ
  pub params : Params

pub record SessionRequest : Type 0 where
  pub topic : String
  pub id : ℕ
  pub method : String
  pub params : List Json

-- What the module asks of WalletKit and of the main process, and its calls of `onSessionsChange`.
pub data Effect (Namespaces : Type 0) : Type 0 where
  ipc : IpcCall → Effect Namespaces
  responds : String → ℕ → Answer → Effect Namespaces
  approves : ℕ → Namespaces → Effect Namespaces
  rejects : ℕ → Effect Namespaces
  disconnects : String → Effect Namespaces
  initialises pairs : String → Effect Namespaces
  sessions_changed : Effect Namespaces

-- `kit` is whether a call of WalletKit succeeds, `main_process` what a call of `window.wc` returns;
-- both may depend on all that was done before.
pub record Env (Params Namespaces : Type 0) : Type 0 where
  pub project_id : Option String
  pub kit : List (Effect Namespaces) → Effect Namespaces → Result (Unit {0})
  pub main_process : List (Effect Namespaces) → IpcCall → Result Json
  pub build_approved_namespaces : Params → Namespace → Result Namespaces

pub record State (Namespaces : Type 0) : Type 0 where
  pub wallet_kit : Option (Unit {0})
  pub wallet_address : String
  pub trace : List (Effect Namespaces)

-- what the wallet supports, for its address
unfoldable pub supported_namespace : String → Namespace
supported_namespace address = record {
  chains = caip_chain ∷ [];
  methods = supported_methods;
  events = "accountsChanged" ∷ "chainChanged" ∷ [];
  accounts = append caip_chain (append ":" address) ∷ [];
}

-- params[n]
unfoldable pub nth : List Json → ℕ → Option Json
nth [] n = none
nth (p ∷ ps) zero = some p
nth (p ∷ ps) (suc n) = nth ps n

-- the chain of `wallet_switchEthereumChain`: `undefined` is printed so
chain_check : Option Json → Result Json
chain_check (some (str chain_id)) =
    if chain_id === base_sepolia_hex_chain_id
    then ok null
    else err (append "Chain " (append chain_id " not supported — Umbra is Base Sepolia only"))
chain_check (some other) =
    err (append "Chain " (append (display other) " not supported — Umbra is Base Sepolia only"))
chain_check none = err "Chain undefined not supported — Umbra is Base Sepolia only"

unfoldable pub switch_chain : Option Json → Result Json
unfolding chain_check property
switch_chain none = err "Cannot read properties of undefined (reading 'chainId')"
switch_chain (some params) = elim (property "chainId" params) [
  | err message ↦ err message
  | ok chain_id ↦ chain_check chain_id
]

module _ {Params Namespaces : Type 0} (env : Env Params Namespaces) where
  -- await walletKit.…(…)
  pub call_kit : Effect Namespaces → Exec (State Namespaces) (Unit {0})
  call_kit e s = (env.kit s.trace e, record s { trace = e ∷ s.trace })

  -- await window.wc.…(…)
  pub call_main : IpcCall → Exec (State Namespaces) Json
  call_main c s = (env.main_process s.trace c, record s { trace = ipc c ∷ s.trace })

  -- onSessionsChange?.()
  pub notify : Exec (State Namespaces) (Unit {0})
  notify = modify λ s. record s { trace = sessions_changed ∷ s.trace }

  pub init_wallet_kit : String → Exec (State Namespaces) (Unit {0})
  init_wallet_kit address = do
    kit ← gets (λ s. s.wallet_kit)
    by_option kit
        (do
          modify λ s. record s { wallet_address = address }
          by_option (truthy env.project_id) (pure tt) λ id.
              if id === "your_project_id_here" then pure tt else (do
                call_kit (initialises id)
                modify λ s. record s { wallet_kit = some tt }
                notify))
        (λ _. pure tt)

  pub pair_wc : String → Exec (State Namespaces) (Unit {0})
  pair_wc uri = do
    kit ← gets (λ s. s.wallet_kit)
    by_option kit (throw "WalletKit not initialized — set VITE_WALLETCONNECT_PROJECT_ID")
        (λ _. call_kit (pairs uri))

  pub disconnect_session : String → Exec (State Namespaces) (Unit {0})
  disconnect_session topic = do
    kit ← gets (λ s. s.wallet_kit)
    by_option kit (pure tt) (λ _. call_kit (disconnects topic) >> notify)

  -- `approveProposal`, where WalletKit is set, once the namespaces are built or not
  pub settle_proposal : ℕ → Result Namespaces → Exec (State Namespaces) (Unit {0})
  settle_proposal id built = do
    catch (lift built >>= λ namespaces. call_kit (approves id namespaces))
        (λ message. call_kit (rejects id) >> throw message)
    notify

  pub approve_proposal : SessionProposal Params → Exec (State Namespaces) (Unit {0})
  approve_proposal proposal = do
    kit ← gets (λ s. s.wallet_kit)
    by_option kit (pure tt) λ _. do
      address ← gets (λ s. s.wallet_address)
      settle_proposal proposal.id
          (env.build_approved_namespaces proposal.params (supported_namespace address))

  pub reject_proposal : SessionProposal Params → Exec (State Namespaces) (Unit {0})
  reject_proposal proposal = do
    kit ← gets (λ s. s.wallet_kit)
    by_option kit (pure tt) (λ _. call_kit (rejects proposal.id))

  unfoldable pub handle_method : String → List Json → Exec (State Namespaces) Json
  handle_method method params =
      if method === "personal_sign"
      then call_main (sign_message (nth params 0))
      else if method === "eth_sign"
      then call_main (sign_message (nth params 1))
      else if method === "eth_signTypedData" || method === "eth_signTypedData_v4"
      then call_main (sign_typed_data (nth params 1))
      else if method === "eth_sendTransaction"
      then call_main (send_transaction (nth params 0))
      else if method === "wallet_switchEthereumChain"
      then lift (switch_chain (nth params 0))
      else if method === "wallet_addEthereumChain"
      then pure null
      else throw (append "Unsupported method: " method)

  -- `approveRequest`, where WalletKit is set
  pub answer_request : SessionRequest → Exec (State Namespaces) (Unit {0})
  answer_request event =
      catch
        (do
          value ← handle_method event.method event.params
          call_kit (responds event.topic event.id (result value)))
        (λ message. do call_kit (responds event.topic event.id (error 5000 message)); throw message)

  pub approve_request : SessionRequest → Exec (State Namespaces) (Unit {0})
  approve_request event = do
    kit ← gets (λ s. s.wallet_kit)
    by_option kit (pure tt) (λ _. answer_request event)

  pub reject_request : SessionRequest → Exec (State Namespaces) (Unit {0})
  reject_request event = do
    kit ← gets (λ s. s.wallet_kit)
    by_option kit (pure tt)
        λ _. call_kit (responds event.topic event.id (error 4001 "User rejected the request"))
