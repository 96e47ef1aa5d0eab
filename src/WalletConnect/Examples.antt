-- ===== src/WalletConnect/Examples.antt =====
-- client/src/renderer/walletconnect.ts: the theorems at a wallet that is connected.
use umbra_gateway.Prelude.{◌+◌, String, [], ◌∷◌, some, ◌≡◌, refl, ok, err, if◌then◌else◌}
use umbra_gateway.Prelude.Json.{str}
use umbra_gateway.WalletConnect.{
  Env, State, responds, error, Namespace, SessionProposal, SessionRequest, handle_method,
  approve_request, reject_request,
}
use umbra_gateway.WalletConnect.Requests.{
  answer_of, outcome_of, is_signing, ipc_calls, approve_request_answers, approve_request_calls,
  reject_request_lem,
}

abbrev env : Env String Namespace
env = record {
  project_id = some "project";
  kit = λ es e. ok tt;
  main_process = λ es c. ok (str "0xSIG");
  build_approved_namespaces = λ params n. ok n;
}

abbrev offline : Env String Namespace
offline = record env { kit = λ es e. err "relay closed" }

abbrev connected : State Namespace
connected = record { wallet_kit = some tt; wallet_address = "0xME"; trace = [] }

abbrev request : SessionRequest
request = record {
  topic = "topic";
  id = 7;
  method = "personal_sign";
  params = str "0x6869" ∷ str "0xME" ∷ [];
}

abbrev proposal : SessionProposal String
proposal = record { id = 3; params = "" }

approve_request_answers_example :
    let (r, s) = handle_method env "personal_sign" request.params connected in
    approve_request env request connected
    ≡ (outcome_of r, record s { trace = responds "topic" 7 (answer_of r) ∷ s.trace })
approve_request_answers_example = approve_request_answers env connected request refl (λ es e. refl)

approve_request_calls_example :
    ipc_calls (approve_request env request connected).1.trace
    ≡ 0 + (if is_signing "personal_sign" then 1 else 0)
approve_request_calls_example = approve_request_calls env connected request refl

reject_request_example :
    let s = (reject_request env request connected).1 in
    (ipc_calls s.trace ≡ 0)
    × (s.trace ≡ responds "topic" 7 (error 4001 "User rejected the request") ∷ [])
reject_request_example = reject_request_lem env connected request refl
