-- ===== src/Panels/Examples.antt =====
-- client/src/renderer: the theorems on the panels at concrete states.
use umbra_gateway.Prelude.{
  ℕ, String, Bool, All, inl, List, [], ◌∷◌, Option, some, none, true, false, ◌≡◌, refl, ok, err,
  Result,
}
use umbra_gateway.Prelude.Json.{Json, str}
use umbra_gateway.Prelude.Text.{ends_with}
use umbra_gateway.GatewayFetch.{Url}
use umbra_gateway.Helios.{synced}
use umbra_gateway.Tor
use umbra_gateway.Tor.{get_arti_socks_port}
use umbra_gateway.Ipc.Status.{
  TorReport, tor_status, using_onion, with_slash, get_tor_status, get_tor_bootstrap_percent,
}
use umbra_gateway.WalletConnect.{Namespace}
use umbra_gateway.WalletConnect
use umbra_gateway.Panels.{Numbers}
use umbra_gateway.Panels.StatusBar
use umbra_gateway.Panels.StatusBar.{tor_indicator, poll_status}
use umbra_gateway.Panels.StatusBar.Truth.{Truthful, poll-Truthful}
use umbra_gateway.Panels.Approvals.{approves_request, rejects_request, rejects_proposal}
use umbra_gateway.Panels.Approvals.Answers.{
  proposal_and, request_and, exchange, idle, answered_in_turn,
}
use umbra_gateway.Panels.Send
use umbra_gateway.Panels.Sending
use umbra_gateway.Panels.Sending.Transfers.{IsTransfer, Sound, transfers-Valid}
use umbra_gateway.Panels.Calls
use umbra_gateway.Panels.Calls.Asked.{Orderly, rests, run-Orderly}
use umbra_gateway.Panels.Wallet
use umbra_gateway.Panels.Wallet.Steps
use umbra_gateway.Panels.Wallet.{GeneratedAccount}
use umbra_gateway.Panels.Wallet.Phases.{choosing, InPhase}
use umbra_gateway.Panels.Wallet.Phrase.{run-InPhase}
use umbra_gateway.Panels.Gateway

-- a parser that knows one onion host
abbrev parse_url : String → Option Url
parse_url url =
    some (record {
      protocol = "http:";
      hostname = "abc.onion";
      port = "";
      pathname = "/";
      search = "";
    })

abbrev tor : Tor.Tor
tor = record Tor.initial { status = Tor.ready }

abbrev report : TorReport
report = record {
  status = Tor.ready;
  socks_port = get_arti_socks_port tor;
  bootstrap_percent = 0;
  using_onion = true;
}

poll-Truthful_example :
    let shown = poll_status false (ok report) (ok ("Base Sepolia", synced)) StatusBar.initial in
    Truthful parse_url 9150 "http://abc.onion"
      (record { method = none; headers = []; body = none })
      (tor_indicator shown.tor_status shown.tor_onion true).icon
unfolding tor_status using_onion with_slash ends_with get_tor_status get_tor_bootstrap_percent
    Tor.initial
poll-Truthful_example =
    poll-Truthful parse_url 9150 "http://abc.onion"
      (record { method = none; headers = []; body = none }) tor report ("Base Sepolia", synced)
      StatusBar.initial true refl

answered_in_turn_example :
    exchange {P = String} {R = ℕ}
      (idle [])
      (request_and 1 true ∷ proposal_and "dapp" false ∷ request_and 2 false ∷ [])
    ≡ idle (rejects_request 2 ∷ rejects_proposal "dapp" ∷ approves_request 1 ∷ [])
answered_in_turn_example =
    answered_in_turn [] (request_and 1 true ∷ proposal_and "dapp" false ∷ request_and 2 false ∷ [])

abbrev dapp : WalletConnect.Env (Unit {0}) Namespace
dapp = record {
  project_id = some "project";
  kit = λ trace e. ok tt;
  main_process = λ trace c. ok (str "0xSIG");
  build_approved_namespaces = λ params namespace. ok namespace;
}

abbrev session : WalletConnect.State Namespace
session = record { wallet_kit = some tt; wallet_address = "0xME"; trace = [] }

abbrev decode : List ℕ → String
decode bytes = "text"

abbrev parse : String → Result Json
parse s = err "no JSON"

-- numbers of which one is enough
abbrev numbers : Numbers ℕ
numbers = record {
  parse_float = λ s. 1;
  is_nan = λ n. false;
  at_most_zero = λ n. false;
  is_positive = λ n. true;
  less_gas_buffer = λ n. n;
  to_fixed = λ digits n. "1.00";
}

abbrev clicks : List Send.Event
clicks =
    Send.types_to "0x036CbD53842c5426634e7929541eC2318f3dCF7e"
    ∷ Send.types_amount "1.5"
    ∷ Send.clicks_send
    ∷ Send.clicks_send
    ∷ Send.returns (ok "0xHASH")
    ∷ []

-- the form is closed while its transfer is under way, and the transfer asked for again
abbrev sendings : List Sending.Event
sendings =
    Sending.opens 1
    ∷ Sending.acts "2" (Send.types_to "0x036CbD53842c5426634e7929541eC2318f3dCF7e")
    ∷ Sending.acts "2" (Send.types_amount "1.5")
    ∷ Sending.acts "2" Send.clicks_send
    ∷ Sending.closes
    ∷ Sending.opens 1
    ∷ Sending.acts "2" (Send.types_to "0x036CbD53842c5426634e7929541eC2318f3dCF7e")
    ∷ Sending.acts "2" (Send.types_amount "1.5")
    ∷ Sending.acts "2" Send.clicks_send
    ∷ Sending.acts "2" Send.clicks_send
    ∷ []

-- It is asked for twice, and both calls are under way.
cancelled_repeats :
    let s = Sending.run numbers Sending.initial sendings in
    (Sending.transfers s
      ≡ ("USDC", ("0x036CbD53842c5426634e7929541eC2318f3dCF7e", "1.5"))
        ∷ ("USDC", ("0x036CbD53842c5426634e7929541eC2318f3dCF7e", "1.5"))
        ∷ [])
    × (s.abandoned ≡ 1)
unfolding Sending.step Sending.in_form Sending.set_sending_token Sending.on_done Send.step
    Send.can_send Send.handle_send Send.submit
cancelled_repeats = (refl, refl)

transfers-Valid_example :
    All (IsTransfer numbers) (Sending.transfers (Sending.run numbers Sending.initial sendings))
    × Sound numbers (Sending.run numbers Sending.initial sendings)
transfers-Valid_example = transfers-Valid numbers sendings

-- a balance is asked for, then the panel is used without a connection
abbrev queries : List ((Bool × Bool) × Calls.Event (λ (s : String). s))
queries =
    ((true, true), Calls.selects "eth_getBalance")
    ∷ ((true, true), Calls.clicks_send)
    ∷ ((true, true), Calls.clicks_send)
    ∷ ((true, true), Calls.address_comes 0 (ok "0xME"))
    ∷ ((false, true), Calls.result_comes 0 (ok "0x1"))
    ∷ ((false, true), Calls.clicks_send)
    ∷ []

run-Orderly_example : Orderly (Calls.run (λ s. s) Calls.initial queries)
run-Orderly_example =
    run-Orderly (λ s. s) Calls.initial queries
      (rests "eth_blockNumber" none "" [] refl (inl refl) tt)

abbrev account : GeneratedAccount
account = record { mnemonic = "abandon ability"; address = "0xNEW" }

abbrev creation : List Steps.Event
creation =
    Steps.clicks_create
    ∷ Steps.generated_returns (ok account)
    ∷ Steps.clicks_saved
    ∷ Steps.clicks_open
    ∷ Steps.clicks_remove
    ∷ Steps.clear_returns
    ∷ []

run-InPhase_example : InPhase (Steps.run (Wallet.initial true) creation)
unfolding Steps.step Wallet.handle_create Wallet.on_generated Wallet.handle_confirm_create
    Wallet.set_has_key Wallet.key_effect Wallet.fetch_balances Wallet.view Wallet.view_of
run-InPhase_example =
    run-InPhase (Wallet.initial true) creation choosing (tt, (tt, (tt, (tt, (refl, (tt, tt))))))
