-- ===== src/Desktop/Asked.antt =====
-- client/src/main/index.ts, rpc.ts and x402Client.ts: what is signed over a run of calls.
use mathlib.Core.Path.{subst}
use umbra_gateway.Prelude.{
  String, List, [], ◌∷◌, Option, none, All, ◌≡◌, refl, sym, ap, ◌⊎◌, inl, inr,
}
use umbra_gateway.Prelude.Text.{truthy}
use umbra_gateway.Rpc.{Transaction}
use umbra_gateway.Rpc.Wallet.Transfers.{IsTransfer, ether, usdc}
use umbra_gateway.Ipc.Signing.Transactions.{IsRequested}
use umbra_gateway.Desktop.{
  Desktop, Env, generate_account, import_key, clear_key, set_gateway_url, disconnect_gateway, send,
  wc_send_transaction, Event, invokes, light_asks, rpc_env,
}
use umbra_gateway.Desktop.Handlers.{run}
use umbra_gateway.Desktop.Signed.{
  IsHonest, Signed, kept, sign-Signed, set_gateway-Signed, clear_gateway-Signed,
}
use umbra_gateway.Desktop.Rules.{AllowsEvent, run-Both}

module _ {Blob : Type 0} (env : Env Blob) where
  -- A call asks for the transaction: `sendToken` for the transfer of its token, amount and recipient,
  -- `wc:sendTransaction` for the transaction with the recipient, value and data of its parameters.
  abbrev pub Asks : Event → Transaction → Type 0
  Asks (invokes (send symbol to amount)) t = IsTransfer env.rpc symbol to amount t
  Asks (invokes (wc_send_transaction tx)) t = IsRequested tx t
  Asks _ t = ⊥

  abbrev pub Among : List Event → Transaction → Type 0
  Among [] t = ⊥
  Among (e ∷ es) t = Asks e t ⊎ Among es t

  -- The URL is one that a call sets, or that the local proxy was started for.
  abbrev pub IsChosen : List Event → String → Type 0
  IsChosen [] url = ⊥
  IsChosen (invokes (set_gateway_url x) ∷ es) url = (x ≡ url) ⊎ IsChosen es url
  IsChosen (light_asks x raw ∷ es) url = (x ≡ url) ⊎ IsChosen es url
  IsChosen (e ∷ es) url = IsChosen es url

  module _ (May : Transaction → Type 0) (IsGateway : String → Type 0) where
    same-IsTransfer :
        (file : Option Blob) (symbol to amount : String) (t : Transaction)
        → IsTransfer (rpc_env env file) symbol to amount t
        → IsTransfer env.rpc symbol to amount t
    same-IsTransfer file symbol to amount _ (ether nonce gas_price value e parsed) =
        ether nonce gas_price value e parsed
    same-IsTransfer file symbol to amount _ (usdc nonce gas_price units encoded e parsed good) =
        usdc nonce gas_price units encoded e parsed good

    allowed :
        (e : Event)
        → ((url : String) → IsChosen (e ∷ []) url → IsGateway url)
        → ((t : Transaction) → Asks e t → May t)
        → AllowsEvent env IsGateway
            (λ file. Unit)
            (Signed env May IsGateway)
            (kept env May IsGateway)
            e
    allowed (invokes generate_account) sets may = λ file. tt
    allowed (invokes (import_key input)) sets may = λ file. tt
    allowed (invokes clear_key) sets may = tt
    allowed (invokes (set_gateway_url url)) sets may =
        λ s. set_gateway-Signed env May IsGateway url s (sets url (inl refl))
    allowed (invokes disconnect_gateway) sets may = clear_gateway-Signed env May IsGateway
    allowed (invokes (send symbol to amount)) sets may = λ file stored account t loaded is.
        sign-Signed env May IsGateway _ account t
          (may t (same-IsTransfer file symbol to amount t is))
    allowed (invokes (wc_send_transaction tx)) sets may =
        λ file stored account t loaded is. sign-Signed env May IsGateway _ account t (may t is)
    allowed (light_asks url raw) sets may = sets url (inl refl)
    allowed _ sets may = tt

    -- a URL that the first event or the others set
    sets_one :
        (e : Event) (es : List Event) (url : String)
        → IsChosen (e ∷ []) url ⊎ IsChosen es url
        → IsChosen (e ∷ es) url
    sets_one (invokes (set_gateway_url x)) es url (inl (inl same)) = inl same
    sets_one (invokes (set_gateway_url x)) es url (inl (inr none_left)) = absurd none_left
    sets_one (invokes (set_gateway_url x)) es url (inr later) = inr later
    sets_one (light_asks x raw) es url (inl (inl same)) = inl same
    sets_one (light_asks x raw) es url (inl (inr none_left)) = absurd none_left
    sets_one (light_asks x raw) es url (inr later) = inr later
    sets_one _ es url (inl none_left) = absurd none_left
    sets_one _ es url (inr later) = later

    all_allowed :
        (es : List Event)
        → ((url : String) → IsChosen es url → IsGateway url)
        → ((t : Transaction) → Among es t → May t)
        → All
            (AllowsEvent env IsGateway
              (λ file. Unit)
              (Signed env May IsGateway)
              (kept env May IsGateway))
            es
    all_allowed [] sets may = tt
    all_allowed (e ∷ es) sets may = (
      allowed e (λ url now. sets url (sets_one e es url (inl now))) (λ t asks. may t (inl asks)),
      all_allowed es (λ url later. sets url (sets_one e es url (inr later)))
          (λ t among. may t (inr among)),
    )

  -- From the start, whatever the renderer calls, whatever the light client asks through the local proxy,
  -- and whatever the gateways and the light client answer: each transaction that is signed is one that
  -- a call of the run asked for, and each payment is a transfer on Base Sepolia, from the address of an
  -- account that keystore.ts loads, of what a gateway that the run had set, or that the local proxy was
  -- started for, demanded in a 402 answer.
  pub signed_as_asked :
      (d : Desktop Blob) (es : List Event)
      → d.rpc.gateway_url ≡ none
      → d.rpc.signed ≡ []
      → d.rpc.world.trace ≡ []
      → All (Among es) (run env d es).rpc.signed
        × All (IsHonest env (IsChosen es)) (run env d es).rpc.world.trace
  signed_as_asked d es no_gateway no_transactions no_trace =
      let h =
        (run-Both env (IsChosen es) (λ file. Unit) (Signed env (Among es) (IsChosen es))
          (kept env (Among es) (IsChosen es)) d es
          (all_allowed (Among es) (IsChosen es) es (λ url is. is) (λ t among. among))
          (
            tt,
            record {
              gateway = λ url found. cc (found, ap truthy no_gateway);
              transactions = subst (All (Among es)) (sym no_transactions) tt;
              payments = subst (All (IsHonest env (IsChosen es))) (sym no_trace) tt;
            },
          )).1 in
      (h.transactions, h.payments)
