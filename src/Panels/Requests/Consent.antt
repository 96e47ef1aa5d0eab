-- ===== src/Panels/Requests/Consent.antt =====
-- client/src/renderer/components/WCApprovalModal.tsx and walletconnect.ts: what is shown of a request
-- is what an approval signs.
use umbra_gateway.Prelude.{ℕ, String, List, Option, false, ◌≡◌, Result, ok, err, some, none}
use umbra_gateway.Prelude.Json.{Json, str, property}
use umbra_gateway.Prelude.Int.{ℤ}
use umbra_gateway.Rpc.{big_int_of}
use umbra_gateway.Prelude.Text.{append, take, show_ℤ, ◌===◌}
use umbra_gateway.WalletConnect.{
  Env, State, IpcCall, sign_message, sign_typed_data, send_transaction, call_main, handle_method,
}
use umbra_gateway.Panels.Requests.{
  Payload, message, raw, rows, typed_data, hex_to_utf8, request_payload,
}

module _ (decode : List ℕ → String) (parse : String → Result Json) where
  -- What is shown of a message: its text.
  pub record MessageShown (param : Option Json) (shown : Result Payload) : Type 0 where
    pub decoded_text :
        (s : String)
        → param ≡ some (str s)
        → shown ≡ ok (message (some (str (hex_to_utf8 decode s))))

  -- What is shown of typed data: its domain and its message, or the text itself if it is no JSON.
  pub record TypedDataShown (param : Option Json) (shown : Result Payload) : Type 0 where
    pub parts :
        (s : String) (parsed : Json) (domain text : Option Json)
        → param ≡ some (str s)
        → parse s ≡ ok parsed
        → property "domain" parsed ≡ ok domain
        → property "message" parsed ≡ ok text
        → shown ≡ ok (typed_data domain text)
    pub unparsed :
        (s reason : String)
        → param ≡ some (str s)
        → parse s ≡ err reason
        → shown ≡ ok (raw (some (str s)))

  -- What is shown of a transaction: the recipient, the value in wei, the first ten characters of the
  -- data, and the gas, each in its row.
  pub record TransactionShown (param : Option Json) (shown : Result Payload) : Type 0 where
    pub full :
        (tx : Json) (to value data_text gas : String) (n : ℤ)
        → param ≡ some tx
        → property "to" tx ≡ ok (some (str to))
        → property "value" tx ≡ ok (some (str value))
        → (value === "") ≡ false
        → big_int_of (str value) ≡ ok n
        → property "data" tx ≡ ok (some (str data_text))
        → (data_text === "") ≡ false
        → (data_text === "0x") ≡ false
        → property "gas" tx ≡ ok (some (str gas))
        → shown ≡ ok (rows to (append (show_ℤ n) " wei") (append (take 10 data_text) "…") gas)
    pub bare :
        (tx : Json) (to : String)
        → param ≡ some tx
        → property "to" tx ≡ ok (some (str to))
        → property "value" tx ≡ ok none
        → property "data" tx ≡ ok none
        → property "gas" tx ≡ ok none
        → shown ≡ ok (rows to "0" "(none)" "estimated")

  -- The call is of a parameter of which that is shown.
  pub data Consents : IpcCall → Result Payload → Type 0 where
    message_shown :
        (p : Option Json) (shown : Result Payload)
        → MessageShown p shown
        → Consents (sign_message p) shown
    typed_data_shown :
        (p : Option Json) (shown : Result Payload)
        → TypedDataShown p shown
        → Consents (sign_typed_data p) shown
    transaction_shown :
        (p : Option Json) (shown : Result Payload)
        → TransactionShown p shown
        → Consents (send_transaction p) shown

  module _ {Params Namespaces : Type 0} (env : Env Params Namespaces) (params : List Json)
      (s : State Namespaces) where
    -- the one call that approving a method makes
    abbrev pub Asks : String → Type 0
    Asks method =
        (c : IpcCall) × (handle_method env method params s ≡ call_main env c s)
        × Consents c (request_payload decode parse method params)
