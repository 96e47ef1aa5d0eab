-- ===== src/Panels/Requests.antt =====
-- client/src/renderer/components/WCApprovalModal.tsx, with `hexToUtf8` of walletconnect.ts: what the
-- modal shows of a request. `TextDecoder` and `JSON.parse` are arguments.
pub mod Consent
use Prim.Native.String as Chars
use Prim.Native.Char.{code}
use umbra_gateway.Prelude.{
  ℕ, suc, ◌-◌, ◌%◌, String, List, [], ◌∷◌, map, Option, none, some, Bool, not, ◌||◌, ◌&&◌, ◌==◌,
  Result, ok, err, get_or, if◌then◌else◌,
}
use umbra_gateway.Prelude.Int.{ℤ, pos, negsuc}
use umbra_gateway.Prelude.Json.{Json, str, property, display, null}
use umbra_gateway.Prelude.Text.{append, starts, drop, take, parse_int16, show_ℤ, ◌===◌}
use umbra_gateway.Rpc.{big_int_of, is_truthy}
use umbra_gateway.WalletConnect.{nth}

-- a line terminator, which `.` does not match
abbrev is_line_end : ℕ → Bool
is_line_end c = c == 10 || c == 13 || c == 8232 || c == 8233

-- clean.match(/.{1,2}/g), where `held` is the first character of a match that is not complete
unfoldable pub pairs : String → String → List String
pairs held Chars.[] = if held === "" then [] else held ∷ []
pairs held (Chars.◌∷◌ c s) =
    let fresh = pairs "" s in
    let started = pairs (Chars.◌∷◌ c Chars.[]) s in
    if is_line_end (code c)
    then (if held === "" then fresh else held ∷ fresh)
    else if held === ""
    then started
    else append held (Chars.◌∷◌ c Chars.[]) ∷ fresh

-- an element of a Uint8Array: NaN is 0, other numbers are taken modulo 256
unfoldable pub to_uint8 : Option ℤ → ℕ
to_uint8 none = 0
to_uint8 (some (pos n)) = n % 256
to_uint8 (some (negsuc n)) = (256 - suc n % 256) % 256

abbrev decoded : (List ℕ → String) → String → List String → String
decoded decode hex [] = hex
decoded decode hex (b ∷ bs) = decode (map (λ s. to_uint8 (parse_int16 s)) (b ∷ bs))

unfoldable pub hex_to_utf8 : (List ℕ → String) → String → String
unfolding pairs parse_int16 to_uint8 drop
hex_to_utf8 decode hex = decoded decode hex (pairs "" (if starts hex "0x" then drop 2 hex else hex))

-- METHOD_LABELS[method] ?? method
unfoldable pub method_label : String → String
method_label method =
    if method === "personal_sign" || method === "eth_sign"
    then "Sign Message"
    else if method === "eth_signTypedData" || method === "eth_signTypedData_v4"
    then "Sign Typed Data"
    else if method === "eth_sendTransaction" || method === "eth_signTransaction"
    then "Sign Transaction"
    else method

-- What the modal shows of the parameters; `raw` is the parameter of typed data that is no JSON.
pub data Payload : Type 0 where
  message : Option Json → Payload
  typed_data : Option Json → Option Json → Payload
  raw : Option Json → Payload
  rows : String → String → String → String → Payload
  json : List Json → Payload

module _ (decode : List ℕ → String) (parse : String → Result Json) where
  -- `hexToUtf8`, of a value that is no text the value
  unfoldable pub hex_to_utf8_of : Option Json → Option Json
  unfolding hex_to_utf8
  hex_to_utf8_of (some (str s)) = some (str (hex_to_utf8 decode s))
  hex_to_utf8_of other = other

  parse_param : Option Json → Result Json
  unfolding display
  parse_param none = parse "undefined"
  parse_param (some (str s)) = parse s
  parse_param (some other) = parse (display other)

  -- the domain and the message of typed data
  domain_and_message : Option Json → Result (Option Json × Option Json)
  unfolding parse_param property
  domain_and_message param = elim (parse_param param) [
    | err reason ↦ err reason
    | ok parsed ↦ elim (property "domain" parsed) [
      | err reason ↦ err reason
      | ok domain ↦ elim (property "message" parsed) [
        | err reason ↦ err reason
        | ok text ↦ ok (domain, text)
      ]
    ]
  ]

  -- the try and the catch block for typed data
  unfoldable pub typed_data_payload : Option Json → Payload
  unfolding domain_and_message
  typed_data_payload param = elim (domain_and_message param) [
    | err reason ↦ raw param
    | ok (domain, text) ↦ typed_data domain text
  ]

  -- tx.name, of a transaction that is missing the TypeError
  field_of : String → Option Json → Result (Option Json)
  unfolding property
  field_of name none = err "Cannot read properties of undefined"
  field_of name (some tx) = property name tx

  -- tx.value ? `${BigInt(tx.value)} wei` : '0'
  unfoldable pub value_row : Option Json → Result String
  unfolding is_truthy big_int_of show_ℤ
  value_row value =
      if is_truthy value
      then (elim (big_int_of (get_or value null)) [
        | err reason ↦ err reason
        | ok n ↦ ok (append (show_ℤ n) " wei")
      ])
      else ok "0"

  abbrev text_or : Option Json → String → String
  text_or none other = other
  text_or (some null) other = other
  text_or (some value) other = display value

  -- the first characters of the data, where there are any
  unfoldable pub data_row : Option Json → String
  unfolding is_truthy take display
  data_row value =
      let data_text = text_or value "" in
      if is_truthy value && not (data_text === "0x")
      then append (take 10 data_text) "…"
      else "(none)"

  unfoldable pub rows_of : Option Json → Result Payload
  unfolding field_of value_row data_row display
  rows_of tx = elim (field_of "to" tx) [
    | err reason ↦ err reason
    | ok to ↦ elim (field_of "value" tx) [
      | err reason ↦ err reason
      | ok value ↦ elim (value_row value) [
        | err reason ↦ err reason
        | ok shown ↦ elim (field_of "data" tx) [
          | err reason ↦ err reason
          | ok data_bytes ↦ elim (field_of "gas" tx) [
            | err reason ↦ err reason
            | ok gas ↦
                ok (rows (text_or to "—") shown (data_row data_bytes) (text_or gas "estimated"))
          ]
        ]
      ]
    ]
  ]

  -- `RequestPayload`; an error is thrown while React draws
  unfoldable pub request_payload : String → List Json → Result Payload
  unfolding hex_to_utf8_of typed_data_payload rows_of nth
  request_payload method params =
      if method === "personal_sign" || method === "eth_sign"
      then ok (
          message
            (hex_to_utf8_of (if method === "personal_sign" then nth params 0 else nth params 1)))
      else if method === "eth_signTypedData" || method === "eth_signTypedData_v4"
      then ok (typed_data_payload (nth params 1))
      else if method === "eth_sendTransaction" || method === "eth_signTransaction"
      then rows_of (nth params 0)
      else ok (json params)
