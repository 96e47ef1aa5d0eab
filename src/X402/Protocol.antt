-- ===== src/X402/Protocol.antt =====
-- client/src/main/x402Client.ts: the texts and records of the protocol, as `processRequest` reads
-- and builds them.
use umbra_gateway.Prelude.{
  String, List, [], ◌∷◌, Option, none, some, Result, ok, err, Bool, false, ◌==◌, get_or,
  if◌then◌else◌,
}
use umbra_gateway.Prelude.Int.{ℤ, pos, negsuc}
use umbra_gateway.Prelude.Json.{Json, null, property, display}
use umbra_gateway.Prelude.Text.{
  append, ◌===◌, truthy, split, show_ℤ, big_int, parse_int10, ends_with,
}
use umbra_gateway.X402.Types.{Account, PaymentRequirement, TypedData, PaymentPayload, HttpRequest}

infixr 65 ◌<>◌
abbrev pub ◌<>◌ : String → String → String
◌<>◌ = append

-- `some` of the number, `none` for null
unfoldable pub parse_credits : Option String → Option ℤ
unfolding parse_int10
parse_credits header = elim (truthy header) [ none ↦ none | some s ↦ parse_int10 s ]

unfoldable pub show_credits : Option ℤ → String
unfolding show_ℤ
show_credits none = "?"
show_credits (some n) = show_ℤ n

-- BigInt(s), with the message of its SyntaxError
unfoldable pub to_big_int : String → Result ℤ
unfolding big_int
to_big_int s = elim (big_int s) [
  | none ↦ err ("Cannot convert " <> s <> " to a BigInt")
  | some n ↦ ok n
]

chain_id_of_parts : String → List String → Result ℤ
unfolding to_big_int
chain_id_of_parts network (scheme ∷ reference ∷ []) =
    if scheme === "eip155"
    then to_big_int reference
    else err ("Unsupported CAIP-2 network: " <> network)
chain_id_of_parts network _ = err ("Unsupported CAIP-2 network: " <> network)

unfoldable pub chain_id_from_caip2 : String → Result ℤ
unfolding chain_id_of_parts split
chain_id_from_caip2 network = chain_id_of_parts network (split b':' network)

-- `(rpcBody as { method?: string }).method ?? '?'`, as it is printed
name_of : Option Json → String
unfolding display
name_of none = "?"
name_of (some null) = "?"
name_of (some value) = display value

unfoldable pub method_name : Json → Result String
unfolding name_of property
method_name body = elim (property "method" body) [
  | ok name ↦ ok (name_of name)
  | err message ↦ err message
]

-- A POST of the RPC body, with the headers that the phase adds.
unfoldable pub post : String → Json → Option String → Option PaymentPayload → HttpRequest
post endpoint body authorization payment = record {
  url = endpoint;
  method = "POST";
  content_type = "application/json";
  authorization = authorization;
  payment_signature = payment;
  body = body;
}

unfoldable pub bearer : String → Option String
bearer token = some ("Bearer " <> token)

abbrev pub base_sepolia_chain_id : ℤ
base_sepolia_chain_id = pos 84532

-- chainId === BASE_SEPOLIA_CHAIN_ID
is_base_sepolia : ℤ → Bool
is_base_sepolia (pos n) = n == 84532
is_base_sepolia (negsuc n) = false

-- The throw for any other chain.
unfoldable pub check_network : ℤ → String → Result (Unit {0})
unfolding is_base_sepolia
check_network chain_id network =
    if is_base_sepolia chain_id
    then ok tt
    else err (
        "x402: gateway requested payment on unsupported network " <> network
        <> " — only eip155:84532 (Base Sepolia) is accepted")

transfer_fields : List (String × String)
transfer_fields =
    ("from", "address")
    ∷ ("to", "address")
    ∷ ("value", "uint256")
    ∷ ("validAfter", "uint256")
    ∷ ("validBefore", "uint256")
    ∷ ("nonce", "bytes32")
    ∷ []

-- What `signTransferWithAuthorization` hands to the account.
unfoldable pub transfer_typed_data :
    Account → PaymentRequirement → (chain_id value valid_before : ℤ) → String → TypedData
unfolding transfer_fields
transfer_typed_data account req chain_id value valid_before nonce = record {
  domain_name = elim req.extra [ none ↦ "USDC" | some e ↦ get_or e.name "USDC" ];
  domain_version = elim req.extra [ none ↦ "2" | some e ↦ get_or e.version "2" ];
  chain_id = chain_id;
  verifying_contract = req.asset;
  primary_type = "TransferWithAuthorization";
  fields = transfer_fields;
  from = account.address;
  to = req.pay_to;
  value = value;
  valid_after = pos 0;
  valid_before = valid_before;
  nonce = nonce;
}

unfoldable pub payment_payload : String → PaymentRequirement → String → TypedData → PaymentPayload
unfolding show_ℤ
payment_payload endpoint req signature typed = record {
  x402_version = 2;
  resource_url = endpoint;
  resource_description = "RPC access";
  resource_mime_type = "";
  accepted = req;
  signature = signature;
  authorization = record {
    from = typed.from;
    to = typed.to;
    value = show_ℤ typed.value;
    valid_after = show_ℤ typed.valid_after;
    valid_before = show_ℤ typed.valid_before;
    nonce = typed.nonce;
  };
}

-- `requirements.accepts[0]`; of an empty list `raw.payTo` throws.
unfoldable pub first : List PaymentRequirement → Result PaymentRequirement
first [] = err "Cannot read properties of undefined (reading 'payTo')"
first (raw ∷ _) = ok raw

-- `gatewayUrl.endsWith('/') ? gatewayUrl : `${gatewayUrl}/``
unfoldable pub endpoint_of : String → String
unfolding ends_with
endpoint_of gateway_url = if ends_with gateway_url "/" then gateway_url else gateway_url <> "/"
