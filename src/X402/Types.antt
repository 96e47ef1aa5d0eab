-- ===== src/X402/Types.antt =====
-- client/src/main/x402Client.ts: the messages of the x402 protocol, the state of the client, and
-- what it uses that is not in the repository (viem, the network, the clock) as the record `Env`.
use umbra_gateway.Prelude.{ℕ, suc, String, List, [], ◌∷◌, Option, Result, ok}
use umbra_gateway.Prelude.Int.{ℤ}
use umbra_gateway.Prelude.Map
use umbra_gateway.Prelude.Map.{Map}
use umbra_gateway.Prelude.Json.{Json}
use umbra_gateway.Exec.{Exec, modify, ◌>>=◌}

pub record Extra : Type 0 where
  pub name : Option String
  pub version : Option String

pub record PaymentRequirement : Type 0 where
  pub network : String
  pub asset : String
  pub pay_to : String
  pub amount : String
  pub max_amount_required : String
  pub extra : Option Extra

-- `expires_at` is in milliseconds, the source's in seconds.
pub record TokenEntry : Type 0 where
  pub token : String
  pub expires_at : ℤ

pub data Direction : Type 0 where
  out into info error : Direction

pub record LogEntry : Type 0 where
  pub ts : ℕ
  pub direction : Direction
  pub message : String

pub record QueueResult : Type 0 where
  pub result : Json
  pub credits_remaining : Option ℤ

-- The typed data of an EIP-3009 transfer: its domain, the fields of its type, its message.
pub record TypedData : Type 0 where
  pub domain_name : String
  pub domain_version : String
  pub chain_id : ℤ
  pub verifying_contract : String
  pub primary_type : String
  pub fields : List (String × String)
  pub from : String
  pub to : String
  pub value : ℤ
  pub valid_after : ℤ
  pub valid_before : ℤ
  pub nonce : String

pub record Authorization : Type 0 where
  pub from : String
  pub to : String
  pub value : String
  pub valid_after : String
  pub valid_before : String
  pub nonce : String

-- The header `Payment-Signature` before it is serialised.
pub record PaymentPayload : Type 0 where
  pub x402_version : ℕ
  pub resource_url : String
  pub resource_description : String
  pub resource_mime_type : String
  pub accepted : PaymentRequirement
  pub signature : String
  pub authorization : Authorization

pub record HttpRequest : Type 0 where
  pub url : String
  pub method : String
  pub content_type : String
  pub authorization : Option String
  pub payment_signature : Option PaymentPayload
  pub body : Json

-- Reading the body may reject, as text or as JSON.
pub record Response : Type 0 where
  pub status : ℕ
  pub rpc_credits_remaining : Option String
  pub payment_required : Option String
  pub payment_token : Option String
  pub text : Result String
  pub json : Result Json

pub record Account : Type 0 where
  pub address : String
  pub sign_typed_data : TypedData → Result String

-- What the client does that others can see, the newest first in a trace.
pub data Event : Type 0 where
  sent : HttpRequest → Event
  signed : TypedData → Event
  logged : LogEntry → Event

-- The network's answers and the clock's readings are arbitrary: an answer may depend on all that
-- the client did before, and a reading on how many there were.
pub record Env : Type 0 where
  pub fetch : List Event → HttpRequest → Result Response
  pub clock : ℕ → ℕ
  pub random_hex : ℕ → String
  pub get_address : String → Result String
  pub parse_requirements : String → Result (List PaymentRequirement)
  pub parse_jwt_payload : String → Result Json

-- The maps of the module, how often the clock and the random source were read, and the trace.
pub record World : Type 0 where
  pub token_cache : Map TokenEntry
  pub last_payment_failure : Map ℕ
  pub readings : ℕ
  pub draws : ℕ
  pub trace : List Event

abbrev pub initial : World
initial = record {
  token_cache = Map.empty;
  last_payment_failure = Map.empty;
  readings = 0;
  draws = 0;
  trace = [];
}

unfoldable pub record_event : Event → Exec World (Unit {0})
record_event e = modify (λ w. record w { trace = e ∷ w.trace })

module _ (env : Env) where
  -- Date.now()
  unfoldable pub now : Exec World ℕ
  now w = (ok (env.clock w.readings), record w { readings = suc w.readings })

  -- toHex(crypto.getRandomValues(new Uint8Array(32)))
  unfoldable pub random_nonce : Exec World String
  random_nonce w = (ok (env.random_hex w.draws), record w { draws = suc w.draws })

  -- log({ ts: Date.now(), direction, message })
  unfoldable pub log : Direction → String → Exec World (Unit {0})
  log direction message = do
    ts ← now
    record_event (logged (record { ts = ts; direction = direction; message = message }))

  -- await gatewayFetch(endpoint, …)
  unfoldable pub gateway_fetch : HttpRequest → Exec World Response
  gateway_fetch request w = (env.fetch w.trace request, record w { trace = sent request ∷ w.trace })

  -- await account.signTypedData(…)
  unfoldable pub sign : Account → TypedData → Exec World String
  sign account typed w =
      (account.sign_typed_data typed, record w { trace = signed typed ∷ w.trace })
