-- ===== src/X402/Request/Examples.antt =====
-- client/src/main/x402Client.ts: a gateway that wants payments, and the theorems at runs with it.
use umbra_gateway.Prelude.{
  ℕ, ◌+◌, ◌*◌, ◌≤◌, suc, String, [], ◌∷◌, Option, none, some, Result, ok, err, All, ◌≡◌, refl,
  arith, if◌then◌else◌, ltb,
}
use umbra_gateway.Prelude.Int.{pos}
use umbra_gateway.Prelude.Map
use umbra_gateway.Prelude.Map.{Map}
use umbra_gateway.Prelude.Json.{Json, obj, str, num, field, end, property}
use umbra_gateway.Prelude.Text.{show_ℕ, split, ===_iff}
use umbra_gateway.Exec.{◌>>=◌, by_option}
use umbra_gateway.X402.Types.{
  TokenEntry, Env, World, Account, HttpRequest, Response, PaymentRequirement, PaymentPayload,
  TypedData, Event, initial, now, log, record_event, random_nonce, sign,
}
use umbra_gateway.X402.Protocol.{
  ◌<>◌, method_name, post, bearer, parse_credits, payment_payload, transfer_typed_data,
  chain_id_from_caip2, to_big_int, check_network,
}
use umbra_gateway.X402.Token.{get_cached_token, set_cached_token, expiry, expires_soon, middle}
use umbra_gateway.X402.Cooldown.{seconds_left, payment_cooldown_ms, is_recent, clear_failure}
use umbra_gateway.X402.Token.Laws.{jwt_lifetime}
use umbra_gateway.X402.Request.{payment_answer, process_request, requirement, authorize, pay}
use umbra_gateway.X402.Request.Signing.{IsHonest, process_request-signs}
use umbra_gateway.X402.Request.Isolation.{Agree, process_request-Agree}
use umbra_gateway.X402.Request.Bounds.{requests, signatures, process_request_bounds}
use umbra_gateway.X402.Request.Outcomes.{rejection_blocks, paid_then_cached}
use umbra_gateway.X402.Request.Survival.{paid_token_survives}

abbrev demand : PaymentRequirement
demand = record {
  network = "eip155:84532";
  asset = "0xUSDC";
  pay_to = "0xPAY";
  amount = "10000";
  max_amount_required = "10000";
  extra = none;
}

abbrev response : ℕ → Option String → Response
response status header = record {
  status = status;
  rpc_credits_remaining = some "99";
  payment_required = header;
  payment_token = some "t.k";
  text = ok "done";
  json = ok (obj (field "result" (str "0x1") end));
}

abbrev answer_paid : Option PaymentPayload → Result Response
answer_paid none = ok (response 402 (some "demand"))
answer_paid (some payment) = ok (response 200 none)

abbrev answer : Option String → Option PaymentPayload → Result Response
answer none payment = answer_paid payment
answer (some authorization) payment = ok (response 200 none)

abbrev pub env : Env
env = record {
  fetch = λ trace request. answer request.authorization request.payment_signature;
  clock = λ n. 1000 * n;
  random_hex = λ n. "0x00";
  get_address = λ address. ok address;
  parse_requirements = λ header. ok (demand ∷ []);
  parse_jwt_payload = λ part. ok (obj (field "exp" (num (pos 9000)) end));
}

abbrev account : Account
account = record { address = "0xME"; sign_typed_data = λ t. ok "0xSIG" }

abbrev body : Json
body = obj (field "method" (str "eth_blockNumber") end)

process_request-signs_example :
    All
      (IsHonest env "http://g" "http://g/" body account)
      (process_request env "http://g" "http://g/" body account initial).1.trace
process_request-signs_example =
    process_request-signs env "http://g" "http://g/" body account initial tt

process_request_bounds_example :
    let w = (process_request env "http://g" "http://g/" body account initial).1 in
    (requests w.trace ≤ 0 + 4) × (signatures w.trace ≤ 0 + 1)
process_request_bounds_example =
    process_request_bounds env "http://g" "http://g/" body account initial

process_request-Agree_example :
    Agree "http://h" initial (process_request env "http://g" "http://g/" body account initial).1
process_request-Agree_example =
    process_request-Agree env "http://g" "http://g/" body account "http://h" initial
      (λ e. cc ((===_iff "http://g" "http://h").1 e))

abbrev refused : Response
refused = record (response 402 none) { text = ok "no funds" }

abbrev blocked : World
blocked = (payment_answer env "http://g" "http://g/" body account refused initial).1

rejection_blocks_example :
    let (r, w) = process_request env "http://g" "http://g/" body account blocked in
    (r
      ≡ err (
          "x402 payment cooling down — "
          <> show_ℕ (seconds_left (env.clock (suc blocked.readings)) (env.clock 1))
          <> "s remaining"))
    × (w.trace ≡ blocked.trace)
unfolding method_name payment_answer Map.get Map.empty ◌>>=◌ log now record_event
    umbra_gateway.X402.Cooldown.set_failure
rejection_blocks_example =
    rejection_blocks env "http://g" "http://g/" body account initial blocked refused "no funds"
      "eth_blockNumber" refl refl (omega arith) refl (record { token = refl; failure = refl })
      (omega arith)

abbrev paid : World
paid = (payment_answer env "http://g" "http://g/" body account (response 200 none) initial).1

paid_then_cached_example :
    let (r, w) = process_request env "http://g" "http://g/" body account paid in
    (r
      ≡ ok (record {
        result = obj (field "result" (str "0x1") end);
        credits_remaining = parse_credits (some "99");
      }))
    × (requests w.trace ≡ requests paid.trace + 1)
    × (signatures w.trace ≡ signatures paid.trace)
unfolding method_name payment_answer expires_soon expiry ◌>>=◌ by_option set_cached_token now
    clear_failure log record_event post bearer
paid_then_cached_example =
    paid_then_cached env "http://g" "http://g/" body account initial paid (response 200 none)
      (response 200 none) "done" "t.k" "eth_blockNumber" (obj (field "result" (str "0x1") end)) refl
      refl refl refl (record { token = refl; failure = refl }) refl refl refl refl

abbrev payment : PaymentPayload
payment =
    payment_payload "http://g/" demand "0xSIG"
      (transfer_typed_data account demand (pos 84532) (pos 10000) (pos 302) "0x00")

abbrev authorized : World
authorized = (authorize env "http://g" "http://g/" body account "demand" initial).1

paid_token_survives_example :
    Map.get (pay env "http://g" "http://g/" body account "demand" initial).1.token_cache "http://g"
    ≡ some (record {
      token = "t.k";
      expires_at = expiry env (env.clock (suc authorized.readings)) "t.k";
    })
unfolding authorize requirement ◌>>=◌ chain_id_from_caip2 to_big_int check_network log record_event
    now random_nonce sign payment_payload transfer_typed_data umbra_gateway.X402.Types.gateway_fetch
    post
paid_token_survives_example =
    paid_token_survives env "http://g" "http://g/" body account initial authorized "demand" "done"
      "t.k" payment (response 200 none) refl refl refl refl refl

jwt_lifetime_example :
    (get_cached_token env "http://g" (set_cached_token env "http://g" "h.p.s" initial).1).0
    ≡ ok (if ltb 31000 9000000 then some "h.p.s" else none)
unfolding middle split property
jwt_lifetime_example =
    jwt_lifetime env "http://g" initial "h.p.s" "p" (obj (field "exp" (num (pos 9000)) end)) 9000
      refl refl refl

abbrev stored : World
stored = (set_cached_token env "http://g" "t.k" initial).1
