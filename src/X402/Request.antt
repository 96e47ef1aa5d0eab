-- ===== src/X402/Request.antt =====
-- client/src/main/x402Client.ts: `processRequest`. The function is written in three phases, which
-- `process_request` joins: the cached token, the probe, the payment.
pub mod Announcement
pub mod Rules
pub mod Isolation
pub mod Signing
pub mod Bounds
pub mod Outcomes
pub mod Survival
pub mod Examples
use umbra_gateway.Prelude.{
  ◌+◌, ◌/◌, String, none, some, Option, Result, ok, err, ◌⊎◌, inl, inr, ◌==◌, if◌then◌else◌,
}
use umbra_gateway.Prelude.Int.{pos}
use umbra_gateway.Prelude.Json.{Json}
use umbra_gateway.Prelude.Text.{truthy, trim, show_ℕ, show_ℤ}
use umbra_gateway.Exec.{Exec, pure, throw, lift, ◌>>=◌, ◌>>◌, by_option, by_sum}
use umbra_gateway.X402.Types.{
  Env, World, Account, out, into, info, error, PaymentRequirement, QueueResult, TypedData,
  PaymentPayload, Response, now, random_nonce, log, gateway_fetch, sign,
}
use umbra_gateway.X402.Protocol.{
  ◌<>◌, parse_credits, show_credits, to_big_int, chain_id_from_caip2, method_name, post, bearer,
  check_network, transfer_typed_data, payment_payload, first, endpoint_of,
}
use umbra_gateway.X402.Token.{get_cached_token, set_cached_token, clear_cached_token}
use umbra_gateway.X402.Cooldown.{is_in_cooldown, cooldown_remaining, set_failure, clear_failure}

module _ (env : Env) (gateway_url endpoint : String) (rpc_body : Json) (account : Account) where
  -- The answer to a call with a cached token; `none` where the token is exhausted.
  pub cached_answer : String → Response → Exec World (Option QueueResult)
  cached_answer method resp =
      let credits = parse_credits resp.rpc_credits_remaining in
      if resp.status == 200
      then (do
        body ← lift resp.json
        log env into ("← " <> method <> ": result (credits: " <> show_credits credits <> ")")
        pure (some (record { result = body; credits_remaining = credits })))
      else if resp.status == 402
      then (do
        clear_cached_token gateway_url
        log env info "← token exhausted, re-paying..."
        pure none)
      else do text ← lift resp.text; throw ("Gateway error " <> show_ℕ resp.status <> ": " <> text)

  pub fast_path : String → Exec World (Option QueueResult)
  fast_path method = do
    cached ← get_cached_token env gateway_url
    by_option (truthy cached) (pure none) λ token. do
      log env out ("→ " <> method <> " (cached token)")
      resp ← gateway_fetch env (post endpoint rpc_body (bearer token) none)
      cached_answer method resp

  -- Either the answer of a gateway that wants no payment, or the header of a 402.
  pub probe_answer : Response → Exec World (QueueResult ⊎ String)
  probe_answer resp =
      if resp.status == 402
      then by_option (truthy resp.payment_required)
          (throw "402 response missing Payment-Required header") (λ header. pure (inr header))
      else if resp.status == 200
      then (do
        body ← lift resp.json
        log env into "← result (no payment required)"
        pure (inl (record { result = body; credits_remaining = none })))
      else do
        text ← lift resp.text
        throw ("Expected 402, got " <> show_ℕ resp.status <> ": " <> text)

  pub probe : Exec World (QueueResult ⊎ String)
  probe = do
    blocked ← is_in_cooldown env gateway_url
    if blocked
        then (do
          left ← cooldown_remaining env gateway_url
          throw ("x402 payment cooling down — " <> show_ℕ left <> "s remaining"))
        else do
          log env out "→ probe 402..."
          resp ← gateway_fetch env (post endpoint rpc_body none none)
          probe_answer resp

  -- The first accepted requirement, with both addresses in checksummed form.
  unfoldable pub requirement : String → Result PaymentRequirement
  unfolding first
  requirement header = elim (env.parse_requirements header) [
    | err message ↦ err message
    | ok accepts ↦ elim (first accepts) [
      | err message ↦ err message
      | ok raw ↦ elim (env.get_address raw.pay_to) [
        | err message ↦ err message
        | ok pay_to ↦ elim (env.get_address raw.asset) [
          | err message ↦ err message
          | ok asset ↦ ok (record raw { pay_to = pay_to; asset = asset })
        ]
      ]
    ]
  ]

  pub authorize : String → Exec World PaymentPayload
  authorize header = do
    req ← lift (requirement header)
    log env into
        ("← Payment required: " <> req.amount <> " USDC atoms (network: " <> req.network <> ")")
    chain_id ← lift (chain_id_from_caip2 req.network)
    lift (check_network chain_id req.network)
    value ← lift (to_big_int req.amount)
    log env info (
        "→ signing EIP-3009: "
        <> account.address
        <> " → "
        <> req.pay_to
        <> " ("
        <> show_ℤ value
        <> " atoms on "
        <> req.network
        <> ")")
    time ← now env
    nonce ← random_nonce env
    let typed : TypedData =
        transfer_typed_data account req chain_id value (pos (time / 1000 + 300)) nonce
    signature ← sign env account typed
    pure (payment_payload endpoint req signature typed)

  -- What the client does with the gateway's answer to a payment: the token, if it was accepted.
  pub payment_answer : Response → Exec World String
  payment_answer resp = do
    raw_body ← lift resp.text
    if resp.status == 200
        then by_option (truthy resp.payment_token) (throw "Gateway did not return X-Payment-Token")
            (λ token. do
              set_cached_token env gateway_url token
              clear_failure gateway_url
              log env into "← token issued"
              pure token)
        else (do
          log env error ("✗ payment failed: " <> trim raw_body)
          time ← now env
          set_failure gateway_url time
          throw ("Payment rejected (" <> show_ℕ resp.status <> "): " <> trim raw_body))

  -- Submits a payment and stores the token that it buys.
  pub settle : PaymentPayload → Exec World String
  settle payload = do
    log env out "→ submitting payment..."
    resp ← gateway_fetch env (post endpoint rpc_body none (some payload))
    payment_answer resp

  -- The original request, with the new token.
  pub execute : String → Exec World QueueResult
  execute token = do
    resp ← gateway_fetch env (post endpoint rpc_body (bearer token) none)
    let credits = parse_credits resp.rpc_credits_remaining
    if resp.status == 200
        then (do
          body ← lift resp.json
          log env into ("← result (credits: " <> show_credits credits <> ")")
          pure (record { result = body; credits_remaining = credits }))
        else (do
          text ← lift resp.text
          throw ("RPC request failed after payment (" <> show_ℕ resp.status <> "): " <> text))

  pub pay : String → Exec World QueueResult
  pay header = do payload ← authorize header; token ← settle payload; execute token

  pub process_request : Exec World QueueResult
  process_request = do
    method ← lift (method_name rpc_body)
    answered ← fast_path method
    by_option answered (probe >>= λ probed. by_sum probed pure pay) pure

-- `x402Request`: the task that it hands to the gateway's queue
unfoldable pub x402_request : Env → String → Json → Account → Exec World QueueResult
unfolding endpoint_of
x402_request env gateway_url rpc_body account =
    process_request env gateway_url (endpoint_of gateway_url) rpc_body account
