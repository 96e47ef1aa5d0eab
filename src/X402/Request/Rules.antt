-- ===== src/X402/Request/Rules.antt =====
-- client/src/main/x402Client.ts: a relation that each primitive step of `processRequest` keeps is
-- kept by the whole function.
use umbra_gateway.Prelude.{Option, String, ◌≡◌, ok, ℕ, refl, arith, ◌⊎◌, inl, inr}
use umbra_gateway.Exec.{pure, by_sum}
use umbra_gateway.Prelude.Int.{ℤ}
use umbra_gateway.Prelude.Json.{Json}
use umbra_gateway.Exec.Stable.{
  Stable, stable_rules, Stable-bind, Stable-bind-lift, Stable-bind-yields, Stable-by_option,
  Stable-pure,
}
use umbra_gateway.X402.Request.Announcement.{Announced, Pays, probe-Yields}
use umbra_gateway.X402.Types.{
  Env, World, Account, QueueResult, Direction, PaymentRequirement, TypedData, PaymentPayload,
  Response, now, random_nonce, log, gateway_fetch, sign,
}
use umbra_gateway.X402.Protocol.{
  post, check_network, base_sepolia_chain_id, to_big_int, transfer_typed_data,
}
use umbra_gateway.X402.Token.{get_cached_token, set_cached_token, clear_cached_token}
use umbra_gateway.X402.Cooldown.{is_in_cooldown, cooldown_remaining, set_failure, clear_failure}
use umbra_gateway.X402.Request.{
  cached_answer, fast_path, probe_answer, probe, requirement, authorize, payment_answer, settle,
  execute, pay, process_request,
}

module _ (env : Env) (gateway_url endpoint : String) (rpc_body : Json) (account : Account) where
  -- What the account may be asked to sign: a transfer on Base Sepolia from the account, with the
  -- amount, the recipient and the token of the first requirement that such a header holds.
  pub record IsDemanded (t : TypedData) : Type 0 where
    pub chain : t.chain_id ≡ base_sepolia_chain_id
    pub payer : t.from ≡ account.address
    pub kind : t.primary_type ≡ "TransferWithAuthorization"
    pub header : String
    pub announced : Announced env gateway_url endpoint rpc_body account header
    pub req : PaymentRequirement
    pub demanded : requirement env gateway_url endpoint rpc_body account header ≡ ok req
    pub payee : t.to ≡ req.pay_to
    pub token : t.verifying_contract ≡ req.asset
    pub amount : to_big_int req.amount ≡ ok t.value

  pub record StepsStable {ℓ} (P : World → Type ℓ) : Type ℓ where
    pub reads : Stable P (now env)
    pub draws : Stable P (random_nonce env)
    pub logs : (d : Direction) (message : String) → Stable P (log env d message)
    pub fetches :
        (authorization : Option String) (payment : Option PaymentPayload)
        → Stable P (gateway_fetch env (post endpoint rpc_body authorization payment))
    pub clears : Stable P (clear_cached_token gateway_url)
    pub signs : (t : TypedData) → IsDemanded t → Stable P (sign env account t)
    pub fails : (time : ℕ) → Stable P (set_failure gateway_url time)
    pub forgives : Stable P (clear_failure gateway_url)
    pub stores : (token : String) → Stable P (set_cached_token env gateway_url token)

  module _ {ℓ} {P : World → Type ℓ} (k : StepsStable P) where
    reads : Stable P (now env)
    reads = k.reads

    draws : Stable P (random_nonce env)
    draws = k.draws

    clears : Stable P (clear_cached_token gateway_url)
    clears = k.clears

    logs : (d : Direction) (message : String) → Stable P (log env d message)
    logs = k.logs

    fetches :
        (authorization : Option String) (payment : Option PaymentPayload)
        → Stable P (gateway_fetch env (post endpoint rpc_body authorization payment))
    fetches = k.fetches

    stores : (token : String) → Stable P (set_cached_token env gateway_url token)
    stores = k.stores

    fails : (time : ℕ) → Stable P (set_failure gateway_url time)
    fails = k.fails

    forgives : Stable P (clear_failure gateway_url)
    forgives = k.forgives

    cached_answer-Stable :
        (method : String) (resp : Response)
        → Stable P (cached_answer env gateway_url endpoint rpc_body account method resp)
    unfolding cached_answer
    cached_answer-Stable method resp = search (stable_rules, logs, clears)

    get_cached_token-Stable : Stable P (get_cached_token env gateway_url)
    unfolding get_cached_token
    get_cached_token-Stable = search (stable_rules, reads, clears) depth 9

    fast_path-Stable :
        (method : String) → Stable P (fast_path env gateway_url endpoint rpc_body account method)
    unfolding fast_path
    fast_path-Stable method =
        search (stable_rules, logs, fetches, get_cached_token-Stable, cached_answer-Stable)

    cooldown-Stable : Stable P (is_in_cooldown env gateway_url)
    unfolding is_in_cooldown
    cooldown-Stable = search (stable_rules, reads)

    remaining-Stable : Stable P (cooldown_remaining env gateway_url)
    unfolding cooldown_remaining
    remaining-Stable = search (stable_rules, reads)

    probe_answer-Stable :
        (resp : Response) → Stable P (probe_answer env gateway_url endpoint rpc_body account resp)
    unfolding probe_answer
    probe_answer-Stable resp = search (stable_rules, logs)

    probe-Stable : Stable P (probe env gateway_url endpoint rpc_body account)
    unfolding probe
    probe-Stable =
        search (stable_rules, logs, fetches, cooldown-Stable, remaining-Stable, probe_answer-Stable)

    execute-Stable :
        (token : String) → Stable P (execute env gateway_url endpoint rpc_body account token)
    unfolding execute
    execute-Stable token = search (stable_rules, logs, fetches)

    payment_answer-Stable :
        (resp : Response) → Stable P (payment_answer env gateway_url endpoint rpc_body account resp)
    unfolding payment_answer
    payment_answer-Stable resp =
        search (stable_rules, reads, logs, stores, fails, forgives) depth 12

    settle-Stable :
        (payload : PaymentPayload)
        → Stable P (settle env gateway_url endpoint rpc_body account payload)
    unfolding settle
    settle-Stable payload = search (stable_rules, logs, fetches, payment_answer-Stable) depth 9

    sign-Stable :
        (header : String) (req : PaymentRequirement) (chain_id value time : ℤ) (nonce : String)
        → Announced env gateway_url endpoint rpc_body account header
        → requirement env gateway_url endpoint rpc_body account header ≡ ok req
        → check_network chain_id req.network ≡ ok tt
        → to_big_int req.amount ≡ ok value
        → Stable P (sign env account (transfer_typed_data account req chain_id value time nonce))
    unfolding transfer_typed_data check_network
    sign-Stable header req chain_id value time nonce said d c a = k.signs _ (record {
      chain = ground arith;
      payer = refl;
      kind = refl;
      header = header;
      announced = said;
      req = req;
      demanded = d;
      payee = refl;
      token = refl;
      amount = a;
    })

    authorize-Stable :
        (header : String)
        → Announced env gateway_url endpoint rpc_body account header
        → Stable P (authorize env gateway_url endpoint rpc_body account header)
    unfolding authorize
    authorize-Stable header said = Stable-bind-lift _ _ λ req d. Stable-bind _ _ (logs _ _) λ _.
        Stable-bind-lift _ _ λ chain_id _. Stable-bind-lift _ _ λ _ c.
          Stable-bind-lift _ _ λ value a. Stable-bind _ _ (logs _ _) λ _.
            Stable-bind _ _ reads λ time. Stable-bind _ _ draws λ nonce.
              Stable-bind _ _ (sign-Stable header req chain_id value _ nonce said d c a)
                λ _. Stable-pure _

    pay-Stable :
        (header : String)
        → Announced env gateway_url endpoint rpc_body account header
        → Stable P (pay env gateway_url endpoint rpc_body account header)
    unfolding pay
    pay-Stable header said =
        Stable-bind _ _ (authorize-Stable header said)
          λ payload. Stable-bind _ _ (settle-Stable payload) λ token. execute-Stable token

    pay_or_answer-Stable :
        (probed : QueueResult ⊎ String)
        → Pays env gateway_url endpoint rpc_body account probed
        → Stable P (by_sum probed pure (pay env gateway_url endpoint rpc_body account))
    unfolding by_sum
    pay_or_answer-Stable (inl answer) said = Stable-pure answer
    pay_or_answer-Stable (inr header) said = pay-Stable header said

    pub process_request-Stable :
        Stable P (process_request env gateway_url endpoint rpc_body account)
    unfolding process_request
    process_request-Stable = Stable-bind-lift _ _ λ method _.
        Stable-bind _ _ (fast_path-Stable method) λ answered.
          Stable-by_option _ answered _ Stable-pure (
            Stable-bind-yields _ _ probe-Stable
              (probe-Yields env gateway_url endpoint rpc_body account) pay_or_answer-Stable)
