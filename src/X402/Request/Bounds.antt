-- ===== src/X402/Request/Bounds.antt =====
-- client/src/main/x402Client.ts: how much one request may cost.
use umbra_gateway.Prelude.{ℕ, suc, ◌+◌, ◌*◌, ◌≤◌, String, List, [], ◌∷◌, arith}
use umbra_gateway.Prelude.Json.{Json}
use umbra_gateway.Exec.{◌>>=◌}
use umbra_gateway.Exec.Adds.{
  Adds, Adds-pure, Adds-throw, Adds-lift, Adds-if, Adds-bind, Adds-free, Adds-by_option,
  Adds-by_sum, free_rules,
}
use umbra_gateway.X402.Types.{
  Env, World, Account, Event, sent, signed, logged, Direction, TypedData, HttpRequest, Response,
  PaymentPayload, record_event, now, random_nonce, log, gateway_fetch, sign,
}
use umbra_gateway.X402.Token.{get_cached_token, set_cached_token, clear_cached_token}
use umbra_gateway.X402.Cooldown.{set_failure, clear_failure, is_in_cooldown, cooldown_remaining}
use umbra_gateway.X402.Request.{
  cached_answer, fast_path, probe_answer, probe, authorize, payment_answer, settle, execute, pay,
  process_request,
}

abbrev pub requests : List Event → ℕ
requests [] = 0
requests (sent request ∷ es) = suc (requests es)
requests (signed t ∷ es) = requests es
requests (logged entry ∷ es) = requests es

abbrev pub signatures : List Event → ℕ
signatures [] = 0
signatures (sent request ∷ es) = signatures es
signatures (signed t ∷ es) = suc (signatures es)
signatures (logged entry ∷ es) = signatures es

-- The cost of the primitive steps under a measure of the state: a request adds `a`, a signature `b`.
module _ (env : Env) (gateway_url endpoint : String) (rpc_body : Json) (account : Account)
    (f : World → ℕ) (a b : ℕ) where
  record StepsAdd : Type 0 where
    reads : Adds f 0 (now env)
    draws : Adds f 0 (random_nonce env)
    logs : (d : Direction) (message : String) → Adds f 0 (log env d message)
    fetches : (request : HttpRequest) → Adds f a (gateway_fetch env request)
    signs : (t : TypedData) → Adds f b (sign env account t)
    clears : Adds f 0 (clear_cached_token gateway_url)
    stores : (token : String) → Adds f 0 (set_cached_token env gateway_url token)
    fails : (time : ℕ) → Adds f 0 (set_failure gateway_url time)
    forgives : Adds f 0 (clear_failure gateway_url)

  module _ (k : StepsAdd) where
    reads : Adds f 0 (now env)
    reads = k.reads

    draws : Adds f 0 (random_nonce env)
    draws = k.draws

    clears : Adds f 0 (clear_cached_token gateway_url)
    clears = k.clears

    forgives : Adds f 0 (clear_failure gateway_url)
    forgives = k.forgives

    logs : (d : Direction) (message : String) → Adds f 0 (log env d message)
    logs = k.logs

    cached_answer-Adds :
        (method : String) (resp : Response)
        → Adds f 0 (cached_answer env gateway_url endpoint rpc_body account method resp)
    unfolding cached_answer
    cached_answer-Adds method resp = search (free_rules, logs, clears) depth 9

    get_cached_token-Adds : Adds f 0 (get_cached_token env gateway_url)
    unfolding get_cached_token
    get_cached_token-Adds = search (free_rules, reads, clears) depth 9

    fast_path-Adds :
        (method : String)
        → Adds f (a + 0) (fast_path env gateway_url endpoint rpc_body account method)
    unfolding fast_path
    fast_path-Adds method = Adds-free _ _ _ get_cached_token-Adds λ cached.
        Adds-by_option _ _ _ _ (Adds-pure _ _) λ token.
          Adds-free _ _ _ (logs _ _)
            λ _. Adds-bind a 0 _ _ (k.fetches _) λ resp. cached_answer-Adds method resp

    cooldown-Adds : Adds f 0 (is_in_cooldown env gateway_url)
    unfolding is_in_cooldown
    cooldown-Adds = search (free_rules, reads) depth 9

    remaining-Adds : Adds f 0 (cooldown_remaining env gateway_url)
    unfolding cooldown_remaining
    remaining-Adds = search (free_rules, reads) depth 9

    probe_answer-Adds :
        (resp : Response) → Adds f 0 (probe_answer env gateway_url endpoint rpc_body account resp)
    unfolding probe_answer
    probe_answer-Adds resp = search (free_rules, logs) depth 9

    probe-Adds : Adds f (a + 0) (probe env gateway_url endpoint rpc_body account)
    unfolding probe
    probe-Adds = Adds-free _ _ _ cooldown-Adds λ blocked.
        Adds-if _ _ _ _ (Adds-free _ _ _ remaining-Adds λ left. Adds-throw _ _) (
          Adds-free _ _ _ (logs _ _)
            λ _. Adds-bind a 0 _ _ (k.fetches _) λ resp. probe_answer-Adds resp)

    authorize-Adds :
        (header : String)
        → Adds f (b + 0) (authorize env gateway_url endpoint rpc_body account header)
    unfolding authorize
    authorize-Adds header = Adds-free _ _ _ (Adds-lift _ _) λ req. Adds-free _ _ _ (logs _ _) λ _.
        Adds-free _ _ _ (Adds-lift _ _) λ chain_id. Adds-free _ _ _ (Adds-lift _ _) λ _.
          Adds-free _ _ _ (Adds-lift _ _) λ value. Adds-free _ _ _ (logs _ _) λ _.
            Adds-free _ _ _ reads λ time.
              Adds-free _ _ _ draws
                λ nonce. Adds-bind b 0 _ _ (k.signs _) λ signature. Adds-pure _ _

    payment_answer-Adds :
        (resp : Response) → Adds f 0 (payment_answer env gateway_url endpoint rpc_body account resp)
    unfolding payment_answer
    payment_answer-Adds resp =
        search (free_rules, reads, logs, k.stores, k.fails, forgives) depth 12

    settle-Adds :
        (payload : PaymentPayload)
        → Adds f (a + 0) (settle env gateway_url endpoint rpc_body account payload)
    unfolding settle
    settle-Adds payload =
        Adds-free _ _ _ (logs _ _)
          λ _. Adds-bind a 0 _ _ (k.fetches _) λ resp. payment_answer-Adds resp

    execute-Adds :
        (token : String) → Adds f (a + 0) (execute env gateway_url endpoint rpc_body account token)
    unfolding execute
    execute-Adds token = Adds-bind a 0 _ _ (k.fetches _) λ resp. search (free_rules, logs) depth 9

    pay-Adds :
        (header : String)
        → Adds f (b + 0 + (a + 0 + (a + 0))) (pay env gateway_url endpoint rpc_body account header)
    unfolding pay
    pay-Adds header =
        Adds-bind _ _ _ _ (authorize-Adds header)
          λ payload. Adds-bind _ _ _ _ (settle-Adds payload) λ token. execute-Adds token

    process_request-Adds :
        (w : World)
        → f (process_request env gateway_url endpoint rpc_body account w).1 ≤ f w + (4 * a + b)
    process_request-Adds w = omega (arith, bound.at w)
      where
        bound :
            Adds f
              (a + 0 + (a + 0 + (b + 0 + (a + 0 + (a + 0)))))
              (process_request env gateway_url endpoint rpc_body account)
        bound =
            unfold process_request in
            Adds-free _ _ _ (Adds-lift _ _) λ method.
              Adds-bind _ _ _ _ (fast_path-Adds method) λ answered.
                Adds-by_option _ _ _ _
                  (Adds-bind _ _ _ _ probe-Adds
                    λ probed. Adds-by_sum _ _ _ _ (λ result. Adds-pure _ _) pay-Adds)
                  (λ result. Adds-pure _ _)

module _ (env : Env) (gateway_url endpoint : String) (rpc_body : Json) (account : Account) where
  count_requests : StepsAdd env gateway_url endpoint rpc_body account (λ w. requests w.trace) 1 0
  unfolding now random_nonce log record_event gateway_fetch sign clear_cached_token set_cached_token
      set_failure clear_failure ◌>>=◌
  count_requests = record {
    reads = record { at = λ w. omega arith };
    draws = record { at = λ w. omega arith };
    logs = λ d message. record { at = λ w. omega arith };
    fetches = λ request. record { at = λ w. omega arith };
    signs = λ t. record { at = λ w. omega arith };
    clears = record { at = λ w. omega arith };
    stores = λ token. record { at = λ w. omega arith };
    fails = λ time. record { at = λ w. omega arith };
    forgives = record { at = λ w. omega arith };
  }

  count_signatures :
      StepsAdd env gateway_url endpoint rpc_body account (λ w. signatures w.trace) 0 1
  unfolding now random_nonce log record_event gateway_fetch sign clear_cached_token set_cached_token
      set_failure clear_failure ◌>>=◌
  count_signatures = record {
    reads = record { at = λ w. omega arith };
    draws = record { at = λ w. omega arith };
    logs = λ d message. record { at = λ w. omega arith };
    fetches = λ request. record { at = λ w. omega arith };
    signs = λ t. record { at = λ w. omega arith };
    clears = record { at = λ w. omega arith };
    stores = λ token. record { at = λ w. omega arith };
    fails = λ time. record { at = λ w. omega arith };
    forgives = record { at = λ w. omega arith };
  }

  -- One RPC call sends at most four requests to the gateway and signs at most one payment, on
  -- every path, whatever the gateway answers.
  pub process_request_bounds :
      (w : World)
      → let w' = (process_request env gateway_url endpoint rpc_body account w).1 in
        (requests w'.trace ≤ requests w.trace + 4) × (signatures w'.trace ≤ signatures w.trace + 1)
  process_request_bounds w =
      let r =
        process_request-Adds env gateway_url endpoint rpc_body account (λ w. requests w.trace) 1 0
          count_requests w in
      let s =
        process_request-Adds env gateway_url endpoint rpc_body account (λ w. signatures w.trace) 0 1
          count_signatures w in
      (omega arith, omega arith)
