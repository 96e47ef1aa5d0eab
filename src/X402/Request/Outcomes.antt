-- ===== src/X402/Request/Outcomes.antt =====
-- client/src/main/x402Client.ts: what a request leaves behind, and how the next one finds it.
use umbra_gateway.Prelude.{
  ℕ, suc, ◌+◌, ◌<◌, String, ◌≡◌, ◌≢◌, refl, ap, ◌∙◌, Option, ok, err, none, some, false, arith, ◌∷◌,
  lt→ltb,
}
use umbra_gateway.Prelude.Map
use umbra_gateway.Prelude.Map.{map_laws}
use umbra_gateway.Prelude.Json.{Json}
use umbra_gateway.Prelude.Text.{===_refl, show_ℕ, trim, truthy}
use umbra_gateway.Exec.{◌>>=◌, by_option, by_sum}
use umbra_gateway.X402.Types.{
  Env, World, Account, sent, logged, out, into, error, TokenEntry, Response, record_event, now, log,
  gateway_fetch,
}
use umbra_gateway.X402.Protocol.{◌<>◌, method_name, post, bearer, parse_credits, show_credits}
use umbra_gateway.X402.Token.{get_cached_token, set_cached_token, expiry, expires_soon}
use umbra_gateway.X402.Cooldown.{
  set_failure, clear_failure, is_in_cooldown, cooldown_remaining, is_recent, seconds_left,
}
use umbra_gateway.X402.Request.Bounds.{requests, signatures}
use umbra_gateway.X402.Request.Isolation.{Agree}
use umbra_gateway.X402.Request.{cached_answer, fast_path, probe, payment_answer, process_request}

truthy_idem : (o : Option String) (s : String) → truthy o ≡ some s → truthy (some s) ≡ some s
truthy_idem none s e = cc
truthy_idem (some a) s e = ground arith

module _ (env : Env) (gateway_url endpoint : String) (rpc_body : Json) (account : Account) where
  cooldown_blocks :
      (w : World) (t : ℕ) (method : String)
      → method_name rpc_body ≡ ok method
      → Map.get w.token_cache gateway_url ≡ none
      → Map.get w.last_payment_failure gateway_url ≡ some t
      → env.clock w.readings < t + 8000
      → process_request env gateway_url endpoint rpc_body account w ≡ (
        err (
            "x402 payment cooling down — "
            <> show_ℕ (seconds_left (env.clock (suc w.readings)) t)
            <> "s remaining"),
        record w { readings = suc (suc w.readings) },
      )
  unfolding process_request fast_path get_cached_token probe is_in_cooldown cooldown_remaining now
      is_recent ◌>>=◌ by_option by_sum
  cooldown_blocks w t method m none_cached failed recent =
      rw (m, none_cached, by_option)
        (rw (failed, is_in_cooldown, by_option) (rw (lt→ltb _ _ recent) (rw (failed) refl)))

  payment_rejected :
      (resp : Response) (text : String) (w : World)
      → resp.text ≡ ok text
      → resp.status ≢ 200
      → payment_answer env gateway_url endpoint rpc_body account resp w ≡ (
        err ("Payment rejected (" <> show_ℕ resp.status <> "): " <> trim text),
        record w {
          last_payment_failure =
              Map.set w.last_payment_failure gateway_url (env.clock (suc w.readings));
          readings = suc (suc w.readings);
          trace =
              logged (record {
                ts = env.clock w.readings;
                direction = error;
                message = "✗ payment failed: " <> trim text;
              })
              ∷ w.trace;
        },
      )
  unfolding payment_answer log now record_event set_failure ◌>>=◌
  payment_rejected resp text w t s = rw t (ground arith)

  pub payment_accepted :
      (resp : Response) (text token : String) (w : World)
      → resp.text ≡ ok text
      → resp.status ≡ 200
      → truthy resp.payment_token ≡ some token
      → payment_answer env gateway_url endpoint rpc_body account resp w ≡ (
        ok token,
        record w {
          token_cache =
              Map.set w.token_cache gateway_url
                (record { token = token; expires_at = expiry env (env.clock w.readings) token });
          last_payment_failure = Map.delete w.last_payment_failure gateway_url;
          readings = suc (suc w.readings);
          trace =
              logged (record {
                ts = env.clock (suc w.readings);
                direction = into;
                message = "← token issued";
              })
              ∷ w.trace;
        },
      )
  unfolding payment_answer log now record_event set_cached_token clear_failure ◌>>=◌ by_option
  payment_accepted resp text token w t s p = rw t (rw s (rw p refl))

  cached_token_used :
      (w : World) (method : String) (entry : TokenEntry) (resp : Response) (body : Json)
      → method_name rpc_body ≡ ok method
      → Map.get w.token_cache gateway_url ≡ some entry
      → truthy (some entry.token) ≡ some entry.token
      → expires_soon (env.clock w.readings) entry.expires_at ≡ false
      → env.fetch
          (logged (record {
            ts = env.clock (suc w.readings);
            direction = out;
            message = "→ " <> method <> " (cached token)";
          })
            ∷ w.trace)
          (post endpoint rpc_body (bearer entry.token) none)
        ≡ ok resp
      → resp.status ≡ 200
      → resp.json ≡ ok body
      → process_request env gateway_url endpoint rpc_body account w ≡ (
        ok (record { result = body; credits_remaining = parse_credits resp.rpc_credits_remaining }),
        record w {
          readings = suc (suc (suc w.readings));
          trace =
              logged (record {
                ts = env.clock (suc (suc w.readings));
                direction = into;
                message =
                    "← "
                    <> method
                    <> ": result (credits: "
                    <> show_credits (parse_credits resp.rpc_credits_remaining)
                    <> ")";
              })
              ∷ sent (post endpoint rpc_body (bearer entry.token) none)
              ∷ logged (record {
                ts = env.clock (suc w.readings);
                direction = out;
                message = "→ " <> method <> " (cached token)";
              })
              ∷ w.trace;
        },
      )
  unfolding process_request fast_path get_cached_token cached_answer log now record_event
      gateway_fetch ◌>>=◌ by_option
  cached_token_used w method entry resp body m c t e f s j =
      rw (m, c, by_option) (rw e (rw t (rw f (rw s (rw j refl)))))

  -- After a rejected payment, and while the clock reads less than eight seconds more, the next
  -- request to the same gateway that finds no cached token fails at once: it sends nothing, signs
  -- nothing and logs nothing. In between, requests to other gateways may have run.
  pub rejection_blocks :
      (w w2 : World) (resp : Response) (text method : String)
      → method_name rpc_body ≡ ok method
      → resp.text ≡ ok text
      → resp.status ≢ 200
      → Map.get w.token_cache gateway_url ≡ none
      → Agree gateway_url (payment_answer env gateway_url endpoint rpc_body account resp w).1 w2
      → env.clock w2.readings < env.clock (suc w.readings) + 8000
      → let (r, w3) = process_request env gateway_url endpoint rpc_body account w2 in
        (r
          ≡ err (
              "x402 payment cooling down — "
              <> show_ℕ (seconds_left (env.clock (suc w2.readings)) (env.clock (suc w.readings)))
              <> "s remaining"))
        × (w3.trace ≡ w2.trace)
  rejection_blocks w w2 resp text method m t s c agree recent =
      let e = payment_rejected resp text w t s in
      let failed : Map.get w2.last_payment_failure gateway_url ≡ some (env.clock (suc w.readings)) =
        agree.failure ∙ rw e (simp (map_laws, ===_refl)) in
      let uncached : Map.get w2.token_cache gateway_url ≡ none = agree.token ∙ rw e c in
      let blocked = cooldown_blocks w2 _ method m uncached failed recent in
      (ap (λ p. p.0) blocked, ap (λ p. p.1.trace) blocked)

  -- A token that an accepted payment bought is used by the next request, while its expiry lies more
  -- than thirty seconds ahead of the clock and if the gateway answers that request with status 200
  -- and JSON: the answer comes with one request, under the token, and with no second signature. In
  -- between, requests to other gateways may have run.
  pub paid_then_cached :
      (w w2 : World) (resp resp2 : Response) (text token method : String) (body : Json)
      → method_name rpc_body ≡ ok method
      → resp.text ≡ ok text
      → resp.status ≡ 200
      → truthy resp.payment_token ≡ some token
      → Agree gateway_url (payment_answer env gateway_url endpoint rpc_body account resp w).1 w2
      → expires_soon (env.clock w2.readings) (expiry env (env.clock w.readings) token) ≡ false
      → env.fetch
          (logged (record {
            ts = env.clock (suc w2.readings);
            direction = out;
            message = "→ " <> method <> " (cached token)";
          })
            ∷ w2.trace)
          (post endpoint rpc_body (bearer token) none)
        ≡ ok resp2
      → resp2.status ≡ 200
      → resp2.json ≡ ok body
      → let (r, w3) = process_request env gateway_url endpoint rpc_body account w2 in
        (r
          ≡ ok (record {
            result = body;
            credits_remaining = parse_credits resp2.rpc_credits_remaining;
          }))
        × (requests w3.trace ≡ requests w2.trace + 1)
        × (signatures w3.trace ≡ signatures w2.trace)
  paid_then_cached w w2 resp resp2 text token method body m t s p agree fresh f s2 j =
      let e = payment_accepted resp text token w t s p in
      let entry : TokenEntry = record {
        token = token;
        expires_at = expiry env (env.clock w.readings) token;
      } in
      let cached : Map.get w2.token_cache gateway_url ≡ some entry =
        agree.token ∙ rw e (simp (map_laws, ===_refl)) in
      let used =
        cached_token_used w2 method entry resp2 body m cached
          (truthy_idem resp.payment_token token p) fresh f s2 j in
      (
        ap (λ q. q.0) used,
        ap (λ q. requests q.1.trace) used ∙ omega arith,
        ap (λ q. signatures q.1.trace) used,
      )
