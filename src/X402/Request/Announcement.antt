-- ===== src/X402/Request/Announcement.antt =====
-- client/src/main/x402Client.ts: what the header is for which `processRequest` pays.
use umbra_gateway.Prelude.{
  String, List, Option, none, some, Bool, true, false, ◌≡◌, ok, ◌⊎◌, inl, inr, ==_iff, ◌==◌,
  if◌then◌else◌,
}
use umbra_gateway.Prelude.Json.{Json}
use umbra_gateway.Prelude.Text.{truthy, ◌===◌}
use umbra_gateway.Exec.Yields.{
  Yields, Yields-throw, Yields-pure, Yields-if, Yields-by_option, Yields-bind,
}
use umbra_gateway.X402.Types.{Env, World, Account, Event, QueueResult, Response, gateway_fetch}
use umbra_gateway.X402.Protocol.{post}
use umbra_gateway.X402.Request.{probe_answer, probe}

pub truthy-some : (o : Option String) (s : String) → truthy o ≡ some s → o ≡ some s
truthy-some none s e = cc e
truthy-some (some t) s e = kept (t === "") e
  where
    kept : (b : Bool) → (if b then none else some t) ≡ some s → some t ≡ some s
    kept true e = cc e
    kept false e = e

module _ (env : Env) (gateway_url endpoint : String) (rpc_body : Json) (account : Account) where
  -- The header of an answer with status 402 that the gateway gives to a request without token or
  -- payment.
  pub record Announced (header : String) : Type 0 where
    pub trace : List Event
    pub resp : Response
    pub answered : env.fetch trace (post endpoint rpc_body none none) ≡ ok resp
    pub status : resp.status ≡ 402
    pub payment_required : resp.payment_required ≡ some header

  -- what the probe returns: an answer, or a header that was announced
  abbrev pub Pays : QueueResult ⊎ String → Type 0
  Pays (inl answer) = Unit
  Pays (inr header) = Announced header

  probe_answer-Yields :
      (trace : List Event) (resp : Response)
      → env.fetch trace (post endpoint rpc_body none none) ≡ ok resp
      → Yields Pays (probe_answer env gateway_url endpoint rpc_body account resp)
  unfolding probe_answer
  probe_answer-Yields trace resp answered =
      Yields-if (resp.status == 402) _ _
        (λ is_402.
          Yields-by_option (truthy resp.payment_required) _ _ (Yields-throw _) λ header held.
            Yields-pure (inr header) (record {
              trace = trace;
              resp = resp;
              answered = answered;
              status = (==_iff resp.status 402).0 is_402;
              payment_required = truthy-some resp.payment_required header held;
            }))
        (λ _.
          Yields-if (resp.status == 200) _ _
            (λ _. Yields-bind _ _ λ _ body _. Yields-bind _ _ λ _ _ _. Yields-pure _ tt)
            (λ _. Yields-bind _ _ λ _ text _. Yields-throw _))

  fetched :
      (w : World) (resp : Response)
      → (gateway_fetch env (post endpoint rpc_body none none) w).0 ≡ ok resp
      → env.fetch w.trace (post endpoint rpc_body none none) ≡ ok resp
  unfolding gateway_fetch
  fetched w resp e = e

  pub probe-Yields : Yields Pays (probe env gateway_url endpoint rpc_body account)
  unfolding probe
  probe-Yields = Yields-bind _ _ λ _ blocked _.
      Yields-if blocked _ _ (λ _. Yields-bind _ _ λ _ left _. Yields-throw _)
        (λ _. Yields-bind _ _ λ _ _ _.
          Yields-bind _ _
            λ w resp answered. probe_answer-Yields w.trace resp (fetched w resp answered))
