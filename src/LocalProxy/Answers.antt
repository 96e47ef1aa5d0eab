-- ===== src/LocalProxy/Answers.antt =====
-- client/src/main/localProxy.ts: every request is answered.
use umbra_gateway.Prelude.{
  ℕ, String, ◌∷◌, Option, none, some, ◌≡◌, ◌≢◌, refl, ap, ◌∙◌, ok, err, Result, Bool-cases, inl,
  inr, arith,
}
use umbra_gateway.Prelude.Int.{ℤ, neg}
use umbra_gateway.Prelude.Json.{Json, null, bool, num, str, arr, obj, property}
use umbra_gateway.X402.Protocol.{◌<>◌}
use umbra_gateway.Exec.{◌>>=◌, catch, lift, modify}
use umbra_gateway.LocalProxy.{
  Env, State, respond, respond_error, in_world, forward, recover, handle_body, handle_parsed,
  handle_request,
}

-- The request was answered once: nothing was thrown, and one response was added.
pub record Answered (before : State) (outcome : Result (Unit {0}) × State) : Type 0 where
  pub returned : outcome.0 ≡ ok tt
  pub status : ℕ
  pub answer : Json
  pub added : outcome.1.responses ≡ (status, answer) ∷ before.responses

property-ok :
    (name : String) (body : Json) → body ≢ null → (o : Option Json) × (property name body ≡ ok o)
unfolding property
property-ok name null h = absurd (h refl)
property-ok name (bool b) h = (_, refl)
property-ok name (num n) h = (_, refl)
property-ok name (str s) h = (_, refl)
property-ok name (arr items) h = (_, refl)
property-ok name (obj fields) h = (_, refl)

respond_error-Answered :
    (body : Json) (code : ℤ) (message : String) (s : State)
    → body ≢ null
    → Answered s (respond_error body code message s)
unfolding respond_error respond ◌>>=◌
respond_error-Answered body code message s h =
    let (o, e) = property-ok "id" body h in
    rw e (record { returned = refl; status = _; answer = _; added = refl })

forward-responses :
    (env : Env) (url : String) (body : Json) (s : State)
    → (forward env url body s).1.responses ≡ s.responses
unfolding forward in_world ◌>>=◌
forward-responses env url body s = ground arith

recover-Answered :
    (env : Env) (url : String) (body : Json) (message : String) (s s1 : State)
    → body ≢ null
    → s1.responses ≡ s.responses
    → Answered s (recover env url body message s1)
unfolding recover ◌>>=◌
recover-Answered env url body message s s1 h same =
    let reported : State = record s1 {
      errors = ("[proxy] gateway error: " <> message) ∷ s1.errors;
    } in
    let a = respond_error-Answered body (neg 32603) message reported h in
    record {
      returned = a.returned;
      status = a.status;
      answer = a.answer;
      added = a.added ∙ ap (◌∷◌ (a.status, a.answer)) same;
    }

settled :
    (env : Env) (url : String) (body : Json) (r : Result Json) (s s1 : State)
    → body ≢ null
    → s1.responses ≡ s.responses
    → Answered s (catch (lift r >>= respond 200) (recover env url body) s1)
unfolding respond ◌>>=◌ catch
settled env url body (ok value) s s1 h same = record {
  returned = refl;
  status = 200;
  answer = value;
  added = ap (◌∷◌ (200, value)) same;
}
settled env url body (err message) s s1 h same = recover-Answered env url body message s s1 h same

body-Answered :
    (env : Env) (url : String) (body : Json) (s : State)
    → body ≢ null
    → Answered s (handle_body env url body s)
unfolding handle_body ◌>>=◌ catch forward recover
body-Answered env url body s h = elim (Bool-cases env.has_key) [
  | inl has ↦ rw has (
      settled env url body (forward env url body s).0 s (forward env url body s).1 h
        (forward-responses env url body s))
  | inr keyless ↦
      rw keyless (
        respond_error-Answered body (neg 32000) "No wallet key — import a key to enable Helios" s h)
]

parsed-Answered :
    (env : Env) (url : String) (p : Option Json) (s : State)
    → p ≢ some null
    → Answered s (handle_parsed env url p s)
unfolding handle_parsed respond modify
parsed-Answered env url none s h = record {
  returned = refl;
  status = 400;
  answer = _;
  added = refl;
}
parsed-Answered env url (some body) s h = body-Answered env url body s (λ e. h (ap some e))

-- Every request whose body is not the JSON value `null` is answered exactly once, and its handler
-- does not throw: a body that cannot be parsed, a missing key, and any failure of the payment or of
-- the gateway included.
pub handle_request-Answered :
    (env : Env) (url raw : String) (s : State)
    → env.parse raw ≢ some null
    → Answered s (handle_request env url raw s)
unfolding handle_request
handle_request-Answered env url raw s h = parsed-Answered env url (env.parse raw) s h
