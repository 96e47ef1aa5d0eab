-- ===== src/WalletConnect/Requests.antt =====
-- client/src/renderer/walletconnect.ts: what an approved or rejected request does.
use umbra_gateway.Prelude.{
  ℕ, ◌+◌, String, List, [], ◌∷◌, some, Bool, ◌≡◌, refl, ap, ◌∙◌, arith, Result, ok, err,
  if◌then◌else◌, ◌||◌, suc,
}
use umbra_gateway.Prelude.Json.{Json}
use umbra_gateway.Prelude.Text.{◌===◌}
use umbra_gateway.Exec.{◌>>=◌, ◌>>◌, by_option, catch, lift, pure, throw}
use umbra_gateway.WalletConnect.{
  Env, State, Effect, ipc, responds, Answer, result, error, SessionRequest, call_kit, call_main,
  handle_method, answer_request, approve_request, reject_request,
}

-- what the other application is told
abbrev pub answer_of : Result Json → Answer
answer_of (ok value) = result value
answer_of (err message) = error 5000 message

-- what the caller of `approveRequest` sees
abbrev pub outcome_of : Result Json → Result (Unit {0})
outcome_of (ok value) = ok tt
outcome_of (err message) = err message

-- the methods that reach the main process
abbrev pub is_signing : String → Bool
is_signing method =
    method === "personal_sign"
    || method === "eth_sign"
    || (method === "eth_signTypedData" || method === "eth_signTypedData_v4")
    || method === "eth_sendTransaction"

abbrev pub ipc_calls : {Namespaces : Type 0} → List (Effect Namespaces) → ℕ
ipc_calls [] = 0
ipc_calls (ipc c ∷ es) = suc (ipc_calls es)
ipc_calls (_ ∷ es) = ipc_calls es

module _ {Params Namespaces : Type 0} (env : Env Params Namespaces) where
  approved :
      (s : State Namespaces) (event : SessionRequest)
      → s.wallet_kit ≡ some tt
      → approve_request env event s ≡ answer_request env event s
  unfolding approve_request ◌>>=◌ by_option
  approved s event on = ap (λ kit. by_option kit (pure tt) (λ _. answer_request env event) s) on

  answered :
      (event : SessionRequest) (r : Result Json) (s : State Namespaces)
      → ((es : List (Effect Namespaces)) (e : Effect Namespaces) → env.kit es e ≡ ok tt)
      → catch
          (lift r >>= λ value. call_kit env (responds event.topic event.id (result value)))
          (λ message.
            call_kit env (responds event.topic event.id (error 5000 message)) >> throw message)
          s
        ≡ (outcome_of r, record s { trace = responds event.topic event.id (answer_of r) ∷ s.trace })
  unfolding call_kit ◌>>=◌ catch
  answered event (ok value) s delivers =
      rw (delivers s.trace (responds event.topic event.id (result value))) refl
  answered event (err message) s delivers =
      rw (delivers s.trace (responds event.topic event.id (error 5000 message))) refl

  -- While WalletKit is set and delivers every answer, an approved request is answered once, after
  -- the method was run: with the value, or with error 5000 and the message of the method's error,
  -- which the caller then sees too.
  pub approve_request_answers :
      (s : State Namespaces) (event : SessionRequest)
      → s.wallet_kit ≡ some tt
      → ((es : List (Effect Namespaces)) (e : Effect Namespaces) → env.kit es e ≡ ok tt)
      → let (r, s1) = handle_method env event.method event.params s in
        approve_request env event s ≡ (
          outcome_of r,
          record s1 { trace = responds event.topic event.id (answer_of r) ∷ s1.trace },
        )
  unfolding answer_request ◌>>=◌ catch
  approve_request_answers s event on delivers =
      approved s event on
      ∙ (answered event (handle_method env event.method event.params s).0
          (handle_method env event.method event.params s).1 delivers)

  handle_method-calls :
      (method : String) (params : List Json) (s : State Namespaces)
      → ipc_calls (handle_method env method params s).1.trace
        ≡ ipc_calls s.trace + (if is_signing method then 1 else 0)
  unfolding handle_method call_main lift pure throw
  handle_method-calls method params s = ground arith

  -- While WalletKit is set, an approved request reaches the main process, which holds the key,
  -- exactly once if its method is one of the five that sign, and never otherwise, whether or not
  -- WalletKit delivers answers.
  pub approve_request_calls :
      (s : State Namespaces) (event : SessionRequest)
      → s.wallet_kit ≡ some tt
      → ipc_calls (approve_request env event s).1.trace
        ≡ ipc_calls s.trace + (if is_signing event.method then 1 else 0)
  unfolding answer_request ◌>>=◌ catch
  approve_request_calls s event on =
      ap (λ p. ipc_calls p.1.trace) (approved s event on)
      ∙ (calls_after (handle_method env event.method event.params s).0
            (handle_method env event.method event.params s).1
          ∙ handle_method-calls event.method event.params s)
    where
      calls_after :
          (r : Result Json) (s : State Namespaces)
          → ipc_calls
              (catch
                (lift r >>= λ value. call_kit env (responds event.topic event.id (result value)))
                (λ message.
                  call_kit env (responds event.topic event.id (error 5000 message))
                  >> throw message)
                s).1.trace
            ≡ ipc_calls s.trace
      calls_after (ok value) s = unfold ◌>>=◌ in unfold catch in unfold call_kit in ground arith
      calls_after (err message) s = unfold ◌>>=◌ in unfold catch in unfold call_kit in ground arith

  -- A request that the user rejects does not reach the main process; the other application is told
  -- of the rejection by error 4001, once, and nothing else happens.
  pub reject_request_lem :
      (s : State Namespaces) (event : SessionRequest)
      → s.wallet_kit ≡ some tt
      → let s1 = (reject_request env event s).1 in
        (ipc_calls s1.trace ≡ ipc_calls s.trace)
        × (s1.trace
            ≡ responds event.topic event.id (error 4001 "User rejected the request") ∷ s.trace)
  unfolding reject_request call_kit ◌>>=◌ by_option
  reject_request_lem s event on = (rw (on, by_option) refl, rw (on, by_option) refl)

  -- While WalletKit is set, if the answer with a value cannot be delivered, an answer with error
  -- 5000 is sent after it, although the method was run.
  pub undelivered_result :
      (s s1 : State Namespaces) (event : SessionRequest) (value : Json) (message : String)
      → s.wallet_kit ≡ some tt
      → handle_method env event.method event.params s ≡ (ok value, s1)
      → env.kit s1.trace (responds event.topic event.id (result value)) ≡ err message
      → (approve_request env event s).1.trace
        ≡ responds event.topic event.id (error 5000 message)
          ∷ responds event.topic event.id (result value)
          ∷ s1.trace
  unfolding answer_request call_kit ◌>>=◌ catch
  undelivered_result s s1 event value message on ran lost =
      ap (λ p. p.1.trace) (approved s event on) ∙ rw ran (rw lost (ground arith))
