-- ===== src/Rpc/Routing.antt =====
-- client/src/main/rpc.ts: which calls go through the light client.
use umbra_gateway.Prelude.{
  String, List, ◌∷◌, Option, none, some, Bool, true, false, is_some, not, ◌&&◌, ◌≡◌, refl,
  Result-cases, if◌then◌else◌, inl, inr,
}
use umbra_gateway.Prelude.Json.{Json}
use umbra_gateway.Prelude.Text.{truthy}
use umbra_gateway.Exec.{Exec, pure, gets, throw, ◌>>=◌, by_option, catch}
use umbra_gateway.Exec.Stable.{Stable, Stable-after, Stable-by_option, Stable-pure}
use umbra_gateway.X402.Types.{World, now, log, record_event}
use umbra_gateway.Helios.{is_used}
use umbra_gateway.Rpc.Calls
use umbra_gateway.Rpc.Calls.{DirectStable, CallStable}
use umbra_gateway.Rpc.{Env, State, in_world, ask, via_helios, direct, route, rpc_call, is_bypassed}

-- A property of the state that does not depend on the payment layer.
module _ {ℓ} {P : State → Type ℓ}
    (free : (w : World) (s : State) → P s → P (record s { world = w })) where
  pub in_world-Stable : {A : Type 0} (m : Exec World A) → Stable P (in_world m)
  unfolding in_world
  in_world-Stable m = record { kept = λ {w} p. free (m w.world).1 w p }

  steps : (env : Env) → DirectStable env (λ url. Unit {ℓ}) P
  steps env = record {
    logs = λ d message. in_world-Stable _;
    reads = in_world-Stable _;
    requests = λ url body account is loaded. in_world-Stable _;
  }

  pub direct-Stable :
      (env : Env) (url method : String) (params : Json) → Stable P (direct env url method params)
  direct-Stable env url method params =
      Calls.direct-Stable env (λ url. Unit {ℓ}) (steps env) url method params tt

-- A property that does not depend on the requests to the light client either.
module _ {ℓ} {P : State → Type ℓ}
    (free : (w : World) (s : State) → P s → P (record s { world = w }))
    (unasked : (l : List (String × Json)) (s : State) → P s → P (record s { asked = l }))
    (env : Env) where
  pub calls : CallStable env (λ url. Unit {ℓ}) P
  unfolding ask
  calls = record {
    steps = steps free env;
    known = λ s p url found. tt;
    asks = λ method params. record { kept = λ {w} p. unasked ((method, params) ∷ w.asked) w p };
  }

  pub rpc_call-Stable : (method : String) (params : Json) → Stable P (rpc_call env method params)
  rpc_call-Stable = Calls.rpc_call-Stable env (λ url. Unit {ℓ}) calls

via_helios-asks :
    (env : Env) (method : String) (params : Json) (s : State)
    → (via_helios env method params s).1.asked ≡ (method, params) ∷ s.asked
unfolding via_helios in_world ask log now record_event ◌>>=◌ catch
via_helios-asks env method params s = elim (Result-cases (env.ask_helios s.asked method params)) [
  | inl (value, good) ↦ rw good refl
  | inr (message, bad) ↦ rw bad refl
]

route-asks :
    (env : Env) (b : Bool) (url method : String) (params : Json) (s : State)
    → (route env b url method params s).1.asked
      ≡ (if b then (method, params) ∷ s.asked else s.asked)
unfolding route ◌>>=◌
route-asks env false url method params s =
    (direct-Stable {P = λ t. t.asked ≡ s.asked} (λ w t e. e) env url method params).kept refl
route-asks env true url method params s =
    Stable-after {Good = λ t. t.asked ≡ (method, params) ∷ s.asked}
      (λ answered. by_option answered (direct env url method params) pure)
      (via_helios env method params s).0
      (λ answered _.
        Stable-by_option pure answered (direct env url method params) Stable-pure
          (direct-Stable (λ w t e. e) env url method params))
      (via_helios-asks env method params s)

-- An RPC call asks the light client exactly if a gateway is set, the light client has synced and
-- the method is not one of the two that it cannot verify; it then asks once, whether or not the
-- call falls back to the gateway.
pub rpc_call_asks :
    (env : Env) (method : String) (params : Json) (s : State)
    → (rpc_call env method params s).1.asked ≡ (
        if is_some (truthy s.gateway_url) && (is_used s.helios && not (is_bypassed method))
        then (method, params) ∷ s.asked
        else s.asked)
unfolding rpc_call ◌>>=◌
rpc_call_asks env method params s = asks (truthy s.gateway_url)
  where
    asks :
        (url : Option String)
        → (by_option url
            (throw "No gateway connected. Set a gateway URL first.")
            (λ gateway_url. gets (λ t. t.helios) >>= λ helios.
              route env (is_used helios && not (is_bypassed method)) gateway_url method params)
            s).1.asked
          ≡ (if is_some url && (is_used s.helios && not (is_bypassed method))
              then (method, params) ∷ s.asked
              else s.asked)
    asks none = unfold by_option in unfold throw in refl
    asks (some url) =
        unfold by_option in
        unfold ◌>>=◌ in
        route-asks env (is_used s.helios && not (is_bypassed method)) url method params s
