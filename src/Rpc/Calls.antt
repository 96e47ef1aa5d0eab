-- ===== src/Rpc/Calls.antt =====
-- client/src/main/rpc.ts: a property of the state that each step of an RPC call keeps is kept by the
-- call, and by the functions that are made of such calls and of signatures.
use mathlib.Core.Path.{subst}
use umbra_gateway.Prelude.{String, Option, some, Bool, true, false, ◌≡◌, ok}
use umbra_gateway.Prelude.Int.{ℤ}
use umbra_gateway.Prelude.Json.{Json}
use umbra_gateway.Prelude.Text.{truthy}
use umbra_gateway.Exec.{Exec}
use umbra_gateway.Exec.Stable.{
  Stable, stable_rules, Stable-bind, Stable-bind-lift, Stable-bind-gets, Stable-by_option,
  Stable-by_option-eq, Stable-throw, Stable-gets,
}
use umbra_gateway.X402.Types.{Account, Direction, now, log}
use umbra_gateway.X402.Request.{x402_request}
use umbra_gateway.X402.Request.Announcement.{truthy-some}
use umbra_gateway.Rpc.{
  Env, State, attempt, all, in_world, ask, via_helios, report, direct, route, rpc_call, set_gateway,
  clear_gateway,
}

module _ {ℓ} {P : State → Type ℓ} {A : Type 0} where
  pub attempt-Stable : (m : Exec State A) → Stable P m → Stable P (attempt m)
  unfolding attempt
  attempt-Stable m k = record { kept = λ h. k.kept h }

  pub all-Stable : (m n : Exec State A) → Stable P m → Stable P n → Stable P (all m n)
  unfolding all
  all-Stable m n km kn =
      Stable-bind _ _ (attempt-Stable m km)
        λ first. Stable-bind _ _ (attempt-Stable n kn) λ second. search stable_rules

module _ {ℓ} (env : Env) (IsUrl : String → Type ℓ) where
  -- The steps of a call of the gateway; `IsUrl` is what is known of its URL.
  pub record DirectStable (P : State → Type ℓ) : Type ℓ where
    pub logs : (d : Direction) (message : String) → Stable P (in_world (log env.x402 d message))
    pub reads : Stable P (in_world (now env.x402))
    pub requests :
        (url : String) (body : Json) (account : Account)
        → IsUrl url
        → env.load_key ≡ ok account
        → Stable P (in_world (x402_request env.x402 url body account))

  -- The steps of a call that may go through the light client.
  pub record CallStable (P : State → Type ℓ) : Type ℓ where
    pub steps : DirectStable P
    pub known : (s : State) → P s → (url : String) → truthy s.gateway_url ≡ some url → IsUrl url
    pub asks : (method : String) (params : Json) → Stable P (ask env method params)

  module _ {P : State → Type ℓ} (k : DirectStable P) where
    pub logs-Stable :
        (d : Direction) (message : String) → Stable P (in_world (log env.x402 d message))
    logs-Stable = k.logs

    report-Stable :
        (method : String) (answer : Json) (credits : Option ℤ)
        → Stable P (report env method answer credits)
    unfolding report
    report-Stable method answer credits = search (stable_rules, logs-Stable) depth 9

    pub direct-Stable :
        (url method : String) (params : Json) → IsUrl url → Stable P (direct env url method params)
    unfolding direct
    direct-Stable url method params is = Stable-bind-lift _ _ λ account loaded.
        Stable-bind _ _ k.reads λ time. Stable-bind _ _ (k.logs _ _) λ _.
          Stable-bind _ _ (k.requests url _ account is loaded)
            λ answer. search (stable_rules, report-Stable)

  module _ {P : State → Type ℓ} (k : CallStable P) where
    reads : Stable P (in_world (now env.x402))
    reads = k.steps.reads

    asks : (method : String) (params : Json) → Stable P (ask env method params)
    asks = k.asks

    via_helios-Stable : (method : String) (params : Json) → Stable P (via_helios env method params)
    unfolding via_helios
    via_helios-Stable method params =
        search (stable_rules, logs-Stable k.steps, reads, asks) depth 12

    route-Stable :
        (b : Bool) (url method : String) (params : Json)
        → IsUrl url
        → Stable P (route env b url method params)
    unfolding route
    route-Stable true url method params is =
        Stable-bind _ _ (via_helios-Stable method params) λ answered.
          Stable-by_option _ answered _ (λ value. search stable_rules)
            (direct-Stable k.steps url method params is)
    route-Stable false url method params is = direct-Stable k.steps url method params is

    pub rpc_call-Stable : (method : String) (params : Json) → Stable P (rpc_call env method params)
    unfolding rpc_call
    rpc_call-Stable method params =
        Stable-bind-gets _ {Known = λ url. (x : String) → truthy url ≡ some x → IsUrl x} _ k.known
          λ url known.
            Stable-by_option-eq _ _ _
              (λ gateway_url found.
                Stable-bind _ _ (Stable-gets _)
                  λ helios. route-Stable _ gateway_url method params (known gateway_url found))
              (Stable-throw _)

-- What is known of the gateway's URL after a call that sets or clears it.
module _ {ℓ} (IsUrl : String → Type ℓ) where
  pub known-set_gateway :
      (url : String) (s : State)
      → IsUrl url
      → (x : String) → truthy (set_gateway url s).gateway_url ≡ some x
      → IsUrl x
  unfolding set_gateway
  known-set_gateway url s is x found = subst IsUrl (same (truthy-some (some url) x found)) is
    where
      same : some url ≡ some x → url ≡ x
      same e = cc e

  pub known-clear_gateway :
      (s : State) (x : String) → truthy (clear_gateway s).gateway_url ≡ some x → IsUrl x
  unfolding clear_gateway
  known-clear_gateway s x found = cc found
