-- ===== src/Helios/Shutdown.antt =====
-- client/src/main/helios.ts: a shutdown whose waits end before anything else happens.
use umbra_gateway.Prelude.{
  ℕ, List, [], ◌∷◌, ◌++◌, Option, none, some, false, ◌≡◌, refl, sym, ap, ◌∙◌, length,
}
use mathlib.Core.Path.{subst}
use umbra_gateway.Helios.{
  Helios, Waiting, System, Ended, shuts_down, ends, disconnected, shutdown_helios, proceed,
  waiting_at, put_at, go_on, step, run, is_used, stops_proxy, closes,
}

waiting_at-last :
    (ws : List (Option Waiting)) (w : Option Waiting) → waiting_at (length ws) (ws ++ w ∷ []) ≡ w
waiting_at-last [] w = refl
waiting_at-last (v ∷ ws) w = waiting_at-last ws w

put_at-last :
    (ws : List (Option Waiting)) (v w : Option Waiting)
    → put_at (length ws) v (ws ++ w ∷ []) ≡ ws ++ v ∷ []
put_at-last [] v w = refl
put_at-last (x ∷ ws) v w = ap (◌∷◌ x) (put_at-last ws v w)

-- the call made last goes on
step-last :
    (h : Helios) (ws : List (Option Waiting)) (w : Waiting) (ended : Ended)
    → step (record { helios = h; calls = ws ++ some w ∷ [] }) (ends (length ws) ended)
      ≡ (let (h', next) = proceed w ended h in record { helios = h'; calls = ws ++ next ∷ [] })
unfolding step
step-last h ws w ended =
    ap (go_on (record { helios = h; calls = ws ++ some w ∷ [] }) (length ws) ended)
      (waiting_at-last ws (some w))
    ∙ (let (h', next) = proceed w ended h in
        ap (λ calls. record { helios = h'; calls = calls }) (put_at-last ws next (some w)))

-- a call that has returned stays so
step-returned :
    (h : Helios) (ws : List (Option Waiting)) (ended : Ended)
    → step (record { helios = h; calls = ws ++ none ∷ [] }) (ends (length ws) ended)
      ≡ record { helios = h; calls = ws ++ none ∷ [] }
unfolding step
step-returned h ws ended =
    ap (go_on (record { helios = h; calls = ws ++ none ∷ [] }) (length ws) ended)
      (waiting_at-last ws none)

-- The state after a shutdown: no light client is used.
pub record Off (h : Helios) : Type 0 where
  pub unused : is_used h ≡ false
  pub status : h.status ≡ disconnected
  pub no_rpc : h.execution_rpc ≡ none

pub shutdown-Off :
    (s : System) (first second : Ended)
    → Off
        (run
          (step s shuts_down)
          (ends (length s.calls) first ∷ ends (length s.calls) second ∷ [])).helios
unfolding run step shutdown_helios proceed
shutdown-Off s first second = from s.helios.provider
  where
    -- with or without a provider
    from :
        (provider : Option ℕ)
        → Off
            (run
              (record { helios = record s.helios { provider = provider }; calls = s.calls })
              (shuts_down ∷ ends (length s.calls) first ∷ ends (length s.calls) second ∷ [])).helios
    from none =
        let h = record s.helios { provider = none } in
        let returned = record h { execution_rpc = none; status = disconnected } in
        subst (λ t. Off t.helios)
          (sym (
            ap (λ t. step t (ends (length s.calls) second)) (step-last h s.calls stops_proxy first)
            ∙ step-returned returned s.calls second))
          (record { unused = refl; status = refl; no_rpc = refl })
    from (some p) =
        let h = record s.helios { provider = some p } in
        let closed = record h { provider = none; ready = false } in
        subst (λ t. Off t.helios)
          (sym (
            ap (λ t. step t (ends (length s.calls) second)) (step-last h s.calls closes first)
            ∙ step-last closed s.calls stops_proxy second))
          (record { unused = refl; status = refl; no_rpc = refl })
