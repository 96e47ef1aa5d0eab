-- ===== src/Helios/Interleaving.antt =====
-- client/src/main/helios.ts: calls that overlap, in any order of their steps.
use umbra_gateway.Prelude.{
  ℕ, String, Option, none, some, List, [], ◌∷◌, true, false, ◌≡◌, ◌⊎◌, refl, arith,
}
use umbra_gateway.Helios.{
  Helios, disconnected, syncing, synced, error, initial, Waiting, syncs, begin, init_helios,
  shutdown_helios, Ended, made, done, failed, proceed, give_up, System, Event, inits, shuts_down,
  ends, step, run, is_used, waiting_at, go_on,
}

abbrev pub final : List Event → Helios
final es = (run (record { helios = initial; calls = [] }) es).helios

-- The light client is ready only under these two statuses.
pub record Honest (h : Helios) : Type 0 where
  pub shown : h.ready ≡ true → (h.status ≡ synced) ⊎ (h.status ≡ disconnected)

init-Honest : (rpc : String) (h : Helios) → Honest h → Honest (init_helios rpc h).0
unfolding init_helios begin
init-Honest rpc h v = ground arith

shutdown-Honest : (h : Helios) → Honest h → Honest (shutdown_helios h).0
unfolding shutdown_helios
shutdown-Honest h v = ground arith

proceed-Honest : (w : Waiting) (e : Ended) (h : Helios) → Honest h → Honest (proceed w e h).0
unfolding proceed begin give_up
proceed-Honest w e h v = ground arith

step-Honest : (s : System) (e : Event) → Honest s.helios → Honest (step s e).helios
unfolding step
step-Honest s (inits rpc) v = init-Honest rpc s.helios v
step-Honest s shuts_down v = shutdown-Honest s.helios v
step-Honest s (ends n ended) v = goes_on (waiting_at n s.calls)
  where
    goes_on : (w : Option Waiting) → Honest (go_on s n ended w).helios
    goes_on none = v
    goes_on (some w) = proceed-Honest w ended s.helios v

Honest-run : (s : System) (es : List Event) → Honest s.helios → Honest (run s es).helios
unfolding run
Honest-run s [] v = v
Honest-run s (e ∷ es) v = Honest-run (step s e) es (step-Honest s e v)

start-Honest : Honest initial
unfolding initial
start-Honest = record { shown = λ e. cc e }

unused : (h : Helios) → Honest h → (h.status ≡ syncing) ⊎ (h.status ≡ error) → is_used h ≡ false
unused h v shown = ground arith

-- However many calls of `initHelios` and `shutdownHelios` overlap, and in whatever order their
-- waits end: while the status is `syncing` or `error`, no RPC call goes through the light client.
pub unsynced_unused :
    (es : List Event)
    → ((final es).status ≡ syncing) ⊎ ((final es).status ≡ error)
    → is_used (final es) ≡ false
unsynced_unused es shown = unused (final es) (Honest-run _ es start-Honest) shown

-- If `initHelios` is called again while the provider of a first call still syncs, and the wait of
-- the first call ends after the second provider was made, the second provider is used although it
-- has not synced.
pub stale_sync :
    (rpc1 rpc2 : String) (p q : ℕ) (stopped : Ended)
    → let s =
        run
          (record { helios = initial; calls = [] })
          (inits rpc1
            ∷ ends 0 done
            ∷ ends 0 done
            ∷ ends 0 (made p)
            ∷ inits rpc2
            ∷ ends 1 stopped
            ∷ ends 1 done
            ∷ ends 1 done
            ∷ ends 1 (made q)
            ∷ ends 0 done
            ∷ []) in
      (s.helios.provider ≡ some q)
      × (s.helios.status ≡ synced)
      × (is_used s.helios ≡ true)
      × (s.calls ≡ none ∷ some syncs ∷ [])
unfolding run step init_helios begin proceed initial
stale_sync rpc1 rpc2 p q stopped = (refl, refl, refl, refl)

-- If the first call's wait fails instead, it drops the second provider; once that has synced, the
-- status is `synced` but there is no light client.
pub failed_sync_drops :
    (rpc1 rpc2 : String) (p q : ℕ) (stopped : Ended)
    → let s =
        run
          (record { helios = initial; calls = [] })
          (inits rpc1
            ∷ ends 0 done
            ∷ ends 0 done
            ∷ ends 0 (made p)
            ∷ inits rpc2
            ∷ ends 1 stopped
            ∷ ends 1 done
            ∷ ends 1 done
            ∷ ends 1 (made q)
            ∷ ends 0 failed
            ∷ ends 1 done
            ∷ []) in
      (s.helios.provider ≡ none) × (s.helios.status ≡ synced) × (s.calls ≡ none ∷ none ∷ [])
unfolding run step init_helios begin proceed initial
failed_sync_drops rpc1 rpc2 p q stopped = (refl, refl, refl)
