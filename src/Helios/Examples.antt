-- ===== src/Helios/Examples.antt =====
-- client/src/main/helios.ts: the theorems at runs of the light client.
use umbra_gateway.Prelude.{arith, String, none, some, List, [], ◌∷◌, ◌≡◌, true, false, refl, inl}
use umbra_gateway.Helios.{
  Helios, initial, synced, syncing, error, init_helios, shutdown_helios, Ended, made, done, failed,
  Event, inits, shuts_down, ends, run, is_used, step, waiting_at,
}
use umbra_gateway.Helios.Lifecycle.{Rests, InTurn, start, init, in_turn-Rests}
use umbra_gateway.Helios.Returns.{calls_return}
use umbra_gateway.Helios.Interleaving.{final, unsynced_unused}

abbrev rpc : String
rpc = "http://g"

abbrev running : Helios
running = record { provider = some 1; ready = true; execution_rpc = some rpc; status = synced }

running-InTurn : InTurn (some rpc) running
unfolding init_helios initial umbra_gateway.Helios.proceed
running-InTurn = init none initial rpc (done ∷ done ∷ made 1 ∷ done ∷ []) running start refl

in_turn-Rests_example : Rests (some rpc) running
in_turn-Rests_example = in_turn-Rests (some rpc) running running-InTurn

abbrev begun : List Event
begun = inits rpc ∷ ends 0 (made 1) ∷ []

unsynced_unused_example : is_used (final begun) ≡ false
unfolding run initial
unsynced_unused_example = unsynced_unused begun (inl refl)

-- a shutdown while the light client of the first call syncs
abbrev overlapping : List Event
overlapping =
    ends 0 done
    ∷ ends 0 done
    ∷ ends 0 (made 1)
    ∷ shuts_down
    ∷ ends 1 done
    ∷ ends 0 failed
    ∷ ends 1 done
    ∷ ends 0 done
    ∷ []

calls_return_example :
    waiting_at 0
      (run (step (record { helios = initial; calls = [] }) (inits rpc)) overlapping).calls
    ≡ none
unfolding step init_helios umbra_gateway.Helios.begin initial
calls_return_example =
    calls_return 0 (step (record { helios = initial; calls = [] }) (inits rpc)) overlapping
      (omega arith) (omega arith)
