-- ===== src/X402/Queue/Examples.antt =====
-- client/src/main/x402Client.ts: the theorems on the queues at two gateways with three tasks.
use umbra_gateway.Prelude.{String, ℕ, List, [], ◌∷◌, ◌++◌, map, ◌≡◌, refl}
use umbra_gateway.X402.Queue.{Queues, Event, enqueues, finishes, start, settled_of, run}
use umbra_gateway.X402.Queue.Order.{IsServed, tasks_of, start-AllServed, run_in_order, AllServed}
use umbra_gateway.X402.Queue.Liveness.{pending, all_settled}

abbrev steps : List (Event String ℕ)
steps = enqueues "g" "first" ∷ enqueues "h" "other" ∷ enqueues "g" "second" ∷ finishes "g" 200 ∷ []

run_in_order_example :
    (tasks_of (run start steps) "g"
      ≡ tasks_of (start {Task = String} {Outcome = ℕ}) "g" ++ "first" ∷ "second" ∷ [])
    × IsServed (run start steps) "g"
run_in_order_example = run_in_order start steps "g" start-AllServed

abbrev two : List (Event String ℕ)
two = enqueues "g" "first" ∷ enqueues "h" "other" ∷ enqueues "g" "second" ∷ []

two-AllServed : AllServed (run start two)
two-AllServed url = (run_in_order start two url start-AllServed).1

all_settled_example :
    let s = run (run start two) (map (finishes "g") (200 ∷ 402 ∷ [])) in
    (settled_of s "g" ≡ settled_of (run start two) "g" ++ ("first", 200) ∷ ("second", 402) ∷ [])
    × (pending s "g" ≡ [])
unfolding umbra_gateway.Prelude.Map.get run umbra_gateway.X402.Queue.step
    umbra_gateway.X402.Queue.enqueue start umbra_gateway.Prelude.Map.set
all_settled_example =
    all_settled (run start two) "g" ("first" ∷ "second" ∷ []) (200 ∷ 402 ∷ []) two-AllServed refl
      refl
