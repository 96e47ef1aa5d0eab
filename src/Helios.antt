-- ===== src/Helios.antt =====
-- client/src/main/helios.ts: the life of the light client. A call of `initHelios` or
-- `shutdownHelios` runs from one `await` to the next in one step, and the steps of several calls
-- may interleave: each call that is under way waits at one of the places of `Waiting`.
pub mod Lifecycle
pub mod Returns
pub mod Shutdown
pub mod Interleaving
pub mod Examples
use umbra_gateway.Prelude.{
  ℕ, zero, suc, String, Option, none, some, List, [], ◌∷◌, ◌++◌, Bool, true, false, is_some, ◌&&◌,
}

pub data HeliosStatus : Type 0 where
  disconnected syncing synced error : HeliosStatus

-- Providers are told apart by a number. `ready` is `heliosReady`.
pub record Helios : Type 0 where
  pub provider : Option ℕ
  pub ready : Bool
  pub execution_rpc : Option String
  pub status : HeliosStatus

unfoldable pub initial : Helios
initial = record { provider = none; ready = false; execution_rpc = none; status = disconnected }

-- Where a call waits. `stops` is the shutdown of the provider before a new one is made, `imports` the
-- loading of the library, `starts_proxy` the start of the local proxy, `creates`
-- `createHeliosProvider` and `syncs` `waitSynced`; `closes` is the shutdown in `shutdownHelios`, and
-- `stops_proxy` its wait for `stopLocalProxy`.
pub data Waiting : Type 0 where
  stops : String → Waiting
  imports : Waiting
  starts_proxy : Waiting
  creates : Waiting
  syncs : Waiting
  closes : Waiting
  stops_proxy : Waiting

-- The state of the module, and where the call goes on; `none` where it has returned.
abbrev pub Next : Type 0
Next = Helios × Option Waiting

-- The middle of `initHelios`, after the teardown.
unfoldable pub begin : String → Helios → Next
begin rpc h = (record h { execution_rpc = some rpc; ready = false; status = syncing }, some imports)

-- `initHelios`, up to its first wait
pub init_helios : String → Helios → Next
unfolding begin
init_helios rpc h = elim h.provider [ none ↦ begin rpc h | some p ↦ (h, some (stops rpc)) ]

-- `shutdownHelios`, up to its first wait
pub shutdown_helios : Helios → Next
shutdown_helios h = elim h.provider [ none ↦ (h, some stops_proxy) | some p ↦ (h, some closes) ]

-- the catch block of `initHelios`
unfoldable pub give_up : Helios → Next
give_up h = (record h { provider = none; ready = false; status = error }, none)

-- A call goes on when what it waits for has ended: with a provider, without a value, or by an
-- error. A failed shutdown is ignored.
pub data Ended : Type 0 where
  made : ℕ → Ended
  done : Ended
  failed : Ended

unfoldable pub proceed : Waiting → Ended → Helios → Next
unfolding begin give_up
proceed (stops rpc) ended h = begin rpc (record h { provider = none })
proceed imports (made p) h = (h, some starts_proxy)
proceed imports done h = (h, some starts_proxy)
proceed imports failed h = give_up h
proceed starts_proxy (made p) h = (h, some creates)
proceed starts_proxy done h = (h, some creates)
proceed starts_proxy failed h = give_up h
proceed creates (made p) h = (record h { provider = some p }, some syncs)
proceed creates done h = give_up h
proceed creates failed h = give_up h
proceed syncs failed h = give_up h
proceed syncs (made p) h = (record h { ready = true; status = synced }, none)
proceed syncs done h = (record h { ready = true; status = synced }, none)
proceed closes ended h = (record h { provider = none; ready = false }, some stops_proxy)
proceed stops_proxy ended h = (record h { execution_rpc = none; status = disconnected }, none)

-- The module with the calls that were made, each at its place; `none` for one that has returned.
pub record System : Type 0 where
  pub helios : Helios
  pub calls : List (Option Waiting)

pub data Event : Type 0 where
  inits : String → Event
  shuts_down : Event
  ends : ℕ → Ended → Event

-- what call number `n` waits for
abbrev waiting_at : ℕ → List (Option Waiting) → Option Waiting
waiting_at n [] = none
waiting_at zero (w ∷ ws) = w
waiting_at (suc n) (w ∷ ws) = waiting_at n ws

abbrev put_at : ℕ → Option Waiting → List (Option Waiting) → List (Option Waiting)
put_at n w [] = []
put_at zero w (_ ∷ ws) = w ∷ ws
put_at (suc n) w (v ∷ ws) = v ∷ put_at n w ws

abbrev called : System → Next → System
called s (h, w) = record { helios = h; calls = s.calls ++ w ∷ [] }

abbrev resumed : System → ℕ → Next → System
resumed s n (h, w) = record { helios = h; calls = put_at n w s.calls }

abbrev go_on : System → ℕ → Ended → Option Waiting → System
go_on s n ended none = s
go_on s n ended (some w) = resumed s n (proceed w ended s.helios)

pub step : System → Event → System
unfolding init_helios shutdown_helios proceed
step s (inits rpc) = called s (init_helios rpc s.helios)
step s shuts_down = called s (shutdown_helios s.helios)
step s (ends n ended) = go_on s n ended (waiting_at n s.calls)

pub run : System → List Event → System
unfolding step
run s [] = s
run s (e ∷ es) = run (step s e) es

-- whether `rpcCall` asks the light client: it has a provider and `isHeliosSynced`
abbrev pub is_used : Helios → Bool
is_used h = is_some h.provider && h.ready
