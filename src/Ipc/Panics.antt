-- ===== src/Ipc/Panics.antt =====
-- client/src/main/index.ts: the handler of uncaught exceptions, with helios.ts.
use umbra_gateway.Prelude.{
  String, List, [], ◌∷◌, Option, none, some, Bool, true, false, ◌≡◌, refl, length, ◌||◌, ◌&&◌,
  if◌then◌else◌,
}
use umbra_gateway.Prelude.Text.{includes, ◌===◌}
use umbra_gateway.Helios.Shutdown.{Off, shutdown-Off}
use umbra_gateway.Helios.{System, Ended, shuts_down, ends, step, run}

-- `is_error` is `err instanceof Error`.
pub record Thrown : Type 0 where
  pub name : String
  pub is_error : Bool
  pub message : String
  pub stack : Option String

abbrev in_stack : Option String → Bool
in_stack none = false
in_stack (some stack) = includes stack "wasm://"

unfoldable pub is_wasm_panic : Thrown → Bool
unfolding includes
is_wasm_panic e =
    e.name === "RuntimeError" || (e.is_error && e.message === "unreachable") || in_stack e.stack

-- `log` holds the entries that the handler writes, `fatal` the errors that it throws again.
pub record Process : Type 0 where
  pub system : System
  pub log : List String
  pub fatal : List Thrown

-- shutdownHelios() starts, and is not awaited
unfoldable pub on_uncaught_exception : Thrown → Process → Process
unfolding is_wasm_panic
on_uncaught_exception e p =
    if is_wasm_panic e
    then record p {
      system = step p.system shuts_down;
      log = "helios: WASM panic — shutting down light client, falling back to direct RPC" ∷ p.log;
    }
    else record p { fatal = e ∷ p.fatal }

unfoldable pub on_uncaught_exceptions : List Thrown → Process → Process
unfolding on_uncaught_exception
on_uncaught_exceptions [] p = p
on_uncaught_exceptions (e ∷ es) p = on_uncaught_exceptions es (on_uncaught_exception e p)

-- After a panic of the light client, and once the two waits of the shutdown that it starts have
-- ended, however they end, RPC calls no longer go through the light client, its status is
-- `disconnected`, and the error was not thrown again.
pub panic-Off :
    (e : Thrown) (p : Process) (first second : Ended)
    → is_wasm_panic e ≡ true
    → let q = on_uncaught_exception e p in
      let n = length p.system.calls in
      Off (run q.system (ends n first ∷ ends n second ∷ [])).helios × (q.fatal ≡ p.fatal)
unfolding on_uncaught_exception
panic-Off e p first second panic = rw panic (shutdown-Off p.system first second, refl)
