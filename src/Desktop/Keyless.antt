-- ===== src/Desktop/Keyless.antt =====
-- client/src/main/index.ts and rpc.ts: what is done without a key.
use umbra_gateway.Prelude.{List, [], ◌∷◌, Option, some, none, All, ◌≡◌, refl, ok}
use umbra_gateway.Exec.{◌>>=◌}
use umbra_gateway.X402.Types
use umbra_gateway.X402.Types.{Account, sent, signed, logged, now, log, record_event}
use umbra_gateway.Keystore.Files.{load_key-none}
use umbra_gateway.Rpc
use umbra_gateway.Rpc.{Transaction, in_world, ask, set_gateway, clear_gateway}
use umbra_gateway.Desktop.{
  Desktop, Env, generate_account, clear_key, import_key, set_gateway_url, disconnect_gateway, send,
  wc_send_transaction, Event, invokes, rpc_env,
}
use umbra_gateway.Desktop.Handlers.{run}
use umbra_gateway.Desktop.Rules.{Kept, AllowsEvent, run-Both}

-- The requests and the signatures of a trace.
abbrev pub effects : List Types.Event → List Types.Event
effects [] = []
effects (sent request ∷ es) = sent request ∷ effects es
effects (signed t ∷ es) = signed t ∷ effects es
effects (logged entry ∷ es) = effects es

-- An event that stores no key.
abbrev pub ImportsNothing : Event → Type 0
ImportsNothing (invokes generate_account) = ⊥
ImportsNothing (invokes (import_key input)) = ⊥
ImportsNothing _ = Unit

module _ {Blob : Type 0} (env : Env Blob) (trace : List Types.Event)
    (transactions : List Transaction) where
  abbrev NoKey : Option Blob → Type 0
  NoKey file = file ≡ none

  abbrev Nothing : Rpc.State → Type 0
  Nothing s = (effects s.world.trace ≡ effects trace) × (s.signed ≡ transactions)

  unloaded :
      (file : Option Blob) (account : Account)
      → file ≡ none
      → (rpc_env env file).load_key ≡ ok account
      → ⊥
  unloaded (some blob) account e loaded = cc e
  unloaded none account e loaded = cc (load_key-none env.keystore, loaded)

  kept : Kept env (λ url. Unit) NoKey Nothing
  unfolding in_world log now record_event ask ◌>>=◌
  kept = record {
    calls = λ file e. record {
      steps = record {
        logs = λ d message. record { kept = λ h. h };
        reads = record { kept = λ h. h };
        requests = λ url body account is loaded. absurd (unloaded file account e loaded);
      };
      known = λ s h url found. tt;
      asks = λ method params. record { kept = λ h. h };
    };
    lights = λ helios s h. h;
  }

  allowed : (e : Event) → ImportsNothing e → AllowsEvent env (λ url. Unit) NoKey Nothing kept e
  unfolding set_gateway clear_gateway
  allowed (invokes generate_account) ok_e = elim ok_e [ ]
  allowed (invokes (import_key input)) ok_e = elim ok_e [ ]
  allowed (invokes (set_gateway_url url)) ok_e = λ s h. h
  allowed (invokes disconnect_gateway) ok_e = λ s h. h
  allowed (invokes clear_key) ok_e = refl
  allowed (invokes (send symbol to amount)) ok_e =
      λ file e account t loaded is. absurd (unloaded file account e loaded)
  allowed (invokes (wc_send_transaction tx)) ok_e =
      λ file e account t loaded is. absurd (unloaded file account e loaded)
  allowed _ ok_e = tt

  all_allowed :
      (es : List Event)
      → All ImportsNothing es
      → All (AllowsEvent env (λ url. Unit) NoKey Nothing kept) es
  all_allowed [] h = tt
  all_allowed (e ∷ es) (ok_e, h) = (allowed e ok_e, all_allowed es h)

-- Once no key is stored and no call is under way, until a key is imported or generated, and where each
-- handler ends before the next call comes: whatever the renderer calls, whatever the light client asks
-- through the local proxy, and whatever it and Tor do, no request is sent to a gateway, no payment and
-- no transaction is signed, and no key comes to be stored.
pub keyless :
    {Blob : Type 0} (env : Env Blob) (d : Desktop Blob) (es : List Event)
    → d.file ≡ none
    → All ImportsNothing es
    → ((run env d es).file ≡ none)
      × (effects (run env d es).rpc.world.trace ≡ effects d.rpc.world.trace)
      × ((run env d es).rpc.signed ≡ d.rpc.signed)
keyless env d es e h =
    let l = d.rpc.world.trace in
    let t = d.rpc.signed in
    let h' =
      run-Both env (λ url. Unit) (NoKey env l t) (Nothing env l t) (kept env l t) d es
        (all_allowed env l t es h) (e, (refl, refl)) in
    (h'.0, h'.1.0, h'.1.1)
