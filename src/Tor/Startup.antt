-- ===== src/Tor/Startup.antt =====
-- client/src/main/index.ts, with client/src/main/torProcess.ts and gatewayFetch.ts: the launch of
-- the application. `whenReady` awaits `startTor`, hands its port to the fetcher, and opens the
-- window in either case; the await ends right after the event that settles the promise.
use umbra_gateway.Prelude.{
  ℕ, String, List, [], ◌∷◌, some, Bool, true, false, ◌≡◌, ◌≢◌, ap, ◌∙◌, ◌⊎◌, inl, inr, refl,
  if◌then◌else◌,
}
use umbra_gateway.GatewayFetch.{default_socks_port}
use umbra_gateway.Tor.Lifecycle.{step-settled}
use umbra_gateway.Tor.{
  Tor, Started, pending, resolved, rejected, Event, prints, times_out, initial, start_tor, step,
  get_arti_socks_port, is_ready_line,
}

-- `awaiting` is whether the launch still waits for Tor.
pub record App : Type 0 where
  pub tor : Tor
  pub socks_port : ℕ
  pub window : Bool
  pub awaiting : Bool

-- `setSocksPort` of the fetcher
abbrev set_socks_port : ℕ → App → App
set_socks_port port a = record a { socks_port = port }

unfoldable pub continue_with : Started → App → App
continue_with pending a = a
continue_with (resolved port) a = record (set_socks_port port a) { window = true; awaiting = false }
continue_with (rejected message) a = record a { window = true; awaiting = false }

-- the rest of the launch, once the promise is settled
unfoldable pub resume : App → App
unfolding continue_with
resume a = if a.awaiting then continue_with a.tor.started a else a

unfoldable pub launch : (open_port binary : Bool) → String → App
unfolding resume
launch open_port binary path = resume (record {
  tor = start_tor open_port binary path initial;
  socks_port = default_socks_port;
  window = false;
  awaiting = true;
})

unfoldable pub app_step : App → Event → App
unfolding resume
app_step a e = resume (record a { tor = step a.tor e })

pub app_run : App → List Event → App
unfolding app_step
app_run a [] = a
app_run a (e ∷ es) = app_run (app_step a e) es

-- What the launch has made of the promise: while it waits there is no window and the port is the
-- default one; afterwards the window is open, and the port is that of the promise, if it resolved.
pub record Launched (a : App) : Type 0 where
  pub waits :
      a.awaiting ≡ true → (a.tor.started ≡ pending) × (a.socks_port ≡ 9050) × (a.window ≡ false)
  pub opens : a.awaiting ≡ false → a.window ≡ true
  pub port : (p : ℕ) → a.awaiting ≡ false → a.tor.started ≡ resolved p → a.socks_port ≡ p
  pub settled : a.awaiting ≡ false → a.tor.started ≢ pending
  pub default : (m : String) → a.tor.started ≡ rejected m → a.socks_port ≡ 9050

pub launch-Launched :
    (open_port binary : Bool) (path : String) → Launched (launch open_port binary path)
unfolding launch start_tor initial
launch-Launched true binary path = record {
  waits = λ e. cc;
  opens = λ e. refl;
  port = λ p e f. cc;
  settled = λ e f. cc;
  default = λ m e. cc;
}
launch-Launched false true path = record {
  waits = λ e. (refl, refl, refl);
  opens = λ e. cc;
  port = λ p e f. cc;
  settled = λ e f. cc;
  default = λ m e. refl;
}
launch-Launched false false path = record {
  waits = λ e. cc;
  opens = λ e. refl;
  port = λ p e f. cc;
  settled = λ e f. cc;
  default = λ m e. refl;
}

pub Started-cases :
    (o : Started) → (o ≡ pending) ⊎ ((p : ℕ) × (o ≡ resolved p)) ⊎ ((m : String) × (o ≡ rejected m))
Started-cases pending = inl refl
Started-cases (resolved p) = inr (inl (p, refl))
Started-cases (rejected m) = inr (inr (m, refl))

pub resolved_inj : (p q : ℕ) → resolved p ≡ resolved q → p ≡ q
resolved_inj p q e = cc e

-- The rest of the launch, from an application that waits.
pub continue-Launched :
    (a : App) (o : Started)
    → a.tor.started ≡ o
    → a.awaiting ≡ true
    → a.socks_port ≡ 9050
    → a.window ≡ false
    → Launched (continue_with o a)
unfolding continue_with
continue-Launched a pending e w d n = record {
  waits = λ f. (e, d, n);
  opens = λ f. cc (f, w);
  port = λ p f g. cc (f, w);
  settled = λ f g. cc (f, w);
  default = λ m g. d;
}
continue-Launched a (resolved p) e w d n = record {
  waits = λ f. cc f;
  opens = λ f. refl;
  port = λ q f g. resolved_inj p q (cc (e, g));
  settled = λ f g. cc (e, g);
  default = λ m g. cc (e, g);
}
continue-Launched a (rejected m) e w d n = record {
  waits = λ f. cc f;
  opens = λ f. refl;
  port = λ q f g. cc (e, g);
  settled = λ f g. cc (e, g);
  default = λ m2 g. d;
}

-- A new state of the process, then the rest of the launch.
resume-Launched :
    (a : App) (t : Tor) (b : Bool)
    → a.awaiting ≡ b
    → Launched a
    → (a.tor.started ≢ pending → t.started ≡ a.tor.started)
    → Launched (if b then continue_with t.started (record a { tor = t }) else record a { tor = t })
resume-Launched a t true w v once =
    let (_, d, n) = v.waits w in continue-Launched (record a { tor = t }) t.started refl w d n
resume-Launched a t false w v once =
    let same = once (v.settled w) in
    record {
      waits = λ f. cc (f, w);
      opens = λ f. v.opens w;
      port = λ p f g. v.port p w (cc (same, g));
      settled = λ f g. v.settled w (cc (same, g));
      default = λ m g. v.default m (cc (same, g));
    }

step-Launched : (a : App) (e : Event) → Launched a → Launched (app_step a e)
unfolding app_step resume
step-Launched a e v = resume-Launched a (step a.tor e) a.awaiting refl v (step-settled a.tor e)

Launched-run : (a : App) (es : List Event) → Launched a → Launched (app_run a es)
unfolding app_run
Launched-run a [] v = v
Launched-run a (e ∷ es) v = Launched-run (app_step a e) es (step-Launched a e v)

-- Whatever happens to the process: while the launch waits for Tor there is no window and requests
-- would go to port 9050; once it waits no more the window is open, the promise is settled, and
-- requests go to the promise's port, or to port 9050 if it was rejected.
pub app_run-Launched :
    (open_port binary : Bool) (path : String) (es : List Event)
    → Launched (app_run (launch open_port binary path) es)
app_run-Launched open_port binary path es =
    Launched-run _ es (launch-Launched open_port binary path)

idle_port :
    (a : App) (es : List Event) → a.awaiting ≡ false → (app_run a es).socks_port ≡ a.socks_port
unfolding app_run app_step resume
idle_port a [] w = refl
idle_port a (e ∷ es) w =
    let same : app_step a e ≡ record a { tor = step a.tor e } = rw w refl in
    ap (λ b. (app_run b es).socks_port) same ∙ idle_port (record a { tor = step a.tor e }) es w

-- If the timeout fires before the first line of readiness, the line makes `getArtiSocksPort` report
-- port 9150, but the fetcher stays on port 9050 whatever comes after it.
pub late_ready_unused :
    (path text : String) (es : List Event)
    → is_ready_line text ≡ true
    → let a = app_run (launch false true path) (times_out ∷ prints text ∷ []) in
      (get_arti_socks_port a.tor ≡ some 9150) × ((app_run a es).socks_port ≡ 9050)
unfolding app_run app_step resume continue_with launch start_tor initial get_arti_socks_port step
late_ready_unused path text es good = (
  rw good refl,
  idle_port (app_run (launch false true path) (times_out ∷ prints text ∷ [])) es refl ∙ refl,
)
