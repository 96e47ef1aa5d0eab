-- ===== src/Tor/Closing/Heard.antt =====
-- client/src/main/index.ts, with client/src/main/torProcess.ts: what is made of the promise of
-- `startTor`, whatever comes after the launch.
use umbra_gateway.Prelude.{ℕ, String, Bool, true, false, ◌≡◌, ◌≢◌, refl, arith, ◌∙◌, if◌then◌else◌}
use umbra_gateway.Tor.{
  Tor, Started, pending, resolved, rejected, Event, initial, start_tor, step, stop_tor, stop_done,
  asks_stop, ends_stop,
}
use umbra_gateway.Tor.Lifecycle.{Inv, start_tor-Inv, step-Inv, step-settled}
use umbra_gateway.Tor.Startup.{
  launch-Launched, continue-Launched, Launched, App, continue_with, resume, launch, app_step,
}
use umbra_gateway.Tor.Closing.{Application, all_closed, quit_unless_darwin}

-- What was made of the promise of `startTor`.
pub record Heard (a : App) : Type 0 where
  pub inv : Inv a.tor
  -- while the launch waits, requests go to the default port and no window is open
  pub waits :
      a.awaiting ≡ true → (a.tor.started ≡ pending) × (a.socks_port ≡ 9050) × (a.window ≡ false)
  pub settled : a.awaiting ≡ false → a.tor.started ≢ pending
  -- afterwards they go to the port of the promise, or to the default one
  pub port : (p : ℕ) → a.awaiting ≡ false → a.tor.started ≡ resolved p → a.socks_port ≡ p
  pub default : (m : String) → a.tor.started ≡ rejected m → a.socks_port ≡ 9050

Launched-Heard : (a : App) → Inv a.tor → Launched a → Heard a
Launched-Heard a v l = record {
  inv = v;
  waits = l.waits;
  settled = l.settled;
  port = l.port;
  default = l.default;
}

continue-Inv : (a : App) (o : Started) → Inv a.tor → Inv (continue_with o a).tor
unfolding continue_with
continue-Inv a pending v = v
continue-Inv a (resolved p) v = v
continue-Inv a (rejected m) v = v

-- A new state of the process, then the rest of the launch.
resume-Heard :
    (a : App) (t : Tor) (b : Bool)
    → a.awaiting ≡ b
    → Heard a
    → Inv t
    → (a.tor.started ≢ pending → t.started ≡ a.tor.started)
    → Heard (if b then continue_with t.started (record a { tor = t }) else record a { tor = t })
resume-Heard a t true w v i once =
    let (_, d, n) = v.waits w in
    let a' = record a { tor = t } in
    Launched-Heard (continue_with t.started a') (continue-Inv a' t.started i)
      (continue-Launched a' t.started refl w d n)
resume-Heard a t false w v i once =
    let same = once (v.settled w) in
    record {
      inv = i;
      waits = λ f. cc (f, w);
      settled = λ f g. v.settled w (cc (same, g));
      port = λ p f g. v.port p w (cc (same, g));
      default = λ m g. v.default m (cc (same, g));
    }

-- an event of the process
pub process-Heard : (a : App) (e : Event) → Heard a → Heard (app_step a e)
unfolding app_step resume
process-Heard a e v =
    resume-Heard a (step a.tor e) a.awaiting refl v (step-Inv a.tor e v.inv) (step-settled a.tor e)

-- a call of `stopTor` begins or ends, after the launch
stop-Heard :
    (a : App) (t : Tor) → Heard a → Inv t → t.started ≡ a.tor.started → Heard (record a { tor = t })
stop-Heard a t v i same = record {
  inv = i;
  waits = λ f. (same ∙ (v.waits f).0, (v.waits f).1, (v.waits f).2);
  settled = λ f g. v.settled f (cc (same, g));
  port = λ p f g. v.port p f (cc (same, g));
  default = λ m g. v.default m (cc (same, g));
}

quit-Heard :
    (s : Application) (darwin : Bool)
    → Heard s.app
    → Heard (if darwin then s else record s { life = all_closed }).app
quit-Heard s true h = h
quit-Heard s false h = h

pub close_tor-Heard :
    (s : Application) (runs throws : Bool)
    → Heard s.app
    → Heard
        (if runs
          then (if throws then s else record s { app = record s.app { tor = stop_tor s.app.tor } })
          else quit_unless_darwin s).app
unfolding quit_unless_darwin stop_tor step
close_tor-Heard s true true h = h
close_tor-Heard s true false h =
    stop-Heard s.app (stop_tor s.app.tor) h (step-Inv s.app.tor asks_stop h.inv) (ground arith)
close_tor-Heard s false throws h = quit-Heard s s.darwin h

pub after_tor-Heard :
    (s : Application) (stops : Bool)
    → Heard s.app
    → Heard
        (if stops
          then quit_unless_darwin (record s { app = record s.app { tor = stop_done s.app.tor } })
          else s).app
unfolding quit_unless_darwin stop_done step
after_tor-Heard s true h =
    quit-Heard (record s { app = record s.app { tor = stop_done s.app.tor } }) s.darwin
      (stop-Heard s.app (stop_done s.app.tor) h (step-Inv s.app.tor ends_stop h.inv) (ground arith))
after_tor-Heard s false h = h

launch-Inv : (open_port binary : Bool) (path : String) → Inv (launch open_port binary path).tor
unfolding launch resume continue_with start_tor initial
launch-Inv true binary path = start_tor-Inv true binary path
launch-Inv false true path = start_tor-Inv false true path
launch-Inv false false path = start_tor-Inv false false path

pub launch-Heard : (open_port binary : Bool) (path : String) → Heard (launch open_port binary path)
launch-Heard open_port binary path =
    Launched-Heard _ (launch-Inv open_port binary path) (launch-Launched open_port binary path)
