-- ===== src/Tor/Lifecycle.antt =====
-- client/src/main/torProcess.ts: what holds after any events.
use umbra_gateway.Prelude.{
  String, none, some, List, [], ◌∷◌, Bool, true, false, ◌≡◌, ◌≢◌, ◌⊎◌, refl, ◌∙◌, arith,
  if◌then◌else◌, Bool-cases, inl, inr,
}
use umbra_gateway.Prelude.Text.{append}
use umbra_gateway.Tor.{
  Tor, runs, stopped, Started, pending, resolved, rejected, Event, prints, fails, exits, times_out,
  asks_stop, ends_stop, initial, settle, start_tor, step, run, is_ready_line, get_arti_socks_port,
}

pub record Inv (s : Tor) : Type 0 where
  -- the timeout can only fire while the caller waits
  pub waits : s.timer ≡ true → s.started ≡ pending
  -- a process that runs has the managed port
  pub managed : s.arti_process ≡ true → s.active_socks_port ≡ some 9150
  pub ports :
      (s.active_socks_port ≡ none)
      ⊎ (s.active_socks_port ≡ some 9050)
      ⊎ (s.active_socks_port ≡ some 9150)
  pub percent : (s.bootstrap_percent ≡ 0) ⊎ (s.bootstrap_percent ≡ 100)
  -- a child that runs and was not told to stop is the module's process
  pub known : s.child ≡ runs → (s.arti_process ≡ true) × (s.stopping ≡ false)
  -- nothing is left in the variables of a stopped process
  pub clean :
      s.status ≡ stopped
      → (s.active_socks_port ≡ none) × (s.arti_process ≡ false) × (s.bootstrap_percent ≡ 0)

pub start_tor-Inv :
    (open_port binary : Bool) (path : String) → Inv (start_tor open_port binary path initial)
unfolding start_tor initial
start_tor-Inv open_port binary path = ground arith

pub step-Inv : (s : Tor) (e : Event) → Inv s → Inv (step s e)
unfolding step
step-Inv s (prints text) v = ground arith
step-Inv s (fails message) v = ground arith
step-Inv s (exits how) v = ground arith
step-Inv s times_out v = ground arith
step-Inv s asks_stop v = ground arith
step-Inv s ends_stop v = ground arith

Inv-run : (s : Tor) (es : List Event) → Inv s → Inv (run s es)
unfolding run
Inv-run s [] v = v
Inv-run s (e ∷ es) v = Inv-run (step s e) es (step-Inv s e v)

-- Once `startTor` was called, whatever the process prints, fails, exits, and however often the
-- timeout fires or the process is stopped: the timeout is set only while the caller waits, a
-- running process goes with the managed port, the port is one of the two or none, the percentage is
-- 0 or 100, and the status `stopped` means no process, no port and 0 percent.
pub run-Inv :
    (open_port binary : Bool) (path : String) (es : List Event)
    → Inv (run (start_tor open_port binary path initial) es)
run-Inv open_port binary path es = Inv-run _ es (start_tor-Inv open_port binary path)

-- The first event that decides: a line of readiness, a failure of the process, or the timeout.
abbrev pub verdict : List Event → Started
verdict [] = pending
verdict (prints text ∷ es) = if is_ready_line text then resolved 9150 else verdict es
verdict (fails message ∷ es) = rejected message
verdict (times_out ∷ es) = rejected "arti bootstrap timed out"
verdict (exits how ∷ es) = verdict es
verdict (asks_stop ∷ es) = verdict es
verdict (ends_stop ∷ es) = verdict es

settle_keeps : (o outcome : Started) → o ≢ pending → settle o outcome ≡ o
unfolding settle
settle_keeps pending outcome h = absurd (h refl)
settle_keeps (resolved port) outcome h = refl
settle_keeps (rejected message) outcome h = refl

pub step-settled : (s : Tor) (e : Event) → s.started ≢ pending → (step s e).started ≡ s.started
unfolding step
step-settled s (prints text) h = ground (arith, settle_keeps s.started (resolved 9150) h)
step-settled s (fails message) h = settle_keeps s.started (rejected message) h
step-settled s (exits how) h = ground arith
step-settled s times_out h =
    ground (arith, settle_keeps s.started (rejected "arti bootstrap timed out") h)
step-settled s asks_stop h = ground arith
step-settled s ends_stop h = ground arith

settled_once : (s : Tor) (es : List Event) → s.started ≢ pending → (run s es).started ≡ s.started
unfolding run
settled_once s [] h = refl
settled_once s (e ∷ es) h =
    settled_once (step s e) es (rw (step-settled s e h) h) ∙ step-settled s e h

decided :
    (s : Tor) (es : List Event) (outcome : Started)
    → outcome ≢ pending
    → s.started ≡ outcome
    → (run s es).started ≡ outcome
decided s es outcome h e = settled_once s es (rw e h) ∙ e

-- What the promise of `startTor` becomes, once the process was spawned, is decided by the first
-- line of readiness, failure or timeout, and by nothing after it. The exit of the process and a
-- call of `stopTor` do not decide: the caller goes on waiting.
pub started_verdict :
    (s : Tor) (es : List Event)
    → s.started ≡ pending
    → s.timer ≡ true
    → (run s es).started ≡ verdict es
unfolding run step
started_verdict s [] p t = p
started_verdict s (prints text ∷ es) p t = elim (Bool-cases (is_ready_line text)) [
  | inl good ↦
      rw good (decided (step s (prints text)) es (resolved 9150) (λ q. cc q) (ground arith))
  | inr other ↦ rw other (started_verdict (step s (prints text)) es (ground arith) (ground arith))
]
started_verdict s (fails message ∷ es) p t =
    decided (step s (fails message)) es (rejected message) (λ q. cc q) (ground arith)
started_verdict s (times_out ∷ es) p t =
    decided (step s times_out) es (rejected "arti bootstrap timed out") (λ q. cc q) (ground arith)
started_verdict s (exits how ∷ es) p t =
    started_verdict (step s (exits how)) es (ground arith) (ground arith)
started_verdict s (asks_stop ∷ es) p t =
    started_verdict (step s asks_stop) es (ground arith) (ground arith)
started_verdict s (ends_stop ∷ es) p t =
    started_verdict (step s ends_stop) es (ground arith) (ground arith)

-- A process that is stopped on purpose is reported as one that exited unexpectedly, if its exit
-- comes before the end of `stopTor`; the state is that of a stopped process all the same.
pub stop_reports_error :
    (s : Tor) (how : String)
    → s.arti_process ≡ true
    → s.status ≢ stopped
    → let s' = run s (asks_stop ∷ exits how ∷ ends_stop ∷ []) in
      (s'.log ≡ (true, append "arti exited unexpectedly " how) ∷ (false, "stopping arti") ∷ s.log)
      × (s'.status ≡ stopped)
      × (get_arti_socks_port s' ≡ none)
unfolding run step get_arti_socks_port
stop_reports_error s how p h = ground arith
