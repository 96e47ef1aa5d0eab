-- ===== src/Panels/Log/Shown.antt =====
-- client/src/main/logger.ts and client/src/renderer/App.tsx: what the activity log shows.
use umbra_gateway.Prelude.{
  ℕ, String, List, [], ◌∷◌, ◌++◌, Bool, true, false, not, ◌&&◌, ◌≡◌, refl, ap, ◌∙◌, arith, ◌≢◌,
}
use umbra_gateway.X402.Types.{LogEntry}
use umbra_gateway.Logger.{
  emits, opens, loads, step, emit_log, set_log_window, did_finish_load, flush,
}
use umbra_gateway.Panels.Log.{
  Screen, blank, on_log, arrive, beyond, send, ScreenEvent, main, mounts, unmounts, on_screen, show,
  activity_log,
}

-- Where a page is: no window yet, a page that has not subscribed, and one that has.
pub data Page : Type 0 where
  no_page unmounted mounted : Page

-- An order of events that Electron and React keep: `App` mounts and unmounts in turn, in a window
-- that is open. As in `createWindow`, a window is handed to the logger before it loads anything.
abbrev pub orderly : Page → List ScreenEvent → Bool
orderly page [] = true
orderly page (main (emits entry) ∷ es) = orderly page es
orderly page (main (opens loading) ∷ es) = not loading && orderly unmounted es
orderly page (main loads ∷ es) = orderly page es
orderly no_page (mounts ∷ es) = false
orderly unmounted (mounts ∷ es) = orderly mounted es
orderly mounted (mounts ∷ es) = false
orderly no_page (unmounts ∷ es) = false
orderly unmounted (unmounts ∷ es) = false
orderly mounted (unmounts ∷ es) = orderly unmounted es

abbrev add : Page → LogEntry → List LogEntry → List LogEntry
add mounted entry logs = logs ++ entry ∷ []
add unmounted entry logs = logs
add no_page entry logs = logs

-- the entries that are emitted while a page is mounted, after the last window was opened
abbrev pub heard : Page → List ScreenEvent → List LogEntry → List LogEntry
heard page [] logs = logs
heard page (main (emits entry) ∷ es) logs = heard page es (add page entry logs)
heard page (main (opens loading) ∷ es) logs = heard unmounted es []
heard page (main loads ∷ es) logs = heard page es logs
heard page (mounts ∷ es) logs = heard mounted es logs
heard page (unmounts ∷ es) logs = heard unmounted es logs

abbrev listening : Page → ℕ
listening mounted = 1
listening unmounted = 0
listening no_page = 0

-- how a screen corresponds to a page
record At (page : Page) (s : Screen) : Type 0 where
  listeners : s.listeners ≡ listening page
  flushing : s.logger.flushing ≡ false
  window : page ≢ no_page → (s.logger.window ≡ true) × (s.logger.buffer ≡ [])
  closed : page ≡ no_page → s.logger.window ≡ false

beyond-append : (xs ys : List LogEntry) → beyond xs (xs ++ ys) ≡ ys
beyond-append [] ys = refl
beyond-append (x ∷ xs) ys = beyond-append xs ys

beyond_self : (xs : List LogEntry) → beyond xs xs ≡ []
beyond_self [] = refl
beyond_self (x ∷ xs) = beyond_self xs

arrive-zero : (entries logs : List LogEntry) → arrive 0 entries logs ≡ logs
unfolding arrive on_log
arrive-zero [] logs = refl
arrive-zero (e ∷ es) logs = arrive-zero es logs

-- an entry that is emitted
emit-At :
    (page : Page) (s : Screen) (entry : LogEntry)
    → At page s
    → At page (on_screen s (main (emits entry)))
unfolding on_screen send step emit_log
emit-At page s entry v = ground arith

emit-logs :
    (page : Page) (s : Screen) (entry : LogEntry)
    → At page s
    → (on_screen s (main (emits entry))).logs ≡ add page entry s.logs
unfolding on_screen send step emit_log arrive on_log
emit-logs mounted s entry v =
    rw (v.listeners, (v.window (λ e. cc e)).0, beyond-append s.logger.sent (entry ∷ [])) refl
emit-logs unmounted s entry v =
    rw v.listeners (arrive-zero (beyond s.logger.sent (emit_log entry s.logger).sent) s.logs)
emit-logs no_page s entry v =
    rw v.listeners (arrive-zero (beyond s.logger.sent (emit_log entry s.logger).sent) s.logs)

-- a window that does not load yet
open-At : (page : Page) (s : Screen) → At page s → At unmounted (on_screen s (main (opens false)))
unfolding on_screen send step set_log_window flush
open-At page s v = ground arith

open-logs : (s : Screen) (loading : Bool) → (on_screen s (main (opens loading))).logs ≡ []
unfolding on_screen send
open-logs s loading = arrive-zero (beyond s.logger.sent (step s.logger (opens loading)).sent) []

load-same : (page : Page) (s : Screen) → At page s → on_screen s (main loads) ≡ s
unfolding on_screen send step did_finish_load arrive
load-same page s v = rw (v.flushing, beyond_self s.logger.sent) refl

mount-At : (s : Screen) → At unmounted s → At mounted (on_screen s mounts)
unfolding on_screen
mount-At s v = ground arith

unmount-At : (s : Screen) → At mounted s → At unmounted (on_screen s unmounts)
unfolding on_screen
unmount-At s v = ground arith

same-logs :
    (s : Screen) → ((on_screen s mounts).logs ≡ s.logs) × ((on_screen s unmounts).logs ≡ s.logs)
unfolding on_screen
same-logs s = (refl, refl)

blank-At : At no_page blank
unfolding blank
blank-At = record {
  listeners = refl;
  flushing = refl;
  window = λ f. absurd (f refl);
  closed = λ f. refl;
}

show-heard :
    (page : Page) (s : Screen) (es : List ScreenEvent)
    → At page s
    → orderly page es ≡ true
    → (show s es).logs ≡ heard page es s.logs
unfolding show
show-heard page s [] v o = refl
show-heard page s (main (emits entry) ∷ es) v o =
    show-heard page (on_screen s (main (emits entry))) es (emit-At page s entry v) o
    ∙ ap (heard page es) (emit-logs page s entry v)
show-heard page s (main (opens true) ∷ es) v o = cc o
show-heard page s (main (opens false) ∷ es) v o =
    show-heard unmounted (on_screen s (main (opens false))) es (open-At page s v) o
    ∙ ap (heard unmounted es) (open-logs s false)
show-heard page s (main loads ∷ es) v o =
    ap (λ t. (show t es).logs) (load-same page s v) ∙ show-heard page s es v o
show-heard no_page s (mounts ∷ es) v o = cc o
show-heard unmounted s (mounts ∷ es) v o =
    show-heard mounted (on_screen s mounts) es (mount-At s v) o
    ∙ ap (heard mounted es) (same-logs s).0
show-heard mounted s (mounts ∷ es) v o = cc o
show-heard no_page s (unmounts ∷ es) v o = cc o
show-heard unmounted s (unmounts ∷ es) v o = cc o
show-heard mounted s (unmounts ∷ es) v o =
    show-heard unmounted (on_screen s unmounts) es (unmount-At s v) o
    ∙ ap (heard unmounted es) (same-logs s).1

-- As long as `App` mounts and unmounts in turn, in a window that is open, and windows are handed to
-- the logger before they load anything: the activity log draws exactly the entries that were emitted
-- while the page of the last window was mounted, in their order and each once. So what was emitted
-- before is not shown, although the logger keeps it for the first window.
pub shown_since_mount :
    (format_time : ℕ → String) (es : List ScreenEvent)
    → orderly no_page es ≡ true
    → activity_log format_time (show blank es).logs ≡ activity_log format_time (heard no_page es [])
unfolding blank
shown_since_mount format_time es o =
    ap (activity_log format_time) (show-heard no_page blank es blank-At o)
