-- ===== src/Logger/Delivery.antt =====
-- client/src/main/logger.ts: no entry is lost or sent twice.
use umbra_gateway.Prelude.{
  ℕ, ◌+◌, List, [], ◌∷◌, ◌++◌, Bool, true, false, ◌≡◌, refl, arith, if◌then◌else◌, Bool-cases, inl,
  inr,
}
use umbra_gateway.X402.Types.{LogEntry}
use umbra_gateway.Logger.{
  Logger, initial, flush, on_window, set_log_window, emit_log, did_finish_load, Event, emits, opens,
  loads, step, run,
}

abbrev pub count : (LogEntry → Bool) → List LogEntry → ℕ
count p [] = 0
count p (e ∷ es) = (if p e then 1 else 0) + count p es

count-append :
    (p : LogEntry → Bool) (xs ys : List LogEntry) → count p (xs ++ ys) ≡ count p xs + count p ys
count-append p [] ys = omega arith
count-append p (x ∷ xs) ys = omega (arith, count-append p xs ys)

abbrev pub emitted : List Event → List LogEntry
emitted [] = []
emitted (emits entry ∷ es) = entry ∷ emitted es
emitted (opens loading ∷ es) = emitted es
emitted (loads ∷ es) = emitted es

abbrev held : (LogEntry → Bool) → Logger → ℕ
held p l = count p l.sent + count p l.buffer

held-emit :
    (p : LogEntry → Bool) (entry : LogEntry) (l : Logger)
    → held p (emit_log entry l) ≡ held p l + (if p entry then 1 else 0)
unfolding emit_log
held-emit p entry l = elim (Bool-cases l.window) [
  | inl on ↦ rw on (omega (arith, count-append p l.sent (entry ∷ [])))
  | inr no_window ↦ rw no_window (omega (arith, count-append p l.buffer (entry ∷ [])))
]

held-flush : (p : LogEntry → Bool) (l : Logger) → held p (flush l) ≡ held p l
unfolding flush
held-flush p l = omega (arith, count-append p l.sent l.buffer)

held-window :
    (p : LogEntry → Bool) (loading : Bool) (l : Logger) (es : List LogEntry)
    → held p (on_window loading l es) ≡ held p l
held-window p loading l [] = refl
held-window p true l (e ∷ es) = refl
held-window p false l (e ∷ es) = held-flush p l

held-load : (p : LogEntry → Bool) (l : Logger) → held p (did_finish_load l) ≡ held p l
unfolding did_finish_load
held-load p l = elim (Bool-cases l.flushing) [
  | inl on ↦ rw on (held-flush p (record l { flushing = false }))
  | inr off ↦ rw off refl
]

held-run :
    (p : LogEntry → Bool) (l : Logger) (es : List Event)
    → held p (run l es) ≡ held p l + count p (emitted es)
unfolding run step set_log_window
held-run p l [] = omega arith
held-run p l (emits entry ∷ es) =
    omega (arith, held-run p (emit_log entry l) es, held-emit p entry l)
held-run p l (opens loading ∷ es) = omega (
  arith,
  held-run p (set_log_window loading l) es,
  held-window p loading (record l { window = true }) l.buffer,
)
held-run p l (loads ∷ es) = omega (arith, held-run p (did_finish_load l) es, held-load p l)

-- Whatever is emitted, and whenever windows open and load: what was sent to a window and what waits
-- in the buffer are together exactly what was emitted, each entry as often as it was; that is, any
-- test holds of as many of the ones as of the others.
pub nothing_lost :
    (p : LogEntry → Bool) (es : List Event)
    → count p (run initial es).sent + count p (run initial es).buffer ≡ count p (emitted es)
nothing_lost p es = omega (arith, held-run p initial es)

-- Once a window is set, entries are no longer buffered; the buffer is empty or a flush is due.
pub record Flushed (l : Logger) : Type 0 where
  pub waits : l.window ≡ false → (l.sent ≡ []) × (l.flushing ≡ false)
  pub due : l.window ≡ true → l.flushing ≡ false → l.buffer ≡ []

on_window-Flushed :
    (loading : Bool) (l : Logger) (es : List LogEntry)
    → l.window ≡ true
    → l.buffer ≡ es
    → Flushed (on_window loading l es)
unfolding flush
on_window-Flushed loading l [] on e = record { waits = λ f. cc (f, on); due = λ f g. e }
on_window-Flushed true l (x ∷ xs) on e = record { waits = λ f. cc (f, on); due = λ f g. cc g }
on_window-Flushed false l (x ∷ xs) on e = record { waits = λ f. cc (f, on); due = λ f g. refl }

step-Flushed : (l : Logger) (e : Event) → Flushed l → Flushed (step l e)
unfolding step emit_log set_log_window did_finish_load flush
step-Flushed l (emits entry) v = ground arith
step-Flushed l (opens loading) v =
    on_window-Flushed loading (record l { window = true }) l.buffer refl refl
step-Flushed l loads v = ground arith

Flushed-run : (l : Logger) (es : List Event) → Flushed l → Flushed (run l es)
unfolding run
Flushed-run l [] v = v
Flushed-run l (e ∷ es) v = Flushed-run (step l e) es (step-Flushed l e v)

-- When a window is set and no flush is due, the windows were sent exactly what was emitted, each
-- entry as often as it was: any test holds of as many of the ones as of the others.
pub all_delivered :
    (p : LogEntry → Bool) (es : List Event)
    → (run initial es).window ≡ true
    → (run initial es).flushing ≡ false
    → count p (run initial es).sent ≡ count p (emitted es)
all_delivered p es on idle =
    let v : Flushed (run initial es) =
      Flushed-run initial es (record { waits = λ f. (refl, refl); due = λ f g. refl }) in
    let held = nothing_lost p es in omega (arith, rw (v.due on idle) at held)

-- An entry that is emitted while the window loads is sent before those of the buffer, which are
-- older.
pub overtakes :
    (old new : LogEntry)
    → (run initial (emits old ∷ opens true ∷ emits new ∷ loads ∷ [])).sent ≡ new ∷ old ∷ []
unfolding run step emit_log set_log_window did_finish_load flush
overtakes old new = refl
