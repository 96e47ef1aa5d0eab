-- ===== src/Helios/Returns.antt =====
-- client/src/main/helios.ts: each call returns, however many of them overlap.
use umbra_gateway.Prelude.{
  ℕ, zero, suc, ◌+◌, ◌-◌, ◌≤◌, ◌<◌, List, [], ◌∷◌, ◌++◌, Option, none, some, ◌≡◌, ◌≢◌, inl, inr,
  refl, sym, ap, arith, length, ◌==◌, if◌then◌else◌, Bool-cases, ==_iff,
}
use mathlib.Core.Path.{subst}
use umbra_gateway.Helios.{
  Helios, Waiting, stops, imports, starts_proxy, creates, syncs, closes, stops_proxy, Next, begin,
  init_helios, shutdown_helios, Ended, proceed, give_up, System, Event, inits, shuts_down, ends,
  waiting_at, put_at, called, go_on, step, run,
}

-- how many waits a call has before it at most
abbrev left : Option Waiting → ℕ
left none = 0
left (some (stops rpc)) = 5
left (some imports) = 4
left (some starts_proxy) = 3
left (some creates) = 2
left (some syncs) = 1
left (some closes) = 2
left (some stops_proxy) = 1

left-bound : (w : Option Waiting) → left w ≤ 5
left-bound none = omega arith
left-bound (some (stops rpc)) = omega arith
left-bound (some imports) = omega arith
left-bound (some starts_proxy) = omega arith
left-bound (some creates) = omega arith
left-bound (some syncs) = omega arith
left-bound (some closes) = omega arith
left-bound (some stops_proxy) = omega arith

nothing_left : (w : Option Waiting) → left w ≡ 0 → w ≡ none
nothing_left none e = refl
nothing_left (some (stops rpc)) e = cc e
nothing_left (some imports) e = cc e
nothing_left (some starts_proxy) e = cc e
nothing_left (some creates) e = cc e
nothing_left (some syncs) e = cc e
nothing_left (some closes) e = cc e
nothing_left (some stops_proxy) e = cc e

left-proceed :
    (w : Waiting) (ended : Ended) (h : Helios) → left (proceed w ended h).1 + 1 ≤ left (some w)
unfolding proceed begin give_up
left-proceed w ended h = ground arith

waiting_at-append :
    (n : ℕ) (ws : List (Option Waiting)) (w : Option Waiting)
    → n < length ws
    → waiting_at n (ws ++ w ∷ []) ≡ waiting_at n ws
waiting_at-append n [] w h = absurd (omega arith)
waiting_at-append zero (v ∷ ws) w h = refl
waiting_at-append (suc n) (v ∷ ws) w h = waiting_at-append n ws w (omega arith)

waiting_at-put_same :
    (n : ℕ) (ws : List (Option Waiting)) (w : Option Waiting)
    → n < length ws
    → waiting_at n (put_at n w ws) ≡ w
waiting_at-put_same n [] w h = absurd (omega arith)
waiting_at-put_same zero (v ∷ ws) w h = refl
waiting_at-put_same (suc n) (v ∷ ws) w h = waiting_at-put_same n ws w (omega arith)

waiting_at-put_other :
    (n m : ℕ) (ws : List (Option Waiting)) (w : Option Waiting)
    → n ≢ m
    → waiting_at n (put_at m w ws) ≡ waiting_at n ws
waiting_at-put_other n m [] w h = refl
waiting_at-put_other zero zero (v ∷ ws) w h = absurd (h refl)
waiting_at-put_other zero (suc m) (v ∷ ws) w h = refl
waiting_at-put_other (suc n) zero (v ∷ ws) w h = refl
waiting_at-put_other (suc n) (suc m) (v ∷ ws) w h =
    waiting_at-put_other n m ws w (λ e. h (ap suc e))

length-append :
    (ws : List (Option Waiting)) (w : Option Waiting) → length (ws ++ w ∷ []) ≡ length ws + 1
length-append [] w = refl
length-append (v ∷ ws) w = omega (arith, length-append ws w)

length-put_at :
    (n : ℕ) (ws : List (Option Waiting)) (w : Option Waiting) → length (put_at n w ws) ≡ length ws
length-put_at n [] w = refl
length-put_at zero (v ∷ ws) w = refl
length-put_at (suc n) (v ∷ ws) w = ap suc (length-put_at n ws w)

-- how often a wait of call number `n` ends
abbrev pub ends_of : ℕ → List Event → ℕ
ends_of n [] = 0
ends_of n (inits rpc ∷ es) = ends_of n es
ends_of n (shuts_down ∷ es) = ends_of n es
ends_of n (ends m ended ∷ es) = (if m == n then 1 else 0) + ends_of n es

-- what a step does to call number `n`, where `k` of its waits end in it
record Moves (n k : ℕ) (s s' : System) : Type 0 where
  length_kept : length s.calls ≤ length s'.calls
  fewer : left (waiting_at n s'.calls) ≤ left (waiting_at n s.calls) - k

new-Moves : (n : ℕ) (s : System) (next : Next) → n < length s.calls → Moves n 0 s (called s next)
new-Moves n s (h, w) at = record {
  length_kept = omega (arith, length-append s.calls w);
  fewer = rw (waiting_at-append n s.calls w at) (omega arith);
}

own-Moves :
    (n : ℕ) (s : System) (ended : Ended) (w : Option Waiting)
    → n < length s.calls
    → waiting_at n s.calls ≡ w
    → Moves n 1 s (go_on s n ended w)
own-Moves n s ended none at e = record { length_kept = omega arith; fewer = rw e (omega arith) }
own-Moves n s ended (some w) at e =
    let next = proceed w ended s.helios in
    record {
      length_kept = omega (arith, length-put_at n s.calls next.1);
      fewer =
          rw (waiting_at-put_same n s.calls next.1 at, e)
            (omega (arith, left-proceed w ended s.helios));
    }

other-Moves :
    (n m : ℕ) (s : System) (ended : Ended) (w : Option Waiting)
    → n ≢ m
    → Moves n 0 s (go_on s m ended w)
other-Moves n m s ended none apart = record { length_kept = omega arith; fewer = omega arith }
other-Moves n m s ended (some w) apart =
    let next = proceed w ended s.helios in
    record {
      length_kept = omega (arith, length-put_at m s.calls next.1);
      fewer = rw (waiting_at-put_other n m s.calls next.1 apart) (omega arith);
    }

end-Moves :
    (n m : ℕ) (s : System) (ended : Ended)
    → n < length s.calls
    → Moves n (if m == n then 1 else 0) s (go_on s m ended (waiting_at m s.calls))
end-Moves n m s ended at = elim (Bool-cases (m == n)) [
  | inl same ↦ rw same (
      subst (λ x. Moves n 1 s (go_on s x ended (waiting_at x s.calls))) (sym ((==_iff m n).0 same))
        (own-Moves n s ended (waiting_at n s.calls) at refl))
  | inr apart ↦
      rw apart
        (other-Moves n m s ended (waiting_at m s.calls) (λ e. cc ((==_iff m n).1 (sym e), apart)))
]

run-left :
    (n : ℕ) (s : System) (es : List Event)
    → n < length s.calls
    → left (waiting_at n (run s es).calls) ≤ left (waiting_at n s.calls) - ends_of n es
unfolding run step
run-left n s [] at = omega arith
run-left n s (inits rpc ∷ es) at =
    let m = new-Moves n s (init_helios rpc s.helios) at in
    omega (arith, m.fewer, run-left n (step s (inits rpc)) es (omega (arith, m.length_kept)))
run-left n s (shuts_down ∷ es) at =
    let m = new-Moves n s (shutdown_helios s.helios) at in
    omega (arith, m.fewer, run-left n (step s shuts_down) es (omega (arith, m.length_kept)))
run-left n s (ends k ended ∷ es) at =
    let m = end-Moves n k s ended at in
    omega (arith, m.fewer, run-left n (step s (ends k ended)) es (omega (arith, m.length_kept)))

-- However many calls of `initHelios` and `shutdownHelios` overlap, and in whatever order their waits
-- end: a call that was made has returned once five of its waits have ended, however they ended, and
-- stays so.
pub calls_return :
    (n : ℕ) (s : System) (es : List Event)
    → n < length s.calls
    → 5 ≤ ends_of n es
    → waiting_at n (run s es).calls ≡ none
calls_return n s es at enough =
    nothing_left (waiting_at n (run s es).calls)
      (omega (arith, run-left n s es at, left-bound (waiting_at n s.calls)))
