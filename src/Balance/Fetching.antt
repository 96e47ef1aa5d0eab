-- ===== src/Balance/Fetching.antt =====
-- client/src/main/index.ts: how many fetches of the balance are under way, and whose balance it is.
use umbra_gateway.Prelude.{
  ℕ, suc, zero, ◌≤◌, String, Option, some, none, List, [], ◌∷◌, length, length-append, Bool, true,
  false, ◌≡◌, refl, arith, Result, ok, err, Option-cases, inl, inr,
}
use umbra_gateway.Prelude.Text.{truthy, ◌===◌}
use umbra_gateway.Balance.{
  State, initial, invalidate_usdc_balance, get_status, fetched, set_gateway, disconnect_gateway,
  remove_at, fetch_at, poll, Event, sets, disconnects, sends, polls, fetch_ends, step, run,
}

length-remove_at :
    (n : ℕ) (l : List String) (x : String)
    → fetch_at n l ≡ some x
    → suc (length (remove_at n l)) ≡ length l
length-remove_at n [] x e = cc e
length-remove_at zero (y ∷ l) x e = refl
length-remove_at (suc n) (y ∷ l) x e = omega (arith, length-remove_at n l x e)

pub record Bounded (s : State) : Type 0 where
  pub idle : s.usdc_balance_fetching ≡ false → length s.fetches ≤ s.refreshes
  pub busy : length s.fetches ≤ suc s.refreshes

poll-Bounded :
    (has_key : Bool) (url : Option String) (s : State) → Bounded s → Bounded (poll has_key url s)
poll-Bounded has_key none s v = ground arith
poll-Bounded has_key (some url) s v = ground (arith, length-append s.fetches (url ∷ []))

fetched-Bounded :
    (n : ℕ) (outcome : Result String) (s : State)
    → suc (length (remove_at n s.fetches)) ≡ length s.fetches
    → Bounded s
    → Bounded (fetched n outcome s)
unfolding fetched
fetched-Bounded n (ok b) s l v = record {
  idle = λ e. omega (arith, v.busy);
  busy = omega (arith, v.busy);
}
fetched-Bounded n (err m) s l v = record {
  idle = λ e. omega (arith, v.busy);
  busy = omega (arith, v.busy);
}

step-Bounded : (s : State) (e : Event) → Bounded s → Bounded (step s e)
unfolding step set_gateway disconnect_gateway invalidate_usdc_balance get_status fetched
step-Bounded s (sets url) v = ground arith
step-Bounded s disconnects v = ground arith
step-Bounded s sends v = ground arith
step-Bounded s (polls has_key) v = poll-Bounded has_key (truthy s.gateway_url) s v
step-Bounded s (fetch_ends n outcome) v = elim (Option-cases (fetch_at n s.fetches)) [
  | inl gone ↦ rw (gone, step) v
  | inr (url, found) ↦
      rw (found, step) (fetched-Bounded n outcome s (length-remove_at n s.fetches url found) v)
]

Bounded-run : (s : State) (es : List Event) → Bounded s → Bounded (run s es)
unfolding run
Bounded-run s [] v = v
Bounded-run s (e ∷ es) v = Bounded-run (step s e) es (step-Bounded s e v)

-- However often the status is polled, the fetches under way are at most one more than the changes
-- of gateway and the sends of a token so far, which allow a new one each.
pub fetches_bounded :
    (es : List Event) → length (run initial es).fetches ≤ suc (run initial es).refreshes
fetches_bounded es =
    (Bounded-run initial es (record { idle = λ e. omega arith; busy = omega arith })).busy

-- A fetch that was begun for one gateway and ends after another is set stores its balance all the
-- same: later polls are answered with the balance of the first gateway, and do not fetch.
pub stale_balance :
    (url1 url2 balance : String)
    → (url1 === "") ≡ false
    → (url2 === "") ≡ false
    → let s =
        run initial
          (sets url1 ∷ polls true ∷ sets url2 ∷ fetch_ends 0 (ok balance) ∷ polls true ∷ []) in
      (s.gateway_url ≡ some url2)
      × (s.fetches ≡ [])
      × (s.answers ≡ (true, some balance) ∷ (true, some balance) ∷ [])
unfolding run step set_gateway invalidate_usdc_balance get_status fetched
stale_balance url1 url2 balance t1 t2 = (rw t1 (rw t2 refl), rw t1 (rw t2 refl), rw t1 (rw t2 refl))
