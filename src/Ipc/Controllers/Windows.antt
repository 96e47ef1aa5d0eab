-- ===== src/Ipc/Controllers/Windows.antt =====
-- client/src/main/index.ts: which window the states of the controllers are sent to.
use umbra_gateway.Prelude.{
  ℕ, zero, suc, ◌+◌, String, List, [], ◌∷◌, ◌++◌, some, Bool, true, false, not, Result, ok, err,
  ◌≡◌, refl, ap, ◌∙◌, ◌==◌, ◌&&◌, if◌then◌else◌, Bool-cases, inl, inr, arith, length,
}
use mathlib.Core.Path.{subst, ap₂}
use umbra_gateway.Prelude.Text.{◌===◌, ===_iff}
use umbra_gateway.Ipc.Controllers.{
  App, initial, names, is_name, is_number, send_controller_state, subscribed, create_window,
  on_update, send_to,
}

-- how often a name is in a list, and a subscription among the subscriptions
abbrev occurrences : String → List String → ℕ
occurrences name [] = 0
occurrences name (n ∷ ns) = let rest = occurrences name ns in if n === name then suc rest else rest

abbrev count : ℕ → String → List (ℕ × String) → ℕ
count k name [] = 0
count k name ((j, n) ∷ rest) =
    let others = count k name rest in if j == k && n === name then suc others else others

-- `c` times the same message, before the ones sent already
abbrev pub repeat :
    ℕ → ℕ × (String × String) → List (ℕ × (String × String)) → List (ℕ × (String × String))
repeat zero m sent = sent
repeat (suc c) m sent = repeat c m (m ∷ sent)

-- The application after windows were opened, each with what `createMainController` returned.
abbrev pub open_windows : App → List (Result ℕ) → App
open_windows a [] = a
open_windows a (made ∷ rest) = open_windows (create_window made a) rest

-- how many of the windows were opened with main controller `k`
abbrev pub times : ℕ → List (Result ℕ) → ℕ
times k [] = 0
times k (ok j ∷ rest) = let others = times k rest in if j == k then suc others else others
times k (err message ∷ rest) = times k rest

sends :
    (name state : String) (w : ℕ) (a : App)
    → a.main_window ≡ some w
    → is_number w a.destroyed ≡ false
    → send_controller_state name (ok state) a ≡ record a { sent = (w, (name, state)) ∷ a.sent }
unfolding send_controller_state send_to
sends name state w a is_open visible =
    ap (λ o. send_to o (name, state) a) is_open
    ∙ ap (λ b. if b then a else record a { sent = (w, (name, state)) ∷ a.sent }) visible

on_update-sent :
    (k : ℕ) (name state : String) (w : ℕ) (subs : List (ℕ × String)) (a : App)
    → a.main_window ≡ some w
    → is_number w a.destroyed ≡ false
    → (on_update k name (ok state) subs a).sent
      ≡ repeat (count k name subs) (w, (name, state)) a.sent
unfolding on_update send_controller_state
on_update-sent k name state w [] a is_open visible = refl
on_update-sent k name state w ((j, n) ∷ rest) a is_open visible =
    sent_or_not (j == k && n === name)
      λ later_app opened seen. on_update-sent k name state w rest later_app opened seen
  where
    sent_or_not :
        (b : Bool)
        → ((t : App)
            → t.main_window ≡ some w
            → is_number w t.destroyed ≡ false
            → (on_update k name (ok state) rest t).sent
              ≡ repeat (count k name rest) (w, (name, state)) t.sent)
        → (on_update k name
            (ok state)
            rest
            (if b then send_controller_state name (ok state) a else a)).sent
          ≡ repeat
              (if b then suc (count k name rest) else count k name rest)
              (w, (name, state))
              a.sent
    sent_or_not true later =
        ap (λ t. (on_update k name (ok state) rest t).sent) (sends name state w a is_open visible)
        ∙ later (record a { sent = (w, (name, state)) ∷ a.sent }) is_open visible
    sent_or_not false later = later a is_open visible

count-append :
    (k : ℕ) (name : String) (xs ys : List (ℕ × String))
    → count k name (xs ++ ys) ≡ count k name xs + count k name ys
count-append k name [] ys = omega arith
count-append k name ((j, n) ∷ xs) ys = elim (Bool-cases (j == k && n === name)) [
  | inl here ↦ rw here (omega (arith, count-append k name xs ys))
  | inr not_here ↦ rw not_here (count-append k name xs ys)
]

-- the subscriptions of one window, for a name that is one of the names once
count-subscribed :
    (k j : ℕ) (name : String) (ns : List String)
    → count k name (subscribed j ns) ≡ (if j == k then occurrences name ns else 0)
count-subscribed k j name [] = ground arith
count-subscribed k j name (n ∷ ns) = elim (Bool-cases (j == k)) [
  | inl same ↦
      rw same
        (ap (λ c. if n === name then suc c else c) (count-subscribed k j name ns ∙ rw same refl))
  | inr other ↦ rw other (count-subscribed k j name ns ∙ rw other refl)
]

abbrev distinct : List String → Bool
distinct [] = true
distinct (n ∷ ns) = not (is_name n ns) && distinct ns

occurrences-once :
    (name : String) (ns : List String)
    → distinct ns ≡ true
    → occurrences name ns ≡ (if is_name name ns then 1 else 0)
occurrences-once name [] d = refl
occurrences-once name (n ∷ ns) d = elim (Bool-cases (n === name)) [
  | inl same ↦ rw same (
      ap suc (
        occurrences-once name ns (rest_distinct (is_name n ns) (distinct ns) d)
        ∙ ap (λ b. if b then 1 else 0)
            (subst (λ x. is_name x ns ≡ false) ((===_iff n name).0 same)
              (unnamed (is_name n ns) (distinct ns) d))))
  | inr other ↦ rw other (occurrences-once name ns (rest_distinct (is_name n ns) (distinct ns) d))
]
  where
    rest_distinct : (b c : Bool) → (not b && c) ≡ true → c ≡ true
    rest_distinct b c h = ground arith

    unnamed : (b c : Bool) → (not b && c) ≡ true → b ≡ false
    unnamed b c h = ground arith

-- the subscriptions after windows were opened
count-open :
    (k : ℕ) (name : String) (a : App) (rs : List (Result ℕ))
    → is_name name names ≡ true
    → count k name (open_windows a rs).subscriptions ≡ count k name a.subscriptions + times k rs
unfolding create_window
count-open k name a [] is = omega arith
count-open k name a (err message ∷ rs) is = count-open k name (create_window (err message) a) rs is
count-open k name a (ok j ∷ rs) is =
    let later = count-open k name (create_window (ok j) a) rs is in
    let split = count-append k name a.subscriptions (subscribed j names) in
    elim (Bool-cases (j == k)) [
      | inl same ↦ rw same (
          omega (
            arith,
            later,
            split,
            count-subscribed k j name names
                ∙ (ap (λ b. if b then occurrences name names else 0) same ∙ once),
          ))
      | inr other ↦ rw other (
          omega (
            arith,
            later,
            split,
            count-subscribed k j name names
                ∙ ap (λ b. if b then occurrences name names else 0) other,
          ))
    ]
  where
    once : occurrences name names ≡ 1
    once = occurrences-once name names refl ∙ ap (λ b. if b then 1 else 0) is

-- the window opened last is the main window, and opening one closes none
record Opened (w : ℕ) (a : App) (before : App) : Type 0 where
  main : a.main_window ≡ some w
  destroyed : a.destroyed ≡ before.destroyed
  sent : a.sent ≡ before.sent

open_windows-Opened :
    (a : App) (rs : List (Result ℕ)) (last : Result ℕ)
    → Opened (a.windows + length rs) (open_windows a (rs ++ last ∷ [])) a
unfolding create_window
open_windows-Opened a [] (ok k) = record {
  main = ap some (omega arith);
  destroyed = refl;
  sent = refl;
}
open_windows-Opened a [] (err m) = record {
  main = ap some (omega arith);
  destroyed = refl;
  sent = refl;
}
open_windows-Opened a (ok k ∷ rs) last =
    let later = open_windows-Opened (create_window (ok k) a) rs last in
    record {
      main = later.main ∙ ap some (omega arith);
      destroyed = later.destroyed;
      sent = later.sent;
    }
open_windows-Opened a (err m ∷ rs) last =
    let later = open_windows-Opened (create_window (err m) a) rs last in
    record {
      main = later.main ∙ ap some (omega arith);
      destroyed = later.destroyed;
      sent = later.sent;
    }

-- Each window that is opened brings a main controller of its own, and none is ever let go: an
-- update of any of them is sent, once for each window opened with it, to the window that was opened
-- last. This holds for the nine names, if windows were opened, with or without a controller, since
-- the start and the last one is not closed.
pub update_reaches_last :
    (k : ℕ) (name state : String) (rs : List (Result ℕ)) (last : Result ℕ)
    → is_name name names ≡ true
    → let a = open_windows initial (rs ++ last ∷ []) in
      (on_update k name (ok state) a.subscriptions a).sent
      ≡ repeat (times k (rs ++ last ∷ [])) (length rs, (name, state)) []
update_reaches_last k name state rs last is =
    let a = open_windows initial (rs ++ last ∷ []) in
    let opened = open_windows-Opened initial rs last in
    on_update-sent k name state (length rs) a.subscriptions a (opened.main ∙ ap some (omega arith))
      (ap (is_number (length rs)) opened.destroyed)
    ∙ ap₂ (λ c l. repeat c (length rs, (name, state)) l)
        (count-open k name initial (rs ++ last ∷ []) is ∙ zero_plus (times k (rs ++ last ∷ [])))
        opened.sent
  where
    zero_plus : (n : ℕ) → 0 + n ≡ n
    zero_plus n = omega arith
