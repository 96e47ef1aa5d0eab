-- ===== src/Panels/Sessions/Shown.antt =====
-- client/src/renderer/components/WalletConnectPanel.tsx: the sessions that are shown.
use umbra_gateway.Prelude.{
  ℕ, zero, suc, String, List, [], ◌∷◌, Option, none, some, Bool, true, false, not, ◌&&◌, ◌≡◌, ◌∙◌,
  refl, sym, All, Result, ok, err, if◌then◌else◌, arith,
}
use umbra_gateway.Prelude.Text.{trim, ◌===◌}
use umbra_gateway.Panels.Sessions.{
  Panel, Event, has_key_is, address_comes, address_fails, init_returns, sessions_change, types,
  clicks_pair, presses_enter, pair_returns, clicks_disconnect, disconnect_returns,
  get_active_sessions, refresh_sessions, on_sessions_change, set_has_key, init_wallet_kit, on_init,
  handle_pair, on_paired, on_disconnected, when_waiting, step, run,
}

module _ {S : Type 0} where
  -- Without WalletKit there are no sessions; a panel that listens and does not wait for the address
  -- shows the sessions that there are.
  pub record Fresh (p : Panel S) : Type 0 where
    pub kitless : p.kit ≡ false → p.active ≡ []
    pub unshown : p.kit ≡ false → p.sessions ≡ []
    pub shown : p.listening ≡ true → p.addresses ≡ 0 → p.sessions ≡ p.active

  abbrev pub Succeeds : Event S → Type 0
  Succeeds address_fails = ⊥
  Succeeds _ = Unit

  if-Fresh :
      (b : Bool) (p q : Panel S)
      → (b ≡ true → Fresh p)
      → (b ≡ false → Fresh q)
      → Fresh (if b then p else q)
  if-Fresh true p q hp hq = hp refl
  if-Fresh false p q hp hq = hq refl

  active_shown :
      (kit : Bool) (active : List S)
      → (kit ≡ false → active ≡ [])
      → (if kit then active else []) ≡ active
  active_shown true active h = refl
  active_shown false active h = sym (h refl)

  -- A refresh shows the sessions whatever was shown before.
  refresh-Fresh : (p : Panel S) → (p.kit ≡ false → p.active ≡ []) → Fresh (refresh_sessions p)
  unfolding refresh_sessions get_active_sessions
  refresh-Fresh p h = record {
    kitless = h;
    unshown = λ off. active_shown p.kit p.active h ∙ h off;
    shown = λ listens done. active_shown p.kit p.active h;
  }

  changed-Fresh :
      (p : Panel S)
      → (p.kit ≡ false → p.active ≡ [])
      → (p.kit ≡ false → p.sessions ≡ [])
      → Fresh (on_sessions_change p)
  unfolding on_sessions_change
  changed-Fresh p h unshown =
      if-Fresh p.listening _ p (λ listens. refresh-Fresh p h)
        (λ deaf. record { kitless = h; unshown = unshown; shown = λ listens. absurd deaf listens })
    where
      absurd : p.listening ≡ false → p.listening ≡ true → p.addresses ≡ 0 → p.sessions ≡ p.active
      absurd deaf listens done = cc (deaf, listens)

  -- Other fields do not matter.
  same-Fresh :
      (p q : Panel S)
      → Fresh p
      → q.kit ≡ p.kit
      → q.active ≡ p.active
      → q.sessions ≡ p.sessions
      → q.listening ≡ p.listening
      → q.addresses ≡ p.addresses
      → Fresh q
  same-Fresh p q h kit active sessions listening addresses = record {
    kitless = λ off. active ∙ h.kitless (sym kit ∙ off);
    unshown = λ off. sessions ∙ h.unshown (sym kit ∙ off);
    shown = λ listens done.
        sessions ∙ h.shown (sym listening ∙ listens) (sym addresses ∙ done) ∙ sym active;
  }

  key-Fresh : (value : Bool) (p : Panel S) → Fresh p → Fresh (set_has_key value p)
  unfolding set_has_key
  key-Fresh true p h =
      if-Fresh p.has_key p _ (λ had. h)
        (λ had_not. record {
          kitless = h.kitless;
          unshown = h.unshown;
          shown = λ listens done. ground (arith, done);
        })
  key-Fresh false p h = record {
    kitless = h.kitless;
    unshown = h.unshown;
    shown = λ listens done. cc listens;
  }

  address-Fresh :
      (p : Panel S)
      → (p.kit ≡ false → p.active ≡ [])
      → (p.kit ≡ false → p.sessions ≡ [])
      → Fresh (init_wallet_kit p)
  unfolding init_wallet_kit
  address-Fresh p h none_shown =
      if-Fresh p.kit _ _ (λ on. refresh-Fresh p h)
        (λ off. record {
          kitless = h;
          unshown = none_shown;
          shown = λ listens done. none_shown off ∙ sym (h off);
        })

  init-Fresh :
      (outcome : Result (Option (List S))) (p : Panel S) → Fresh p → Fresh (on_init outcome p)
  unfolding on_init
  init-Fresh (ok (some sessions)) p h =
      refresh-Fresh (record p { kit = true; active = sessions }) (λ off. cc off)
  init-Fresh (ok none) p h = refresh-Fresh p h.kitless
  init-Fresh (err message) p h = h

  pair-Fresh : (b : Bool) (p : Panel S) → Fresh p → Fresh (if b then handle_pair p else p)
  unfolding handle_pair
  pair-Fresh b p h =
      if-Fresh b _ p
        (λ can.
          if-Fresh (trim p.uri === "") p
            (record p { error = none; pairing = true; pairs = trim p.uri ∷ p.pairs }) (λ empty. h)
            (λ full. same-Fresh p _ h refl refl refl refl refl))
        (λ cannot. h)

  paired-Fresh : (outcome : Option String) (p : Panel S) → Fresh p → Fresh (on_paired outcome p)
  unfolding on_paired
  paired-Fresh none p h = same-Fresh p _ h refl refl refl refl refl
  paired-Fresh (some message) p h = same-Fresh p _ h refl refl refl refl refl

  left-Fresh :
      (outcome : Option (List S)) (p : Panel S) → Fresh p → Fresh (on_disconnected outcome p)
  unfolding on_disconnected on_sessions_change refresh_sessions
  left-Fresh none p h = h
  left-Fresh (some left) p h =
      if-Fresh p.kit _ _ (λ on. left_by p.listening on) (λ off. refresh-Fresh p h.kitless)
    where
      left_by :
          (b : Bool)
          → p.kit ≡ true
          → Fresh (
              refresh_sessions (
                if b
                then refresh_sessions (record p { active = left })
                else record p { active = left }))
      left_by true on =
          refresh-Fresh (refresh_sessions (record p { active = left })) (λ off. cc (on, off))
      left_by false on = refresh-Fresh (record p { active = left }) (λ off. cc (on, off))

  waiting-Fresh :
      (n : ℕ) (act : ℕ → Panel S) (p : Panel S)
      → ((m : ℕ) → n ≡ suc m → Fresh (act m))
      → Fresh p
      → Fresh (when_waiting n act p)
  waiting-Fresh zero act p ha h = h
  waiting-Fresh (suc n) act p ha h = ha n refl

  step-Fresh : (p : Panel S) (e : Event S) → Succeeds e → Fresh p → Fresh (step p e)
  unfolding step
  step-Fresh p (has_key_is value) ok_e h = key-Fresh value p h
  step-Fresh p address_comes ok_e h =
      waiting-Fresh p.addresses _ p
        (λ n e. address-Fresh (record p { addresses = n }) h.kitless h.unshown) h
  step-Fresh p address_fails ok_e h = elim ok_e [ ]
  step-Fresh p (init_returns outcome) ok_e h =
      waiting-Fresh p.initialising _ p
        (λ n e.
          init-Fresh outcome (record p { initialising = n })
            (same-Fresh p _ h refl refl refl refl refl))
        h
  step-Fresh p (sessions_change sessions) ok_e h =
      if-Fresh p.kit _ p
        (λ on. changed-Fresh (record p { active = sessions }) (λ off. cc (on, off)) h.unshown)
        (λ off. h)
  step-Fresh p (types text) ok_e h =
      if-Fresh (p.has_key && not p.pairing) (record p { uri = text }) p
        (λ can. same-Fresh p _ h refl refl refl refl refl) (λ cannot. h)
  step-Fresh p clicks_pair ok_e h = pair-Fresh (p.has_key && not p.pairing) p h
  step-Fresh p presses_enter ok_e h = pair-Fresh (p.has_key && not p.pairing) p h
  step-Fresh p (pair_returns outcome) ok_e h =
      if-Fresh p.pairing _ p (λ pairing. paired-Fresh outcome p h) (λ not_pairing. h)
  step-Fresh p clicks_disconnect ok_e h = same-Fresh p _ h refl refl refl refl refl
  step-Fresh p (disconnect_returns outcome) ok_e h =
      waiting-Fresh p.disconnecting _ p
        (λ n e.
          left-Fresh outcome (record p { disconnecting = n })
            (same-Fresh p _ h refl refl refl refl refl))
        h

  -- Unless `getAddress` fails: whatever the user, the peers and the application do, and whenever the
  -- calls return, a panel that has a key and does not wait for the address shows the sessions that
  -- WalletKit has.
  pub run-Fresh : (p : Panel S) (es : List (Event S)) → All Succeeds es → Fresh p → Fresh (run p es)
  run-Fresh p [] ok_es h = h
  run-Fresh p (e ∷ es) (ok_e, ok_es) h = run-Fresh (step p e) es ok_es (step-Fresh p e ok_e h)
