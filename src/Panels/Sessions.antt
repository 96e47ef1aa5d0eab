-- ===== src/Panels/Sessions.antt =====
-- client/src/renderer/components/WalletConnectPanel.tsx: the panel of the sessions with other
-- applications, which App.tsx has commented out. WalletKit is there once an initialisation has
-- succeeded; its sessions change when a peer ends one, when a proposal is approved and when the user
-- disconnects.
pub mod Shown
use umbra_gateway.Prelude.{
  ℕ, zero, suc, String, List, [], ◌∷◌, Option, none, some, Bool, true, false, not, ◌&&◌, ◌||◌,
  Result, ok, err, if◌then◌else◌,
}
use umbra_gateway.Prelude.Text.{trim, ◌===◌}

-- `kit` is whether `walletKit` is set and `active` are its sessions; `listening` is whether
-- `onSessionsChange` is. The last four fields count or list the calls: of `getAddress`, of
-- `initWalletKit`, of `pairWC` and of `disconnectSession`.
pub record Panel (S : Type 0) : Type 0 where
  pub has_key : Bool
  pub uri : String
  pub sessions : List S
  pub pairing : Bool
  pub error : Option String
  pub kit : Bool
  pub active : List S
  pub listening : Bool
  pub addresses : ℕ
  pub initialising : ℕ
  pub pairs : List String
  pub disconnecting : ℕ

abbrev pub initial : {S : Type 0} → Panel S
initial = record {
  has_key = false;
  uri = "";
  sessions = [];
  pairing = false;
  error = none;
  kit = false;
  active = [];
  listening = false;
  addresses = 0;
  initialising = 0;
  pairs = [];
  disconnecting = 0;
}

-- A call that fails gives its message; an initialisation without a project's id gives no sessions.
pub data Event (S : Type 0) : Type 0 where
  has_key_is : Bool → Event S
  address_comes address_fails : Event S
  init_returns : Result (Option (List S)) → Event S
  sessions_change : List S → Event S
  types : String → Event S
  clicks_pair presses_enter : Event S
  pair_returns : Option String → Event S
  clicks_disconnect : Event S
  disconnect_returns : Option (List S) → Event S

module _ {S : Type 0} where
  unfoldable pub get_active_sessions : Panel S → List S
  get_active_sessions p = if p.kit then p.active else []

  unfoldable pub refresh_sessions : Panel S → Panel S
  unfolding get_active_sessions
  refresh_sessions p = record p { sessions = get_active_sessions p }

  -- onSessionsChange?.()
  unfoldable pub on_sessions_change : Panel S → Panel S
  unfolding refresh_sessions
  on_sessions_change p = if p.listening then refresh_sessions p else p

  -- the effect of a change of `hasKey`, after the clean-up of the one before
  unfoldable pub set_has_key : Bool → Panel S → Panel S
  set_has_key true p =
      if p.has_key
      then p
      else record p { has_key = true; listening = true; addresses = suc p.addresses }
  set_has_key false p = record p { has_key = false; listening = false }

  -- `initWalletKit`, up to its first await
  unfoldable pub init_wallet_kit : Panel S → Panel S
  unfolding refresh_sessions
  init_wallet_kit p =
      if p.kit then refresh_sessions p else record p { initialising = suc p.initialising }

  unfoldable pub on_init : Result (Option (List S)) → Panel S → Panel S
  unfolding refresh_sessions
  on_init (ok (some sessions)) p = refresh_sessions (record p { kit = true; active = sessions })
  on_init (ok none) p = refresh_sessions p
  on_init (err message) p = p

  unfoldable pub handle_pair : Panel S → Panel S
  unfolding trim
  handle_pair p =
      if trim p.uri === ""
      then p
      else record p { error = none; pairing = true; pairs = trim p.uri ∷ p.pairs }

  unfoldable pub on_paired : Option String → Panel S → Panel S
  on_paired none p = record p { uri = ""; pairing = false }
  on_paired (some message) p = record p { error = some message; pairing = false }

  unfoldable pub on_disconnected : Option (List S) → Panel S → Panel S
  unfolding on_sessions_change refresh_sessions
  on_disconnected none p = p
  on_disconnected (some left) p =
      if p.kit
      then refresh_sessions (on_sessions_change (record p { active = left }))
      else refresh_sessions p

  -- a reply to a call of which some have not returned
  abbrev pub when_waiting : ℕ → (ℕ → Panel S) → Panel S → Panel S
  when_waiting zero act p = p
  when_waiting (suc n) act p = act n

  -- the input and the button Pair are disabled without a key and while pairing
  unfoldable pub step : Panel S → Event S → Panel S
  unfolding set_has_key init_wallet_kit on_init on_sessions_change handle_pair on_paired
      on_disconnected
  step p (has_key_is value) = set_has_key value p
  step p address_comes =
      when_waiting p.addresses (λ n. init_wallet_kit (record p { addresses = n })) p
  step p address_fails = when_waiting p.addresses (λ n. record p { addresses = n }) p
  step p (init_returns outcome) =
      when_waiting p.initialising (λ n. on_init outcome (record p { initialising = n })) p
  step p (sessions_change sessions) =
      if p.kit then on_sessions_change (record p { active = sessions }) else p
  step p (types text) = if p.has_key && not p.pairing then record p { uri = text } else p
  step p clicks_pair = if p.has_key && not p.pairing then handle_pair p else p
  step p presses_enter = if p.has_key && not p.pairing then handle_pair p else p
  step p (pair_returns outcome) = if p.pairing then on_paired outcome p else p
  step p clicks_disconnect = record p { disconnecting = suc p.disconnecting }
  step p (disconnect_returns outcome) =
      when_waiting p.disconnecting (λ n. on_disconnected outcome (record p { disconnecting = n })) p

  abbrev pub run : Panel S → List (Event S) → Panel S
  run p [] = p
  run p (e ∷ es) = run (step p e) es
