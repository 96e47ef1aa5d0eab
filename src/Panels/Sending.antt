-- ===== src/Panels/Sending.antt =====
-- client/src/renderer/components/WalletPanel.tsx: the list of tokens and the form that sends one. The
-- form is drawn anew each time that it is opened, and what it had asked for goes on when it is closed.
pub mod Transfers
use umbra_gateway.Prelude.{ℕ, zero, suc, ◌+◌, nth, String, List, [], ◌∷◌, ◌++◌, Option, none, some}
use umbra_gateway.Panels.{Numbers}
use umbra_gateway.Panels.Send
use umbra_gateway.Panels.Send.{Form}
use umbra_gateway.Panels.Tokens.{Token, tokens}

-- `past` are the transfers that closed forms asked for, the newest first, `abandoned` counts those
-- that have not returned, and `fetches` the calls of `fetchBalances`.
pub record Sending : Type 0 where
  pub form : Option (Token × Form)
  pub past : List (String × (String × String))
  pub abandoned : ℕ
  pub fetches : ℕ

abbrev pub initial : Sending
initial = record { form = none; past = []; abandoned = 0; fetches = 0 }

-- all transfers that were asked for
abbrev asked_by : Option (Token × Form) → List (String × (String × String))
asked_by none = []
asked_by (some (token, f)) = f.calls

abbrev pub transfers : Sending → List (String × (String × String))
transfers s = asked_by s.form ++ s.past

-- An event of the form comes with the balance of its token then.
pub data Event : Type 0 where
  opens : ℕ → Event
  acts : String → Send.Event → Event
  closes : Event
  late_reply : Event

-- setSendingToken(token)
unfoldable pub set_sending_token : Option (Token × Form) → Option Token → Sending → Sending
set_sending_token none (some token) s = record s { form = some (token, Send.initial) }
set_sending_token none none s = s
set_sending_token (some open_form) chosen s = s

-- onDone, of the buttons Cancel and Done
unfoldable pub on_done : Option (Token × Form) → Sending → Sending
on_done none s = s
on_done (some (token, f)) s = record s {
  form = none;
  past = f.calls ++ s.past;
  abandoned = f.under_way + s.abandoned;
  fetches = suc s.fetches;
}

unfoldable pub returned_late : ℕ → Sending → Sending
returned_late zero s = s
returned_late (suc n) s = record s { abandoned = n }

module _ {Number : Type 0} (numbers : Numbers Number) where
  unfoldable pub in_form : Option (Token × Form) → String → Send.Event → Sending → Sending
  in_form none balance e s = s
  in_form (some (token, f)) balance e s = record s {
    form = some (token, Send.step numbers token.symbol balance f e);
  }

  unfoldable pub step : Sending → Event → Sending
  unfolding set_sending_token on_done returned_late in_form
  step s (opens n) = set_sending_token s.form (nth n tokens) s
  step s (acts balance e) = in_form s.form balance e s
  step s closes = on_done s.form s
  step s late_reply = returned_late s.abandoned s

  abbrev pub run : Sending → List Event → Sending
  run s [] = s
  run s (e ∷ es) = run (step s e) es
