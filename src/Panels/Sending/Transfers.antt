-- ===== src/Panels/Sending/Transfers.antt =====
-- client/src/renderer/components/WalletPanel.tsx: which transfers the panel asks for, over all forms.
use umbra_gateway.Prelude.{
  ℕ, zero, suc, nth, String, List, [], ◌∷◌, Option, none, some, Bool, true, ◌||◌, ◌≡◌, refl, ap,
  ◌∙◌, All, All-append, arith,
}
use umbra_gateway.Prelude.Text.{◌===◌}
use umbra_gateway.Panels.{Numbers}
use umbra_gateway.Panels.Send
use umbra_gateway.Panels.Send.{Form, is_address, is_amount}
use umbra_gateway.Panels.Send.Safety.{IsAsked, Sane, step-Sane}
use umbra_gateway.Panels.Tokens.{Token, tokens}
use umbra_gateway.Panels.Sending.{
  Sending, initial, transfers, Event, opens, acts, closes, late_reply, set_sending_token, on_done,
  returned_late, in_form, step, run,
}

abbrev pub is_offered : String → Bool
is_offered symbol = symbol === "ETH" || symbol === "USDC"

module _ {Number : Type 0} (numbers : Numbers Number) where
  -- a transfer of a token of the list, of an amount above zero to an address
  abbrev pub IsTransfer : String × (String × String) → Type 0
  IsTransfer (token, (to, amount)) =
      (is_offered token ≡ true) × (is_address to ≡ true) × (is_amount numbers amount ≡ true)

  abbrev pub FormSound : Option (Token × Form) → Type 0
  FormSound none = Unit
  FormSound (some (token, f)) = (is_offered token.symbol ≡ true) × Sane numbers token.symbol f

  pub record Sound (s : Sending) : Type 0 where
    pub form : FormSound s.form
    pub past : All IsTransfer s.past

  asked-transfers :
      (symbol : String) (calls : List (String × (String × String)))
      → is_offered symbol ≡ true
      → All (IsAsked numbers symbol) calls
      → All IsTransfer calls
  asked-transfers symbol [] o h = tt
  asked-transfers symbol ((token, (to, amount)) ∷ calls) o ((same, to_valid, amount_valid), h) =
      ((ap is_offered same ∙ o, to_valid, amount_valid), asked-transfers symbol calls o h)

  fresh-Sane : (symbol : String) → Sane numbers symbol Send.initial
  fresh-Sane symbol = record { asked = tt; idle = λ e. refl; one = omega arith }

  opened-Sound :
      (form : Option (Token × Form)) (n : ℕ) (s : Sending)
      → Sound s
      → Sound (set_sending_token form (nth n tokens) s)
  unfolding set_sending_token
  opened-Sound none zero s h = record { form = (refl, fresh-Sane "ETH"); past = h.past }
  opened-Sound none (suc zero) s h = record { form = (refl, fresh-Sane "USDC"); past = h.past }
  opened-Sound none (suc (suc n)) s h = h
  opened-Sound (some f) n s h = h

  acted-Sound :
      (form : Option (Token × Form)) (balance : String) (e : Send.Event) (s : Sending)
      → FormSound form
      → Sound s
      → Sound (in_form numbers form balance e s)
  unfolding in_form
  acted-Sound none balance e s ok_form h = h
  acted-Sound (some (token, f)) balance e s (offered, sane) h = record {
    form = (offered, step-Sane numbers token.symbol balance f e sane);
    past = h.past;
  }

  done-Sound :
      (form : Option (Token × Form)) (s : Sending)
      → FormSound form
      → Sound s
      → Sound (on_done form s)
  unfolding on_done
  done-Sound none s ok_form h = h
  done-Sound (some (token, f)) s (offered, sane) h = record {
    form = tt;
    past =
        All-append IsTransfer f.calls s.past
          (asked-transfers token.symbol f.calls offered sane.asked) h.past;
  }

  late-Sound : (n : ℕ) (s : Sending) → Sound s → Sound (returned_late n s)
  unfolding returned_late
  late-Sound zero s h = h
  late-Sound (suc n) s h = record { form = h.form; past = h.past }

  step-Sound : (s : Sending) (e : Event) → Sound s → Sound (step numbers s e)
  unfolding step
  step-Sound s (opens n) h = opened-Sound s.form n s h
  step-Sound s (acts balance e) h = acted-Sound s.form balance e s h.form h
  step-Sound s closes h = done-Sound s.form s h.form h
  step-Sound s late_reply h = late-Sound s.abandoned s h

  run-Sound : (s : Sending) (es : List Event) → Sound s → Sound (run numbers s es)
  run-Sound s [] h = h
  run-Sound s (e ∷ es) h = run-Sound (step numbers s e) es (step-Sound s e h)

  sound-transfers :
      (form : Option (Token × Form)) (past : List (String × (String × String)))
      → FormSound form
      → All IsTransfer past
      → All IsTransfer (transfers (record initial { form = form; past = past }))
  sound-transfers none past ok_form h = h
  sound-transfers (some (token, f)) past (offered, sane) h =
      All-append IsTransfer f.calls past (asked-transfers token.symbol f.calls offered sane.asked) h

  -- Whatever the user opens, types, clicks and closes, and whenever the calls return: all transfers
  -- that the panel ever asks for are of a token of the list, of an amount above zero and to a
  -- well-formed address, and the form that is open has at most one call under way.
  pub transfers-Valid :
      (es : List Event)
      → All IsTransfer (transfers (run numbers initial es)) × Sound (run numbers initial es)
  transfers-Valid es =
      let h = run-Sound initial es (record { form = tt; past = tt }) in
      (sound-transfers _ (run numbers initial es).past h.form h.past, h)
