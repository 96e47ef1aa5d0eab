-- ===== src/Panels/Send/Safety.antt =====
-- client/src/renderer/components/WalletPanel.tsx: which transfers the form asks for.
use umbra_gateway.Prelude.{
  ℕ, zero, suc, ◌≤◌, String, List, [], ◌∷◌, Bool, true, false, not, ◌&&◌, ◌||◌, ◌≡◌, refl, All,
  Result, ok, err, if◌then◌else◌, arith,
}
use umbra_gateway.Prelude.Text.{◌===◌}
use umbra_gateway.Panels.{Numbers}
use umbra_gateway.Panels.Send.{
  Form, is_address, is_amount, submit, handle_max, handle_send, on_sent, returned, is_drawn,
  can_send, Event, types_to, types_amount, clicks_max, clicks_send, returns, step, run,
}

module _ {Number : Type 0} (numbers : Numbers Number) (symbol : String) where
  -- a transfer of the form's token, of an amount above zero to an address
  abbrev pub IsAsked : String × (String × String) → Type 0
  IsAsked (token, (to, amount)) =
      (token ≡ symbol) × (is_address to ≡ true) × (is_amount numbers amount ≡ true)

  -- At most one call is under way, and only while the form is busy.
  pub record Sane (f : Form) : Type 0 where
    pub asked : All IsAsked f.calls
    pub idle : f.busy ≡ false → f.under_way ≡ 0
    pub one : f.under_way ≤ 1

  submit-Sane :
      (address_valid amount_valid : Bool) (f : Form)
      → is_address f.to ≡ address_valid
      → is_amount numbers f.amount ≡ amount_valid
      → f.busy ≡ false
      → Sane f
      → Sane (submit address_valid amount_valid symbol f)
  unfolding submit
  submit-Sane false amount_valid f a p free s = record {
    asked = s.asked;
    idle = s.idle;
    one = s.one;
  }
  submit-Sane true false f a p free s = record { asked = s.asked; idle = s.idle; one = s.one }
  submit-Sane true true f a p free s = record {
    asked = ((refl, a, p), s.asked);
    idle = λ busy. cc busy;
    one = omega (arith, s.idle free);
  }

  if-Sane : (b : Bool) (f g : Form) → (b ≡ true → Sane f) → Sane g → Sane (if b then f else g)
  if-Sane true f g sf sg = sf refl
  if-Sane false f g sf sg = sg

  returned-Sane :
      (n : ℕ) (outcome : Result String) (f : Form)
      → f.under_way ≡ n
      → Sane f
      → Sane (returned n outcome f)
  unfolding returned on_sent
  returned-Sane zero outcome f e s = s
  returned-Sane (suc n) (ok hash) f e s = record {
    asked = s.asked;
    idle = λ free. omega (arith, e, s.one);
    one = omega (arith, e, s.one);
  }
  returned-Sane (suc n) (err reason) f e s = record {
    asked = s.asked;
    idle = λ free. omega (arith, e, s.one);
    one = omega (arith, e, s.one);
  }

  can_send-free : (f : Form) → can_send f ≡ true → f.busy ≡ false
  unfolding can_send
  can_send-free f h = free_of (f.tx_hash === "") f.busy (f.to === "") (f.amount === "") h
    where
      free_of : (a b c d : Bool) → (a && not (b || c || d)) ≡ true → b ≡ false
      free_of a b c d h = ground arith

  pub step-Sane :
      (max_amount : String) (f : Form) (e : Event)
      → Sane f
      → Sane (step numbers symbol max_amount f e)
  unfolding step handle_max handle_send
  step-Sane max_amount f (types_to to) s =
      if-Sane (is_drawn f) _ f (λ _. record { asked = s.asked; idle = s.idle; one = s.one }) s
  step-Sane max_amount f (types_amount amount) s =
      if-Sane (is_drawn f) _ f (λ _. record { asked = s.asked; idle = s.idle; one = s.one }) s
  step-Sane max_amount f clicks_max s =
      if-Sane (is_drawn f) _ f
        (λ _.
          if-Sane (symbol === "ETH") _ _
            (λ _. record { asked = s.asked; idle = s.idle; one = s.one })
            (record { asked = s.asked; idle = s.idle; one = s.one }))
        s
  step-Sane max_amount f clicks_send s =
      if-Sane (can_send f) _ f
        (λ can.
          submit-Sane (is_address f.to) (is_amount numbers f.amount) f refl refl
            (can_send-free f can) s)
        s
  step-Sane max_amount f (returns outcome) s = returned-Sane f.under_way outcome f refl s

  -- Whatever the user types and clicks, and whatever the calls return: the form asks for transfers of
  -- its token only, each of an amount above zero to a well-formed address, and while one call is
  -- under way it makes no other.
  pub run-Sane :
      (max_amount : String) (f : Form) (es : List Event)
      → Sane f
      → Sane (run numbers symbol max_amount f es)
  run-Sane max_amount f [] s = s
  run-Sane max_amount f (e ∷ es) s =
      run-Sane max_amount (step numbers symbol max_amount f e) es (step-Sane max_amount f e s)
