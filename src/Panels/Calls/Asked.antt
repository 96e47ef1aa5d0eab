-- ===== src/Panels/Calls/Asked.antt =====
-- client/src/renderer/components/RpcTestPanel.tsx: which calls the panel makes.
use umbra_gateway.Prelude.{
  zero, suc, String, List, [], ◌∷◌, Option, none, some, Bool, true, false, ◌&&◌, ◌≡◌, refl, sym,
  ◌⊎◌, inl, inr, All, ok, err, if◌then◌else◌, arith,
}
use umbra_gateway.Prelude.Text.{◌===◌, ===_iff}
use mathlib.Core.Path.{subst}
use umbra_gateway.Panels.Calls.{
  rpc_methods, is_listed, address_for, result_of, Panel, can_send, handle_send, call_with,
  on_result, on_address, with_address, with_result, printed, Event, selects, clicks_send,
  address_comes, result_comes, step, run,
}

-- A call that the panel may make: `eth_getBalance` of an address, at the latest block, or another of
-- the listed methods, without arguments.
pub data IsAsked : String × List String → Type 0 where
  balance : (address : String) → IsAsked ("eth_getBalance", address ∷ "latest" ∷ [])
  plain :
      (method : String)
      → is_listed method rpc_methods ≡ true
      → (method === "eth_getBalance") ≡ false
      → IsAsked (method, [])

-- Between two runs of `handleSend` the panel shows a result, an error or nothing, never both; during
-- a run it shows neither, and waits for one reply.
pub data Orderly : Panel → Type 0 where
  rests :
      (method : String) (shown : Option String) (message : String)
      (sent : List (String × List String))
      → is_listed method rpc_methods ≡ true
      → (shown ≡ none) ⊎ (message ≡ "")
      → All IsAsked sent
      → Orderly (record {
        method = method;
        sending = false;
        last_result = shown;
        error = message;
        sent = sent;
        waits = [];
      })
  asks_address :
      (sent : List (String × List String))
      → All IsAsked sent
      → Orderly (record {
        method = "eth_getBalance";
        sending = true;
        last_result = none;
        error = "";
        sent = sent;
        waits = address_for "eth_getBalance" ∷ [];
      })
  calls :
      (method : String) (sent : List (String × List String))
      → is_listed method rpc_methods ≡ true
      → All IsAsked sent
      → Orderly (record {
        method = method;
        sending = true;
        last_result = none;
        error = "";
        sent = sent;
        waits = result_of method ∷ [];
      })

if-Orderly :
    (b : Bool) (p q : Panel) → (b ≡ true → Orderly p) → Orderly q → Orderly (if b then p else q)
if-Orderly true p q hp hq = hp refl
if-Orderly false p q hp hq = hq

second : (a b : Bool) → (a && b) ≡ true → b ≡ true
second a b e = ground arith

-- A button of a panel that is sending does nothing.
disabled :
    (connected has_key also : Bool) (p q : Panel)
    → Orderly q
    → Orderly (if (connected && has_key && false) && also then p else q)
disabled true true also p q h = h
disabled true false also p q h = h
disabled false has_key also p q h = h

busy :
    (connected has_key : Bool) (p q : Panel)
    → Orderly q
    → Orderly (if connected && has_key && false then p else q)
busy true true p q h = h
busy true false p q h = h
busy false has_key p q h = h

send-Orderly :
    (of_balance : Bool) (method : String) (sent : List (String × List String))
    → (method === "eth_getBalance") ≡ of_balance
    → is_listed method rpc_methods ≡ true
    → All IsAsked sent
    → Orderly (record {
      method = method;
      sending = true;
      last_result = none;
      error = "";
      sent = if of_balance then sent else (method, []) ∷ sent;
      waits = (if of_balance then address_for method else result_of method) ∷ [];
    })
send-Orderly true method sent e listed asked =
    subst
      (λ m. Orderly (record {
        method = m;
        sending = true;
        last_result = none;
        error = "";
        sent = sent;
        waits = address_for m ∷ [];
      }))
      (sym ((===_iff method "eth_getBalance").0 e)) (asks_address sent asked)
send-Orderly false method sent e listed asked =
    calls method ((method, []) ∷ sent) listed (plain method listed e, asked)

module _ {Value : Type 0} (stringify : Value → String) where
  idle-Orderly :
      (connected has_key : Bool) (e : Event stringify) (method : String) (shown : Option String)
      (message : String) (sent : List (String × List String))
      → is_listed method rpc_methods ≡ true
      → (shown ≡ none) ⊎ (message ≡ "")
      → All IsAsked sent
      → Orderly (
          step stringify connected has_key
            (record {
              method = method;
              sending = false;
              last_result = shown;
              error = message;
              sent = sent;
              waits = [];
            })
            e)
  unfolding step can_send handle_send with_address with_result
  idle-Orderly connected has_key (selects m) method shown message sent listed one asked =
      if-Orderly _ _ _
        (λ h. rests m shown message sent (second _ (is_listed m rpc_methods) h) one asked)
        (rests method shown message sent listed one asked)
  idle-Orderly connected has_key clicks_send method shown message sent listed one asked =
      if-Orderly _ _ _
        (λ h. send-Orderly (method === "eth_getBalance") method sent refl listed asked)
        (rests method shown message sent listed one asked)
  idle-Orderly connected has_key (address_comes n reply) method shown message sent listed one
        asked =
      rests method shown message sent listed one asked
  idle-Orderly connected has_key (result_comes n reply) method shown message sent listed one asked =
      rests method shown message sent listed one asked

  step-Orderly :
      (connected has_key : Bool) (p : Panel) (e : Event stringify)
      → Orderly p
      → Orderly (step stringify connected has_key p e)
  unfolding step can_send handle_send with_address with_result on_address on_result call_with
      printed
  step-Orderly connected has_key _ e (rests method shown message sent listed one asked) =
      idle-Orderly connected has_key e method shown message sent listed one asked
  step-Orderly connected has_key _ (selects m) (asks_address sent asked) =
      disabled connected has_key (is_listed m rpc_methods) _ _ (asks_address sent asked)
  step-Orderly connected has_key _ clicks_send (asks_address sent asked) =
      busy connected has_key _ _ (asks_address sent asked)
  step-Orderly connected has_key _ (address_comes zero (ok address)) (asks_address sent asked) =
      calls "eth_getBalance" (("eth_getBalance", address ∷ "latest" ∷ []) ∷ sent) refl
        (balance address, asked)
  step-Orderly connected has_key _ (address_comes zero (err message)) (asks_address sent asked) =
      rests "eth_getBalance" none message sent refl (inl refl) asked
  step-Orderly connected has_key _ (address_comes (suc n) reply) (asks_address sent asked) =
      asks_address sent asked
  step-Orderly connected has_key _ (result_comes zero reply) (asks_address sent asked) =
      asks_address sent asked
  step-Orderly connected has_key _ (result_comes (suc n) reply) (asks_address sent asked) =
      asks_address sent asked
  step-Orderly connected has_key _ (selects m) (calls method sent listed asked) =
      disabled connected has_key (is_listed m rpc_methods) _ _ (calls method sent listed asked)
  step-Orderly connected has_key _ clicks_send (calls method sent listed asked) =
      busy connected has_key _ _ (calls method sent listed asked)
  step-Orderly connected has_key _ (address_comes zero reply) (calls method sent listed asked) =
      calls method sent listed asked
  step-Orderly connected has_key _ (address_comes (suc n) reply) (calls method sent listed asked) =
      calls method sent listed asked
  step-Orderly connected has_key _ (result_comes zero (ok value)) (calls method sent listed asked) =
      rests method (some (stringify value)) "" sent listed (inr refl) asked
  step-Orderly connected has_key _ (result_comes zero (err m)) (calls method sent listed asked) =
      rests method none m sent listed (inl refl) asked
  step-Orderly connected has_key _ (result_comes (suc n) reply) (calls method sent listed asked) =
      calls method sent listed asked

  -- Whatever the user selects and clicks, whatever the calls return, and however the connection and
  -- the key come and go: the panel waits for one call at most, calls the listed methods only, with the
  -- arguments that they need, and never shows a result together with an error.
  pub run-Orderly :
      (p : Panel) (es : List ((Bool × Bool) × Event stringify))
      → Orderly p
      → Orderly (run stringify p es)
  run-Orderly p [] h = h
  run-Orderly p (((connected, has_key), e) ∷ es) h =
      run-Orderly (step stringify connected has_key p e) es (step-Orderly connected has_key p e h)
