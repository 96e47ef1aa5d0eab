-- ===== src/Panels/Gateway/Agreement.antt =====
-- client/src/renderer/App.tsx: what the application shows of the gateway, and the main process's.
use umbra_gateway.Prelude.{
  String, List, [], ◌∷◌, none, some, true, false, ◌≡◌, refl, sym, ap, not, ◌&&◌, if◌then◌else◌,
}
use mathlib.Core.Path.{subst}
use umbra_gateway.Prelude.Text.{trim, ◌===◌}
use umbra_gateway.Panels.Gateway.{
  disconnects, Gateway, is_usable, initial, clean, handle_connect, handle_disconnect, on_reply,
  can_connect, types, clicks_connect, clicks_disconnect, presses_enter, returns, Event, step, run,
}

-- What the user does, each with the reply that it waits for.
pub data Action : Type 0 where
  types_text : String → Action
  connects presses disconnects_it : Action

abbrev pub events : Action → List Event
events (types_text text) = types text ∷ []
events connects = clicks_connect ∷ returns 0 ∷ []
events presses = presses_enter ∷ returns 0 ∷ []
events disconnects_it = clicks_disconnect ∷ returns 0 ∷ []

abbrev pub take_actions : Gateway → List Action → Gateway
take_actions g [] = g
take_actions g (a ∷ rest) = take_actions (run g (events a)) rest

-- Connected with the URL that the main process has, or not connected and it has none.
pub data Agrees : Gateway → Type 0 where
  on :
      (url input : String)
      → Agrees (record {
        main_url = some url;
        connected = true;
        gateway_url = url;
        input_url = input;
        connecting = false;
        under_way = [];
      })
  off :
      (url input : String)
      → Agrees (record {
        main_url = none;
        connected = false;
        gateway_url = url;
        input_url = input;
        connecting = false;
        under_way = [];
      })

-- What the application shows, and what the main process has.
pub record Shows (g : Gateway) : Type 0 where
  pub url_shown : g.connected ≡ true → g.main_url ≡ some g.gateway_url
  pub nothing_kept : g.connected ≡ false → g.main_url ≡ none
  pub usable : is_usable g.main_url ≡ (g.connected && not (g.gateway_url === ""))

-- A second click on Disconnect, before the reply to the first, makes a second call. If its reply comes
-- after the user has connected again, the application shows that it is not connected, while the main
-- process has a gateway.
pub late_disconnect :
    (url input : String)
    → (trim input === "") ≡ false
    → let g =
        run
          (record initial { main_url = some url; connected = true; input_url = input })
          (clicks_disconnect
            ∷ clicks_disconnect
            ∷ returns 0
            ∷ clicks_connect
            ∷ returns 1
            ∷ returns 0
            ∷ []) in
      (g.connected ≡ false) × (g.main_url ≡ some (clean input))
unfolding step handle_connect handle_disconnect on_reply can_connect
late_disconnect url input e =
    subst
      (λ h.
        let g = run h (returns 1 ∷ returns 0 ∷ []) in
        (g.connected ≡ false) × (g.main_url ≡ some (clean input)))
      (sym (ap (λ b. if not b then handle_connect half else half) e)) (refl, refl)
  where
    half : Gateway
    half = record initial { input_url = input; under_way = disconnects ∷ [] }
