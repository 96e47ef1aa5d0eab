-- ===== src/Ipc/Controllers.antt =====
-- client/src/main/index.ts: the window, the controllers of ambire-common, and how their states come
-- to the renderer. A controller is a number; what it is made of, and the text of a state, are
-- outside the model.
pub mod Windows
use umbra_gateway.Prelude.{
  ℕ, suc, String, List, [], ◌∷◌, ◌++◌, Option, none, some, Bool, true, false, Result, ok, err, ◌==◌,
  ◌&&◌, if◌then◌else◌,
}
use umbra_gateway.Prelude.Text.{append, ◌===◌}

-- `ambire_ctrl` is the number of the main controller; a subscription has the number of its main
-- controller and the name. `sent` are the messages `controller:update` to a window, the newest
-- first; `destroyed` are the windows that are closed.
pub record App : Type 0 where
  pub main_window : Option ℕ
  pub ambire_ctrl : Option ℕ
  pub subscriptions : List (ℕ × String)
  pub windows : ℕ
  pub destroyed : List ℕ
  pub sent : List (ℕ × (String × String))
  pub log : List String

abbrev pub initial : App
initial = record {
  main_window = none;
  ambire_ctrl = none;
  subscriptions = [];
  windows = 0;
  destroyed = [];
  sent = [];
  log = [];
}

abbrev pub names : List String
names =
    "main" ∷ "keystore" ∷ "accounts" ∷ "networks" ∷ "selectedAccount" ∷ "portfolio" ∷ "activity"
    ∷ "transfer" ∷ "accountPicker" ∷ []

abbrev pub is_name : String → List String → Bool
is_name name [] = false
is_name name (n ∷ ns) = if n === name then true else is_name name ns

abbrev pub is_number : ℕ → List ℕ → Bool
is_number k [] = false
is_number k (n ∷ ns) = if k == n then true else is_number k ns

-- mainWindow.webContents.send('controller:update', …), where the window is there
unfoldable pub send_to : Option ℕ → String × String → App → App
send_to none message a = a
send_to (some w) message a =
    if is_number w a.destroyed then a else record a { sent = (w, message) ∷ a.sent }

-- `sendControllerState`, where an error is a state whose text cannot be made
unfoldable pub send_controller_state : String → Result String → App → App
unfolding send_to
send_controller_state name (err message) a = a
send_controller_state name (ok state) a = send_to a.main_window (name, state) a

abbrev subscribed : ℕ → List String → List (ℕ × String)
subscribed k [] = []
subscribed k (n ∷ ns) = (k, n) ∷ subscribed k ns

-- `createWindow`, for what `createMainController` returns or throws
unfoldable pub create_window : Result ℕ → App → App
create_window made a =
    let opened = record a { main_window = some a.windows; windows = suc a.windows } in
    elim made [
      | ok k ↦ record opened {
        ambire_ctrl = some k;
        subscriptions = opened.subscriptions ++ subscribed k names;
        log = "ambire-common MainController initialized" ∷ opened.log;
      }
      | err message ↦ record opened {
        log = append "MainController init failed: " message ∷ opened.log;
      }
    ]

-- app.on('activate', …), where `all_windows` is the number of windows
unfoldable pub on_activate : ℕ → Result ℕ → App → App
unfolding create_window
on_activate all_windows made a = if all_windows == 0 then create_window made a else a

-- the updates of one controller: each subscription sends the state
unfoldable pub on_update : ℕ → String → Result String → List (ℕ × String) → App → App
unfolding send_controller_state
on_update k name state [] a = a
on_update k name state ((j, n) ∷ rest) a =
    on_update k name state rest
      (if j == k && n === name then send_controller_state name state a else a)

-- `controller:getState`, for the texts of the controllers' states; `inherited` is what an object
-- has at a name that is not its own
unfoldable pub get_state :
    (ℕ → String → Result String)
    → (String → Result (Option String))
    → String
    → App
    → Result (Option String)
get_state state_of inherited name a = elim a.ambire_ctrl [
  | none ↦ ok none
  | some k ↦
      if is_name name names
      then (elim (state_of k name) [ err message ↦ err message | ok state ↦ ok (some state) ])
      else inherited name
]
