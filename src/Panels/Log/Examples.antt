-- ===== src/Panels/Log/Examples.antt =====
-- client/src/renderer/App.tsx: the log of a session in strict mode.
use umbra_gateway.Prelude.{List, [], ◌∷◌, false, ◌≡◌, refl}
use umbra_gateway.Prelude.Text.{show_ℕ}
use umbra_gateway.X402.Types.{LogEntry, info, error}
use umbra_gateway.Logger.{emits, opens, loads}
use umbra_gateway.Panels.Log.{ScreenEvent, main, mounts, unmounts, blank, show, activity_log}
use umbra_gateway.Panels.Log.Shown.{no_page, heard, shown_since_mount}

abbrev early : LogEntry
early = record { ts = 1; direction = info; message = "spawning arti" }

abbrev late : LogEntry
late = record { ts = 2; direction = error; message = "bootstrap timed out" }

abbrev session : List ScreenEvent
session =
    main (emits early)
    ∷ main (opens false)
    ∷ mounts
    ∷ unmounts
    ∷ mounts
    ∷ main loads
    ∷ main (emits late)
    ∷ []

-- the early entry is not shown
heard_late : heard no_page session [] ≡ late ∷ []
heard_late = refl

shown_since_mount_example :
    activity_log show_ℕ (show blank session).logs ≡ activity_log show_ℕ (heard no_page session [])
shown_since_mount_example = shown_since_mount show_ℕ session refl
