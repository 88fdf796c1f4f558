-- ===== src/Navigation/Order.antt =====
-- Where the encoder moves the focus.
use minimal_watch_firmware_e.Base.{ℕ, Option, none, some, List, []}
use minimal_watch_firmware_e.Navigation.{Widget}
use minimal_watch_firmware_e.Navigation.Stops.{stops}

-- The stops of the scope of a widget: those below the first navigable widget above it.
abbrev pub scope : Option ℕ → Option Widget → List Widget
scope default none = []
scope default (some roof) = stops default roof
