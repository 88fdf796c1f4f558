-- ===== src/Notifications.antt =====
-- components/notification_manager/src/notification_manager.c: the notifications that are kept.
--
-- Memory is checked: `none` is a write behind the end of the array of notifications. The addresses of
-- the event handler and of the dismiss handler are arguments.
pub mod Kept
mod Tests
use minimal_watch_firmware_e.Base.{
  ℕ, ◌+◌, ◌-◌, Bool, true, false, not, ◌||◌, Option, none, some, List, [], ◌∷◌, ltb, leb, ◌==◌,
  if◌then◌else◌, u32, store, copy, memmove, ◌>>=◌,
}
use minimal_watch_firmware_e.Common.{Notification}
use minimal_watch_firmware_e.Events
use minimal_watch_firmware_e.Events.{Registry}

-- MAX_NOTIFICATIONS
abbrev pub max_notifications : ℕ
max_notifications = 20

-- EVENT_NOTIFICATION_RECEIVED
abbrev pub event_notification_received : ℕ
event_notification_received = 5

-- `initialized`, `notifications` and `total_notifications`
pub record NotificationManager : Type 0 where
  pub initialized : Bool
  pub notifications : ℕ → Notification
  pub total_notifications : ℕ

-- "Open App" and "Dismiss", as `strncpy` writes them, with the zero at the end.
abbrev open_app : List ℕ
open_app = 79 ∷ 112 ∷ 101 ∷ 110 ∷ 32 ∷ 65 ∷ 112 ∷ 112 ∷ 0 ∷ []

abbrev dismiss : List ℕ
dismiss = 68 ∷ 105 ∷ 115 ∷ 109 ∷ 105 ∷ 115 ∷ 115 ∷ 0 ∷ []

-- A notification with its texts, and with `assign_handlers`, which does the same for every application.
abbrev pub dressed : ℕ → Notification → Notification
dressed dismiss_notification n = record n {
  action_name = copy n.action_name 0 open_app;
  dismiss_text = copy n.dismiss_text 0 dismiss;
  dismiss_handler = dismiss_notification;
}

-- The oldest is discarded if there is no room.
abbrev pub discard_oldest : NotificationManager → NotificationManager
discard_oldest s =
    if s.total_notifications == max_notifications
    then record s {
      notifications = memmove s.notifications 0 1 (max_notifications - 1);
      total_notifications = u32 (s.total_notifications + 4294967295);
    }
    else s

-- A write behind those that are there.
abbrev pub append : Notification → NotificationManager → Option NotificationManager
append n s =
    if ltb s.total_notifications max_notifications
    then some (record s {
      notifications = store s.notifications s.total_notifications n;
      total_notifications = u32 (s.total_notifications + 1);
    })
    else none

-- `receive_notification`: whether the length is that of a notification, and the data.
unfoldable pub receive_notification :
    ℕ → Bool → Option Notification → NotificationManager → Option NotificationManager
receive_notification dismiss_notification sized none s = some s
receive_notification dismiss_notification sized (some n) s =
    if sized then append (dressed dismiss_notification n) (discard_oldest s) else some s

-- `notification_manager_init`
unfoldable pub init : ℕ → Registry → NotificationManager → Registry × NotificationManager
init receive r s = if s.initialized then (r, s) else (
  (Events.subscribe r event_notification_received receive).1,
  record s { total_notifications = 0; initialized = true },
)

-- `notification_manager_deinit`
unfoldable pub deinit : ℕ → Registry → NotificationManager → Registry × NotificationManager
deinit receive r s = (
  (Events.unsubscribe r event_notification_received receive).1,
  record s { total_notifications = 0; initialized = false },
)

-- `notification_manager_get_notification_count`
abbrev pub get_notification_count : NotificationManager → ℕ
get_notification_count s = s.total_notifications

-- `notification_manager_retreive_all_notification`: `given` says that `count` is not null; the option
-- is the array that is returned and what is written to `count`.
unfoldable pub retreive_all_notification :
    Bool → NotificationManager → Option ((ℕ → Notification) × ℕ)
retreive_all_notification given s =
    if not s.initialized || not given then none else some (s.notifications, s.total_notifications)

-- `notification_manager_retreive_notification`
unfoldable pub retreive_notification : ℕ → NotificationManager → Option Notification
retreive_notification index s =
    if not s.initialized
    then none
    else if leb s.total_notifications index
    then none
    else some (s.notifications index)

-- A notification goes, and those behind it move up.
abbrev pub dismissed : ℕ → NotificationManager → NotificationManager
dismissed index s = record s {
  notifications =
      if index == s.total_notifications - 1
      then s.notifications
      else memmove s.notifications index (index + 1) (s.total_notifications - index - 1);
  total_notifications = u32 (s.total_notifications + 4294967295);
}

-- `notification_manager_dismiss_notification`
unfoldable pub dismiss_notification : ℕ → NotificationManager → NotificationManager
dismiss_notification index s =
    if not s.initialized
    then s
    else if leb s.total_notifications index
    then s
    else dismissed index s
