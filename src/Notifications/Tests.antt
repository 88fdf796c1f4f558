-- ===== src/Notifications/Tests.antt =====
-- Arrivals and dismissals at concrete states.
use minimal_watch_firmware_e.Base.{ℕ, ◌≤◌, ◌≡◌, refl, true, false, some, List, [], ◌∷◌}
use minimal_watch_firmware_e.Common.{Notification}
use minimal_watch_firmware_e.Events.{Registry, cleared_subscription}
use minimal_watch_firmware_e.Ring
use minimal_watch_firmware_e.Notifications.{
  NotificationManager, max_notifications, init, dressed, receive_notification,
}
use minimal_watch_firmware_e.Notifications.Kept.{
  held, Op, receives, dismisses, run, shows, notifications_refine,
}

abbrev note : ℕ → Notification
note a = record {
  app = a;
  app_name = λ _. 0;
  body = λ _. 0;
  action_name = λ _. 0;
  dismiss_text = λ _. 0;
  action_handler = 0;
  dismiss_handler = 0;
}

-- Never initialized.
abbrev cold : NotificationManager
cold = record { initialized = false; notifications = λ _. note 0; total_notifications = 3 }

abbrev registry : Registry
registry = record { subscriptions = λ _. cleared_subscription; initialized = true }

-- Two arrive, the first is dismissed, and an index that no notification has.
abbrev events : List Op
events = receives (note 1) ∷ receives (note 2) ∷ dismisses 0 ∷ dismisses 5 ∷ []

second_stays : shows 77 [] events ≡ dressed 77 (note 2) ∷ []
unfolding Ring.Queue.push_oldest
second_stays = refl

wrong_size_skipped : receive_notification 77 false (some (note 1)) cold ≡ some cold
unfolding receive_notification
wrong_size_skipped = refl

notifications_refine_example :
    (s : NotificationManager) × (run 77 (init 55 registry cold).1 events ≡ some s)
    × (held s ≡ shows 77 [] events)
    × (s.total_notifications ≤ max_notifications)
notifications_refine_example = notifications_refine 77 55 registry cold events refl
