-- ===== src/Phone/Tests.antt =====
-- A message of the phone, up to the notifications that are kept.
use minimal_watch_firmware_e.Base.{
  ℕ, ◌≡◌, refl, ap, Bool, true, false, Option, none, some, List, [], ◌∷◌, arith, length, nth, read,
}
use minimal_watch_firmware_e.Wakelock.{pos}
use minimal_watch_firmware_e.Common.{Notification}
use minimal_watch_firmware_e.Ring.Queue
use minimal_watch_firmware_e.Ble.Message.{Msg}
use minimal_watch_firmware_e.Ble.Multichunk.{cleared}
use minimal_watch_firmware_e.Ble.Responses.{
  Outside, Sent, time_sync, weather_sync, app_work_schedule, notification_received,
  handle_ble_response,
}
use minimal_watch_firmware_e.Ble.Responses.Notices.{shown, notification_bytes}
use minimal_watch_firmware_e.Notifications.{
  NotificationManager, max_notifications, receive_notification,
}
use minimal_watch_firmware_e.Notifications.Kept.{held, IsValid}
use minimal_watch_firmware_e.Phone.{Delivers, notification_kept}

abbrev note : Notification
note = record {
  app = 0;
  app_name = λ _. 0;
  body = λ _. 0;
  action_name = λ _. 0;
  dismiss_text = λ _. 0;
  action_handler = 0;
  dismiss_handler = 0;
}

abbrev no_notes : NotificationManager
no_notes = record { initialized = true; notifications = λ _. note; total_notifications = 0 }

-- The answer of `event_publish`, which calls the one handler.
abbrev answer : NotificationManager → Option NotificationManager → Bool × NotificationManager
answer s none = (false, s)
answer s (some s') = (true, s')

abbrev publish : Sent → NotificationManager → Bool × NotificationManager
publish (time_sync e) s = (true, s)
publish (weather_sync e) s = (true, s)
publish (app_work_schedule a e) s = (true, s)
publish (notification_received n) s = answer s (receive_notification 77 true (some n) s)

abbrev outside : Outside NotificationManager
outside = record {
  malloc = λ n. none;
  crc32 = λ c bytes. c;
  event_publish = publish;
  weather_state = record {
    expires_at = 0;
    hourly_today = λ _. record {
      temperature = pos 0;
      humidity = 0;
      precip_prob = 0;
      weather_code = 0;
      wind_speed = 0;
    };
  };
  notification = note;
}

outside-Delivers : Delivers 77 outside
outside-Delivers n s s' e = ap (answer s) e

abbrev title : List ℕ
title = 65 ∷ 66 ∷ 67 ∷ []

abbrev text : List ℕ
text = 104 ∷ 105 ∷ []

abbrev msg : Msg
msg = record {
  hdr = record { opcode = 4; req_app = 0; len = 8 };
  payload = λ i. nth i (notification_bytes 1 title text);
}

notification_kept_example :
    (s : NotificationManager) × (n : Notification) × (handle_ble_response outside
        (some msg)
        cleared
        no_notes
      ≡ some (true, cleared, s))
    × IsValid s
    × (held s ≡ Queue.push_oldest max_notifications [] n)
    × (n.app ≡ 1)
    × (read n.app_name 0 (length (shown 13 title)) ≡ shown 13 title)
    × (read n.body 0 (length (shown 99 text)) ≡ shown 99 text)
    × (n.dismiss_handler ≡ 77)
notification_kept_example =
    notification_kept 77 outside msg cleared no_notes 1 title text outside-Delivers
      (record { few = omega arith }) refl (omega arith) (omega arith) refl
