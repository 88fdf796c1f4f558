-- ===== src/Phone.antt =====
-- The components that a message of the phone goes through, from components/ble_manager to
-- components/notification_manager.
mod Tests
use minimal_watch_firmware_e.Base.{ℕ, ◌≤◌, ◌≡◌, ◌∙◌, refl, ap, true, some, List, length, read}
use minimal_watch_firmware_e.Common.{Notification}
use minimal_watch_firmware_e.Ring.Queue
use minimal_watch_firmware_e.Ble.Message.{Msg, max_payload_size}
use minimal_watch_firmware_e.Ble.Multichunk.{Parser}
use minimal_watch_firmware_e.Ble.Responses.{
  Outside, notification_received, min_notification_size, handle_ble_response,
}
use minimal_watch_firmware_e.Ble.Responses.Notices.{shown, notification_bytes, notification_arrives}
use minimal_watch_firmware_e.Notifications.{
  NotificationManager, max_notifications, dressed, receive_notification,
}
use minimal_watch_firmware_e.Notifications.Kept.{held, IsValid, receive_refines}

-- The event manager calls the handler of the notification manager, and it alone for this event.
abbrev pub Delivers : ℕ → Outside NotificationManager → Type 0
Delivers d o =
    (n : Notification) (s s' : NotificationManager)
    → receive_notification d true (some n) s ≡ some s'
    → o.event_publish (notification_received n) s ≡ (true, s')

-- Where the event manager delivers notifications to the notification manager, whose state is valid: a
-- message whose payload is an application, a title behind its length and a body behind its length, of
-- at least five bytes and no more than a payload has, is answered with true, and is kept behind the
-- notifications that were there, without the oldest of them if they are 20: with the title up to its
-- 13th byte and the body up to its 99th, and the dismiss handler. The state is valid again.
pub notification_kept :
    (d : ℕ) (o : Outside NotificationManager) (m : Msg) (p : Parser) (s : NotificationManager)
    (app : ℕ) (name text : List ℕ)
    → Delivers d o
    → IsValid s
    → m.hdr.opcode ≡ 4
    → m.hdr.len ≤ max_payload_size
    → min_notification_size ≤ m.hdr.len
    → read m.payload 0 m.hdr.len ≡ notification_bytes app name text
    → (s' : NotificationManager) × (n : Notification) × (handle_ble_response o (some m) p s
        ≡ some (true, p, s'))
      × IsValid s'
      × (held s' ≡ Queue.push_oldest max_notifications (held s) n)
      × (n.app ≡ app)
      × (read n.app_name 0 (length (shown 13 name)) ≡ shown 13 name)
      × (read n.body 0 (length (shown 99 text)) ≡ shown 99 text)
      × (n.dismiss_handler ≡ d)
notification_kept d o m p s app name text delivers v op h k e =
    let (n, handled, a, t, b, i, j) = notification_arrives o m p s app name text op h k e in
    let (s', received, v', on, kept) = receive_refines d n s v in
    (
      s',
      dressed d n,
      handled ∙ ap (λ r. some (r.0, p, r.1)) (delivers n s s' received),
      v',
      kept,
      a,
      t,
      b,
      refl,
    )
