-- ===== src/Ble/Responses/Returns.antt =====
-- `handle_ble_response` returns on every message.
use minimal_watch_firmware_e.Base.{
  ℕ, ◌+◌, ◌≤◌, ◌<◌, ◌≡◌, refl, ap, ◌∙◌, Bool, true, false, Option, some, arith, dec_lt,
  if◌then◌else◌, ◌>>=◌, le→ltb, leb, ◌==◌,
}
use minimal_watch_firmware_e.Common.{WeatherSync, Notification, app_name_size, body_size}
use minimal_watch_firmware_e.Ble.Message.{Msg, max_payload_size}
use minimal_watch_firmware_e.Ble.Multichunk.{Parser}
use minimal_watch_firmware_e.Ble.Multichunk.Stages.{IsOk, IsMsg}
use minimal_watch_firmware_e.Ble.Multichunk.Safe.{parse_new_chunk-IsOk}
use minimal_watch_firmware_e.Ble.Responses.{
  word, Outside, weather_sync, app_work_schedule, Chars, extract_lean_string, parse_weather_payload,
  after_title, after_body, parse_notification_payload, min_notification_size, tell, notify,
  on_notification, handle_ble_response,
}
use minimal_watch_firmware_e.Ble.Responses.Fields.{hours_at, extract_run, extract_refused}

abbrev pub weather_at : (ℕ → ℕ) → WeatherSync → WeatherSync
weather_at b weather = record {
  expires_at = word (b 0) (b 1) (b 2) (b 3);
  hourly_today = hours_at 24 b 0 4 weather.hourly_today;
}

pub weather_run :
    (m : Msg) (weather : WeatherSync)
    → parse_weather_payload m weather ≡ some (weather_at m.payload weather)
unfolding parse_weather_payload
weather_run m weather = refl

extract_returns :
    (m : Msg) (len i : ℕ) (dest : Chars) (dest_max : ℕ)
    → len ≤ max_payload_size
    → 0 < dest_max
    → dest_max ≤ 256
    → dest_max ≤ dest.size
    → (r : Bool × ℕ × Chars) × (extract_lean_string m len i dest dest_max ≡ some r)
extract_returns m len i dest dest_max h a b c = elim (dec_lt len (i + 1 + m.payload i)) [
  | yes short ↦ (_, extract_refused m len i dest dest_max h short)
  | no enough ↦ (_, extract_run m len i dest dest_max h (omega arith) a b c)
]

after_title_returns :
    (m : Msg) (len : ℕ) (dest : Notification) (r : Bool × ℕ × Chars)
    → len ≤ max_payload_size
    → (s : Bool × Notification) × (after_title m len dest r ≡ some s)
after_title_returns m len dest (false, i, chars) h = (_, refl)
after_title_returns m len dest (true, i, chars) h =
    let (r, e) =
      extract_returns m len i (record { size = body_size; cells = dest.body }) 100 h (omega arith)
        (omega arith) (omega arith) in
    (_, ap (λ o. o >>= λ r. some (after_body (record dest { app_name = chars.cells }) r)) e)

pub notification_run :
    (m : Msg) (len : ℕ) (dest : Notification) (r : Bool × ℕ × Chars)
    → min_notification_size ≤ len
    → extract_lean_string m len 1 (record { size = app_name_size; cells = dest.app_name }) 14
      ≡ some r
    → parse_notification_payload m len dest
      ≡ after_title m len (record dest { app = m.payload 0 }) r
unfolding parse_notification_payload
notification_run m len dest r h e =
    rw (le→ltb len 5 h) (ap (λ o. o >>= after_title m len (record dest { app = m.payload 0 })) e)

notification_returns :
    (m : Msg) (len : ℕ) (dest : Notification)
    → len ≤ max_payload_size
    → (s : Bool × Notification) × (parse_notification_payload m len dest ≡ some s)
unfolding parse_notification_payload
notification_returns m len dest h = elim (dec_lt len min_notification_size) [
  | yes short ↦ ((false, dest), ground arith)
  | no enough ↦
      let (r, e) =
        extract_returns m len 1 (record { size = app_name_size; cells = dest.app_name }) 14 h
          (omega arith) (omega arith) (omega arith) in
      let (s, f) = after_title_returns m len (record dest { app = m.payload 0 }) r h in
      (s, notification_run m len dest r (omega arith) e ∙ f)
]

module _ {ℓ} {W : Type ℓ} where
  -- A call that returns, with the chunk parser in order.
  abbrev pub Returns : Option (Bool × Parser × W) → Type ℓ
  Returns r = (ok : Bool) × (p : Parser) × (w : W) × (r ≡ some (ok, p, w)) × IsOk p

  if-Returns :
      (b : Bool) {x y : Option (Bool × Parser × W)}
      → Returns x
      → Returns y
      → Returns (if b then x else y)
  if-Returns true h k = h
  if-Returns false h k = k

  notify-Returns :
      (o : Outside W) (p : Parser) (w : W) (s : Bool × Notification)
      → IsOk p
      → Returns (notify o p w s)
  notify-Returns o p w (true, n) v = (_, p, _, refl, v)
  notify-Returns o p w (false, n) v = (false, p, w, refl, v)

  on_notification-Returns :
      (o : Outside W) (m : Msg) (p : Parser) (w : W)
      → IsOk p
      → IsMsg m
      → Returns (on_notification o m p w)
  on_notification-Returns o m p w v k =
      let (s, e) = notification_returns m m.hdr.len o.notification k.short in
      let (ok, q, x, f, u) = notify-Returns o p w s v in
      if-Returns (leb min_notification_size m.hdr.len)
        (ok, q, x, ap (λ r. r >>= λ s. notify o p w s) e ∙ f, u) (false, p, w, refl, v)

  -- On every message of bytes that fits its payload array, whatever it says, and with the chunk parser
  -- in order, `handle_ble_response` returns: nothing is read behind the payload, no string is written
  -- behind the end of its array; and the chunk parser is in order again.
  pub handle_ble_response-Returns :
      (o : Outside W) (m : Msg) (p : Parser) (w : W)
      → IsOk p
      → IsMsg m
      → Returns (handle_ble_response o (some m) p w)
  unfolding handle_ble_response
  handle_ble_response-Returns o m p w v k =
      let refused : Returns (some (false, p, w)) = (false, p, w, refl, v) in
      let (p', out, e, v') = parse_new_chunk-IsOk o.malloc o.crc32 m p v k in
      if-Returns (m.hdr.opcode == 1) (if-Returns (m.hdr.len == 4) (_, p, _, refl, v) refused) (
        if-Returns (m.hdr.opcode == 2)
          (if-Returns (m.hdr.len == 148)
            (
              _,
              p,
              _,
              ap (λ r. r >>= λ t. tell o (weather_sync t) p w) (weather_run m o.weather_state),
              v,
            )
            refused)
          (if-Returns (m.hdr.opcode == 3)
            (if-Returns (m.hdr.len == 148)
              (
                _,
                p,
                _,
                ap (λ r. r >>= λ t. tell o (app_work_schedule m.hdr.req_app t.hourly_today) p w)
                    (weather_run m o.weather_state),
                v,
              )
              refused)
            (if-Returns (m.hdr.opcode == 4) (on_notification-Returns o m p w v k) (
              if-Returns (m.hdr.opcode == 0xF0)
                (true, p', w, ap (λ r. r >>= λ t. some (true, t.0, w)) e, v') refused))))
