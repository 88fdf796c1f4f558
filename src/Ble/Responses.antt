-- ===== src/Ble/Responses.antt =====
-- components/ble_manager/src/ble_response_handler.c: what the phone sends is read and published.
--
-- Memory is checked: a read behind the payload array of a message, or a write behind the end of an
-- array of characters, gives `none`. A message in chunks goes to `parse_new_chunk`, and what comes of
-- it is freed, as no opcode of such a message is known.
pub mod Fields
pub mod Returns
pub mod Weather
pub mod Notices
mod Tests
use Prim.Native.Nat.{bit_or}
use minimal_watch_firmware_e.Base.{
  ℕ, zero, suc, ◌+◌, ◌-◌, ◌*◌, Bool, true, false, Option, none, some, List, ltb, leb, ◌==◌,
  if◌then◌else◌, u8, u16, u32, store, copy, length, ◌>>=◌,
}
use minimal_watch_firmware_e.Wakelock.{ℤ, pos, negsuc}
use minimal_watch_firmware_e.Common.{
  HourlyWeather, WeatherSync, Notification, app_name_size, body_size,
}
use minimal_watch_firmware_e.Ble.Message.{Msg, max_payload_size}
use minimal_watch_firmware_e.Ble.Multichunk.{Parser, Multi, parse_new_chunk, read_payload}

-- BLE_MSG_TIME_SIZE
abbrev pub time_size : ℕ
time_size = 4

-- BLE_MSG_WEATHER_SIZE
abbrev pub weather_size : ℕ
weather_size = 148

-- BLE_MSG_MIN_NOTIFICATION_SIZE
abbrev pub min_notification_size : ℕ
min_notification_size = 5

-- MAX_NOTIFICATION_TITLE_SIZE
abbrev pub max_notification_title_size : ℕ
max_notification_title_size = 14

-- MAX_NOTIFICATION_BODY_SIZE
abbrev pub max_notification_body_size : ℕ
max_notification_body_size = 100

-- The events that are published. The data of `app_work_schedule` are the application, and the hours
-- as `update.data` has them.
pub data Sent : Type 0 where
  time_sync : ℕ → Sent
  weather_sync : WeatherSync → Sent
  app_work_schedule : ℕ → (ℕ → HourlyWeather) → Sent
  notification_received : Notification → Sent

-- What the handler gets from outside: the allocator, the ROM's CRC, the event manager in the rest of
-- the firmware, and what the stack holds where the local variables are.
pub record Outside {ℓ} (W : Type ℓ) : Type ℓ where
  pub malloc : ℕ → Option (ℕ → ℕ)
  pub crc32 : ℕ → List ℕ → ℕ
  pub event_publish : Sent → W → Bool × W
  pub weather_state : WeatherSync
  pub notification : Notification

abbrev pub byte_at : Msg → ℕ → Option ℕ
byte_at m i = if ltb i max_payload_size then some (m.payload i) else none

abbrev pub word : ℕ → ℕ → ℕ → ℕ → ℕ
word a b c d = bit_or (bit_or (bit_or (u32 (a * 16777216)) (u32 (b * 65536))) (u32 (c * 256))) d

-- `parse_date_time_payload`, which is also how the weather starts.
abbrev pub parse_date_time_payload : Msg → Option ℕ
parse_date_time_payload m = do
  a ← byte_at m 0
  b ← byte_at m 1
  c ← byte_at m 2
  d ← byte_at m 3
  some (word a b c d)

-- `(int16_t)`, of 16 bits.
abbrev pub int16 : ℕ → ℤ
int16 n = if ltb n 32768 then pos n else negsuc (65535 - n)

-- One round of the loop over the hours.
abbrev pub parse_hour : Msg → ℕ → Option HourlyWeather
parse_hour m idx = do
  high ← byte_at m idx
  low ← byte_at m (idx + 1)
  humidity' ← byte_at m (idx + 2)
  precip_prob' ← byte_at m (idx + 3)
  weather_code' ← byte_at m (idx + 4)
  wind_speed' ← byte_at m (idx + 5)
  some (record {
    temperature = int16 (bit_or (high * 256) low);
    humidity = humidity';
    precip_prob = precip_prob';
    weather_code = weather_code';
    wind_speed = wind_speed';
  })

-- The loop, with `n` rounds to go.
abbrev pub parse_hours : ℕ → Msg → ℕ → ℕ → (ℕ → HourlyWeather) → Option (ℕ → HourlyWeather)
parse_hours zero m i idx hours = some hours
parse_hours (suc n) m i idx hours = do
  hour ← parse_hour m idx
  parse_hours n m (i + 1) (u16 (idx + 6)) (store hours i hour)

-- `parse_weather_payload`
unfoldable pub parse_weather_payload : Msg → WeatherSync → Option WeatherSync
parse_weather_payload m weather = do
  expires ← parse_date_time_payload m
  hours ← parse_hours 24 m 0 4 weather.hourly_today
  some (record { expires_at = expires; hourly_today = hours })

-- An array of characters.
pub record Chars : Type 0 where
  pub size : ℕ
  pub cells : ℕ → ℕ

-- A copy into an array, and the byte behind it that ends the string.
abbrev pub put_string : Chars → List ℕ → Option Chars
put_string dest xs =
    if ltb (length xs) dest.size
    then some (record dest { cells = store (copy dest.cells 0 xs) (length xs) 0 })
    else none

-- `copy_bytes`
abbrev pub copy_bytes : ℕ → ℕ → ℕ
copy_bytes str_len dest_max = u8 (if ltb str_len (dest_max - 1) then str_len else dest_max - 1)

-- `extract_lean_string` once it knows `str_len`; `idx` is behind it and `current_idx` is where it is.
abbrev pub extract_text : Msg → ℕ → ℕ → ℕ → ℕ → Chars → ℕ → Option (Bool × ℕ × Chars)
extract_text m payload_len current_idx idx str_len dest dest_max =
    if ltb payload_len (idx + str_len) then some (false, current_idx, dest) else do
      xs ← read_payload m idx (copy_bytes str_len dest_max)
      dest' ← put_string dest xs
      some (true, u16 (idx + str_len), dest')

-- `extract_lean_string`
unfoldable pub extract_lean_string : Msg → ℕ → ℕ → Chars → ℕ → Option (Bool × ℕ × Chars)
extract_lean_string m payload_len current_idx dest dest_max =
    if leb payload_len current_idx then some (false, current_idx, dest) else do
      str_len ← byte_at m current_idx
      extract_text m payload_len current_idx (u16 (current_idx + 1)) str_len dest dest_max

-- The body was tried; the index is only compared for a log.
abbrev pub after_body : Notification → Bool × ℕ × Chars → Bool × Notification
after_body dest (false, idx, chars) = (false, record dest { body = chars.cells })
after_body dest (true, idx, chars) =
    (true, record dest { body = chars.cells; action_handler = 0; dismiss_handler = 0 })

-- The title was tried.
abbrev pub after_title : Msg → ℕ → Notification → Bool × ℕ × Chars → Option (Bool × Notification)
after_title m len dest (false, idx, chars) = some (false, record dest { app_name = chars.cells })
after_title m len dest (true, idx, chars) = do
  r ←
      extract_lean_string m len idx (record { size = body_size; cells = dest.body })
        max_notification_body_size
  some (after_body (record dest { app_name = chars.cells }) r)

-- `parse_notification_payload`
unfoldable pub parse_notification_payload : Msg → ℕ → Notification → Option (Bool × Notification)
parse_notification_payload m len dest =
    if ltb len min_notification_size then some (false, dest) else do
      app' ← byte_at m 0
      r ←
          extract_lean_string m len 1 (record { size = app_name_size; cells = dest.app_name })
            max_notification_title_size
      after_title m len (record dest { app = app' }) r

module _ {ℓ} {W : Type ℓ} where
  -- `event_publish`, whose answer is the handler's.
  abbrev pub tell : Outside W → Sent → Parser → W → Option (Bool × Parser × W)
  tell o e p w = let (ok, w') = o.event_publish e w in some (ok, p, w')

  abbrev pub notify : Outside W → Parser → W → Bool × Notification → Option (Bool × Parser × W)
  notify o p w (true, n) = tell o (notification_received n) p w
  notify o p w (false, n) = some (false, p, w)

  -- The cases of the switch.
  abbrev pub on_time : Outside W → Msg → Parser → W → Option (Bool × Parser × W)
  on_time o m p w =
      if m.hdr.len == time_size
      then (do time ← parse_date_time_payload m; tell o (time_sync time) p w)
      else some (false, p, w)

  abbrev pub on_weather : Outside W → Msg → Parser → W → Option (Bool × Parser × W)
  on_weather o m p w =
      if m.hdr.len == weather_size
      then (do weather ← parse_weather_payload m o.weather_state; tell o (weather_sync weather) p w)
      else some (false, p, w)

  abbrev pub on_dated_weather : Outside W → Msg → Parser → W → Option (Bool × Parser × W)
  on_dated_weather o m p w =
      if m.hdr.len == weather_size
      then (do
        weather ← parse_weather_payload m o.weather_state
        tell o (app_work_schedule m.hdr.req_app weather.hourly_today) p w)
      else some (false, p, w)

  abbrev pub on_notification : Outside W → Msg → Parser → W → Option (Bool × Parser × W)
  on_notification o m p w =
      if leb min_notification_size m.hdr.len
      then (do r ← parse_notification_payload m m.hdr.len o.notification; notify o p w r)
      else some (false, p, w)

  abbrev pub on_chunk : Outside W → Msg → Parser → W → Option (Bool × Parser × W)
  on_chunk o m p w = do (p', out) ← parse_new_chunk o.malloc o.crc32 (some m) p; some (true, p', w)

  -- `handle_ble_response`
  unfoldable pub handle_ble_response :
      Outside W → Option Msg → Parser → W → Option (Bool × Parser × W)
  handle_ble_response o none p w = some (false, p, w)
  handle_ble_response o (some m) p w =
      if m.hdr.opcode == 1
      then on_time o m p w
      else if m.hdr.opcode == 2
      then on_weather o m p w
      else if m.hdr.opcode == 3
      then on_dated_weather o m p w
      else if m.hdr.opcode == 4
      then on_notification o m p w
      else if m.hdr.opcode == 0xF0
      then on_chunk o m p w
      else some (false, p, w)
