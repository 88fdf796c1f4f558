-- ===== src/Ble/Responses/Tests.antt =====
-- Messages of the phone at concrete inputs.
use minimal_watch_firmware_e.Base.{
  ℕ, ◌+◌, ◌≡◌, refl, true, false, none, some, List, [], ◌∷◌, ◌++◌, arith, nth, length, read, u32,
}
use minimal_watch_firmware_e.Wakelock.{pos, negsuc}
use minimal_watch_firmware_e.Common.{HourlyWeather, WeatherSync, Notification}
use minimal_watch_firmware_e.Ble.Message.{Msg}
use minimal_watch_firmware_e.Ble.Multichunk.{cleared}
use minimal_watch_firmware_e.Ble.Multichunk.Stages.{cleared-IsOk}
use minimal_watch_firmware_e.Ble.Responses.{
  Outside, weather_sync, time_sync, tell, handle_ble_response,
}
use minimal_watch_firmware_e.Ble.Responses.Returns.{Returns, handle_ble_response-Returns}
use minimal_watch_firmware_e.Ble.Responses.Weather.{weather_bytes, weather_arrives}
use minimal_watch_firmware_e.Ble.Responses.Notices.{notification_bytes}

-- A cold and windy hour.
abbrev hour : HourlyWeather
hour = record {
  temperature = negsuc 54;
  humidity = 80;
  precip_prob = 30;
  weather_code = 71;
  wind_speed = 40;
}

abbrev weather : WeatherSync
weather = record { expires_at = 1700000000; hourly_today = λ _. hour }

abbrev unset : WeatherSync
unset = record {
  expires_at = 7;
  hourly_today = λ _. record {
    temperature = pos 0;
    humidity = 0;
    precip_prob = 0;
    weather_code = 0;
    wind_speed = 0;
  };
}

abbrev empty : Notification
empty = record {
  app = 9;
  app_name = λ _. 9;
  body = λ _. 9;
  action_name = λ _. 9;
  dismiss_text = λ _. 9;
  action_handler = 9;
  dismiss_handler = 9;
}

-- The rest of the firmware counts the events.
abbrev outside : Outside ℕ
outside = record {
  malloc = λ n. none;
  crc32 = λ c bytes. u32 (c + length bytes);
  event_publish = λ e w. (true, w + 1);
  weather_state = unset;
  notification = empty;
}

abbrev msg_of : ℕ → List ℕ → Msg
msg_of opcode xs = record {
  hdr = record { opcode = opcode; req_app = 2; len = length xs };
  payload = λ i. nth i xs;
}

abbrev title : List ℕ
title = 65 ∷ 66 ∷ 67 ∷ []

-- 14 characters, one more than is kept.
abbrev long_title : List ℕ
long_title = title ++ title ++ title ++ title ++ (68 ∷ 69 ∷ [])

abbrev text : List ℕ
text = 104 ∷ 105 ∷ []

abbrev weather_msg : Msg
weather_msg = msg_of 2 (weather_bytes weather)

abbrev notification_msg : Msg
notification_msg = msg_of 4 (notification_bytes 1 long_title text)

-- A title that claims to be longer than the payload.
abbrev broken_msg : Msg
broken_msg = record { hdr = record { opcode = 4; req_app = 2; len = 250 }; payload = λ i. 255 }

time_read :
    handle_ble_response outside (some (msg_of 1 (1 ∷ 2 ∷ 3 ∷ 4 ∷ []))) cleared 0
    ≡ tell outside (time_sync 16909060) cleared 0
unfolding handle_ble_response
time_read = refl

-- Two empty strings are three bytes with the application, which is too few.
empty_strings_refused :
    handle_ble_response outside (some (msg_of 4 (notification_bytes 1 [] []))) cleared 0
    ≡ some (false, cleared, 0)
unfolding handle_ble_response
empty_strings_refused = refl

handle_ble_response-Returns_example :
    Returns (handle_ble_response outside (some broken_msg) cleared 0)
handle_ble_response-Returns_example =
    handle_ble_response-Returns outside broken_msg cleared 0 cleared-IsOk
      (record { short = omega arith; bytes = λ j. omega arith })

weather_arrives_example :
    (s : WeatherSync) × (handle_ble_response outside (some weather_msg) cleared 0
      ≡ tell outside (weather_sync s) cleared 0)
    × (s.expires_at ≡ 1700000000)
    × (read s.hourly_today 0 24 ≡ read weather.hourly_today 0 24)
weather_arrives_example =
    weather_arrives outside weather_msg cleared 0 weather refl refl refl (omega arith)
      (λ j. omega arith)
