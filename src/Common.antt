-- ===== src/Common.antt =====
-- components/common/include/common_types.h: what the applications and the phone exchange.
use minimal_watch_firmware_e.Base.{ℕ}
use minimal_watch_firmware_e.Wakelock.{ℤ}

-- `ble_req_type_t`; `other` is any value that the enumeration does not name.
pub data ReqType : Type 0 where
  update_system_time update_system_weather dated_weather_query other : ReqType

-- `ble_req_t`
pub record Req : Type 0 where
  pub req_code : ReqType
  pub app_id : ℕ
  pub req_data_len : ℕ
  pub req_data : ℕ → ℕ

-- `hourly_weather_t`
pub record HourlyWeather : Type 0 where
  pub temperature : ℤ
  pub humidity : ℕ
  pub precip_prob : ℕ
  pub weather_code : ℕ
  pub wind_speed : ℕ

-- `weather_sync_t`
pub record WeatherSync : Type 0 where
  pub expires_at : ℕ
  pub hourly_today : ℕ → HourlyWeather

-- `notification_t`; a handler is its address, and 0 is the null pointer.
pub record Notification : Type 0 where
  pub app : ℕ
  pub app_name : ℕ → ℕ
  pub body : ℕ → ℕ
  pub action_name : ℕ → ℕ
  pub dismiss_text : ℕ → ℕ
  pub action_handler : ℕ
  pub dismiss_handler : ℕ

-- The sizes of `app_name` and `body`.
abbrev pub app_name_size : ℕ
app_name_size = 14

abbrev pub body_size : ℕ
body_size = 100
