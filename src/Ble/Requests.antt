-- ===== src/Ble/Requests.antt =====
-- components/ble_manager/src/ble_request_handler.c: what applications ask of the phone is queued.
pub mod Queued
use minimal_watch_firmware_e.Base.{
  ℕ, Bool, false, Option, none, some, leb, if◌then◌else◌, u8, read, copy,
}
use minimal_watch_firmware_e.Common.{
  ReqType, update_system_time, update_system_weather, dated_weather_query, other, Req,
}
use minimal_watch_firmware_e.Ble.Message.{Msg, max_payload_size}
use minimal_watch_firmware_e.Ble.Fifo.{Fifos, ble_tx, add_msg}

-- `new_msg`, all of whose other bytes are zero.
abbrev pub new_msg : ℕ → ℕ → ℕ → Msg
new_msg opcode len req_app = record {
  hdr = record { opcode = opcode; req_app = req_app; len = len };
  payload = λ _. 0;
}

-- `new_msg` with the request's data; its length is kept in a byte.
abbrev pub query_msg : Req → Msg
query_msg req = record {
  hdr = record { opcode = 3; req_app = req.app_id; len = u8 req.req_data_len };
  payload = copy (λ _. 0) 0 (read req.req_data 0 req.req_data_len);
}

-- The switch.
abbrev pub request_on : Req → Fifos → ReqType → Option (Bool × Fifos)
request_on req q update_system_time = add_msg (some (new_msg 1 0 req.app_id)) ble_tx q
request_on req q update_system_weather = add_msg (some (new_msg 2 0 req.app_id)) ble_tx q
request_on req q dated_weather_query =
    if leb req.req_data_len max_payload_size
    then add_msg (some (query_msg req)) ble_tx q
    else some (false, q)
request_on req q other = some (false, q)

-- `handle_ble_request`
unfoldable pub handle_ble_request : Option Req → Fifos → Option (Bool × Fifos)
handle_ble_request none q = some (false, q)
handle_ble_request (some req) q = request_on req q req.req_code
