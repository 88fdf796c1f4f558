-- ===== src/Ble/Requests/Queued.antt =====
-- What `handle_ble_request` leaves in the queue of messages to send.
use minimal_watch_firmware_e.Base.{
  ℕ, ◌≡◌, Bool, true, false, Option, none, some, [], leb, if◌then◌else◌, read,
}
use minimal_watch_firmware_e.Common.{
  ReqType, update_system_time, update_system_weather, dated_weather_query, other, Req,
}
use minimal_watch_firmware_e.Ring.Queue
use minimal_watch_firmware_e.Ring.Refine.{contents}
use minimal_watch_firmware_e.Ble.Message.{Msg, Content, content, max_payload_size, fifo_size}
use minimal_watch_firmware_e.Ble.Fifo.{Fifos}
use minimal_watch_firmware_e.Ble.Fifo.Laws.{IsReady}
use minimal_watch_firmware_e.Ble.Requests.{query_msg}

-- What the phone is to be asked, if anything.
abbrev pub asked : Req → ReqType → Option Content
asked req update_system_time = some (record { opcode = 1; req_app = req.app_id; len = 0 }, [])
asked req update_system_weather = some (record { opcode = 2; req_app = req.app_id; len = 0 }, [])
asked req dated_weather_query =
    if leb req.req_data_len max_payload_size
    then some (
      record { opcode = 3; req_app = req.app_id; len = req.req_data_len },
      read req.req_data 0 req.req_data_len,
    )
    else none
asked req other = none

-- An answer to a request: refused, with the queues as they were, or queued behind what is there.
abbrev pub Answer : Fifos → Option (Bool × Fifos) → Option Content → Type 0
Answer q result none = result ≡ some (false, q)
Answer q result (some c) =
    (m : Msg) × (q' : Fifos) × (result ≡ some (true, q'))
    × IsReady q'
    × (q'.rx_fifo ≡ q.rx_fifo)
    × (contents q'.tx_fifo ≡ Queue.push_oldest fifo_size (contents q.tx_fifo) m)
    × (content m ≡ c)

query : Req → ℕ → Content
query req n =
    (record { opcode = 3; req_app = req.app_id; len = n }, read (query_msg req).payload 0 n)
