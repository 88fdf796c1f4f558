-- ===== src/Ble/Tests.antt =====
-- Runs of the Bluetooth queue and packet code at concrete inputs.
use minimal_watch_firmware_e.Base.{
  ℕ, ◌+◌, ◌≡◌, refl, inl, Bool, true, false, some, List, [], ◌∷◌, ◌++◌, arith, copy, store,
}
use minimal_watch_firmware_e.Common.{dated_weather_query, Req}
use minimal_watch_firmware_e.Ring
use minimal_watch_firmware_e.Ring.{Ring, drop_oldest}
use minimal_watch_firmware_e.Ring.Queue
use minimal_watch_firmware_e.Ble.Message.{Msg, fifo_size, Content}
use minimal_watch_firmware_e.Ble.Fifo
use minimal_watch_firmware_e.Ble.Fifo.{Fifos, ble_tx, ble_rx}
use minimal_watch_firmware_e.Ble.Fifo.Laws.{IsReady}
use minimal_watch_firmware_e.Ble.Tx
use minimal_watch_firmware_e.Ble.Tx.{TxCtx, header, build_next_packet}
use minimal_watch_firmware_e.Ble.Tx.Loading
use minimal_watch_firmware_e.Ble.Tx.Loading.{pending}
use minimal_watch_firmware_e.Ble.Tx.Total.{Sent, build_next_packet-Sent}
use minimal_watch_firmware_e.Ble.Rx
use minimal_watch_firmware_e.Ble.Rx.{RxCtx, wait_magic, retrieve_packet}
use minimal_watch_firmware_e.Ble.Rx.Rounds
use minimal_watch_firmware_e.Ble.Rx.Total.{Parsed, retrieve_packet-Parsed}
use minimal_watch_firmware_e.Ble.Link.{Synced, received}
use minimal_watch_firmware_e.Ble.Link.Packet.{History, start, queues, sends, History-delivers}
use minimal_watch_firmware_e.Ble.Link.Repeat.{header_sent_twice}

abbrev blank : Msg
blank = record { hdr = record { opcode = 0; req_app = 0; len = 0 }; payload = λ _. 0 }

-- Two payload bytes, 7 and 8.
abbrev short_msg : Msg
short_msg = record { hdr = record { opcode = 3; req_app = 4; len = 2 }; payload = λ j. j + 7 }

abbrev long_msg : Msg
long_msg = record { hdr = record { opcode = 3; req_app = 4; len = 251 }; payload = λ j. j }

abbrev ring_of : ℕ → ℕ → (ℕ → Msg) → Ring Msg
ring_of head n buffer = record {
  buffer = buffer;
  element_size = 253;
  capacity = fifo_size;
  read_idx = head;
  write_idx = head + n;
  count = n;
  mutex = true;
  overflow_policy = drop_oldest;
}

abbrev no_msgs : Fifos
no_msgs = record { tx_fifo = ring_of 0 0 (λ _. blank); rx_fifo = ring_of 0 0 (λ _. blank) }

abbrev one_queued : Fifos
one_queued = record {
  tx_fifo = ring_of 0 1 (store (λ _. blank) 0 short_msg);
  rx_fifo = ring_of 0 0 (λ _. blank);
}

abbrev one_sent : Fifos
one_sent = record {
  tx_fifo = ring_of 1 0 (store (λ _. blank) 0 short_msg);
  rx_fifo = ring_of 0 0 (λ _. blank);
}

abbrev arrived_msg : Msg
arrived_msg = record {
  hdr = record { opcode = 3; req_app = 4; len = 2 };
  payload = copy (λ _. 0) 0 (7 ∷ 8 ∷ []);
}

abbrev one_received : Fifos
one_received = record {
  tx_fifo = ring_of 0 0 (λ _. blank);
  rx_fifo = ring_of 0 1 (store (λ _. blank) 0 arrived_msg);
}

no_msgs-IsReady : IsReady no_msgs
no_msgs-IsReady = record {
  tx_live = record { valid = omega arith; locked_by = refl; sized = refl; ruled = refl };
  rx_live = record { valid = omega arith; locked_by = refl; sized = refl; ruled = refl };
  tx_short = tt;
  rx_short = tt;
}

one_queued-IsReady : IsReady one_queued
one_queued-IsReady = record {
  tx_live = record { valid = omega arith; locked_by = refl; sized = refl; ruled = refl };
  rx_live = record { valid = omega arith; locked_by = refl; sized = refl; ruled = refl };
  tx_short = (omega arith, tt);
  rx_short = tt;
}

abbrev sender : TxCtx
sender = record { cur_msg = blank; offset = 0; msg_active = false }

abbrev sender_done : TxCtx
sender_done = record { cur_msg = short_msg; offset = 2; msg_active = false }

-- The header of `short_msg` is out, but none of its payload.
abbrev sender_cut : TxCtx
sender_cut = record { cur_msg = short_msg; offset = 0; msg_active = true }

abbrev receiver : RxCtx
receiver = record { state = wait_magic; cur_msg = blank; offset = 0; msg_active = false }

abbrev receiver_done : RxCtx
receiver_done = record { state = wait_magic; cur_msg = arrived_msg; offset = 2; msg_active = false }

abbrev packet : List ℕ
packet = 0 ∷ 165 ∷ 3 ∷ 4 ∷ 2 ∷ 7 ∷ 8 ∷ []

sender-IsOk : Tx.Loading.IsOk sender
sender-IsOk = record { short = λ a. absurd (cc); inside = λ a. absurd (cc) }

receiver-IsOk : Rx.Rounds.IsOk receiver
receiver-IsOk = record {
  idle = λ _. refl;
  busy = λ x. cc;
  inside = λ x. absurd (cc);
  short = λ x. absurd (cc);
}

in_step : Synced sender receiver
in_step = inl (record { unsent = inl refl; idle = refl })

queued : Fifo.add_msg (some short_msg) ble_tx no_msgs ≡ some (true, one_queued)
unfolding Fifo.add_msg Ring.push
queued = refl

built : build_next_packet true 20 sender one_queued ≡ some (true, packet, sender_done, one_sent)
unfolding build_next_packet Tx.build_loop Tx.load Fifo.get_next Ring.pop
built = refl

cut :
    build_next_packet true 5 sender one_queued
    ≡ some (true, 0 ∷ 165 ∷ 3 ∷ 4 ∷ 2 ∷ [], sender_cut, one_sent)
unfolding build_next_packet Tx.build_loop Tx.load Fifo.get_next Ring.pop
cut = refl

again :
    build_next_packet true 20 sender_cut one_sent
    ≡ some (true, 1 ∷ 165 ∷ 3 ∷ 4 ∷ 2 ∷ 7 ∷ 8 ∷ [], sender_done, one_sent)
unfolding build_next_packet Tx.build_loop Tx.load Fifo.get_next Ring.pop
again = refl

parsed : retrieve_packet (some packet) receiver no_msgs ≡ some (receiver_done, one_received)
unfolding retrieve_packet Rx.parse_loop Rx.on_wait_magic Rx.on_read_header Rx.on_read_payload
    Fifo.add_msg Ring.push
parsed = refl

talk :
    History sender no_msgs receiver no_msgs sender_done one_sent receiver_done one_received
      ((short_msg.hdr, 7 ∷ 8 ∷ []) ∷ [])
talk =
    sends 20 (queues short_msg start (omega arith) (omega arith) queued refl) (omega arith) built
      (λ a. absurd (cc)) parsed

History-delivers_example :
    (ms : List Content) × (pending sender no_msgs ++ ((short_msg.hdr, 7 ∷ 8 ∷ []) ∷ [])
      ≡ ms ++ pending sender_done one_sent)
    × (received one_received ≡ Queue.push_all fifo_size (received no_msgs) ms)
    × Synced sender_done receiver_done
History-delivers_example =
    History-delivers sender sender_done no_msgs one_sent receiver receiver_done no_msgs one_received
      ((short_msg.hdr, 7 ∷ 8 ∷ []) ∷ []) sender-IsOk no_msgs-IsReady no_msgs-IsReady in_step talk

retrieve_packet-Parsed_example :
    (r' : RxCtx) × (q' : Fifos) × (retrieve_packet (some packet) receiver no_msgs ≡ some (r', q'))
    × Parsed receiver no_msgs r' q'
retrieve_packet-Parsed_example =
    retrieve_packet-Parsed (some packet) receiver no_msgs receiver-IsOk no_msgs-IsReady

build_next_packet-Sent_example :
    (done : Bool) × (bytes : List ℕ) × (t' : TxCtx) × (q' : Fifos) × (build_next_packet true 20
        sender one_queued
      ≡ some (done, 0 ∷ bytes, t', q'))
    × Sent 20 sender one_queued done bytes t' q'
build_next_packet-Sent_example =
    build_next_packet-Sent 20 sender one_queued (omega arith) sender-IsOk one_queued-IsReady

header_sent_twice_example :
    (before behind : List ℕ) × (0 ∷ 165 ∷ 3 ∷ 4 ∷ 2 ∷ [] ≡ before ++ header short_msg.hdr)
    × (1 ∷ 165 ∷ 3 ∷ 4 ∷ 2 ∷ 7 ∷ 8 ∷ [] ≡ 1 ∷ header short_msg.hdr ++ behind)
header_sent_twice_example =
    header_sent_twice 5 20 sender sender_cut sender_done one_queued one_sent one_sent true true
      (0 ∷ 165 ∷ 3 ∷ 4 ∷ 2 ∷ []) (1 ∷ 165 ∷ 3 ∷ 4 ∷ 2 ∷ 7 ∷ 8 ∷ []) (omega arith) (omega arith)
      (omega arith) (omega arith) sender-IsOk one_queued-IsReady cut refl refl refl again

-- The weather of a date of two bytes.
abbrev query : Req
query = record {
  req_code = dated_weather_query;
  app_id = 4;
  req_data_len = 2;
  req_data = λ j. j + 7;
}
