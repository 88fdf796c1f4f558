-- ===== src/Ble/Fifo/Laws.antt =====
-- What the packet code may know of the two queues of ble_fifo.c.
use minimal_watch_firmware_e.Base.{
  ◌≤◌, ◌<◌, ◌≡◌, ◌∙◌, refl, ap, sym, List-cases, true, false, none, some, List, [], ◌∷◌, ◌++◌,
  arith, tail, ◌⊎◌, inl, inr,
}
use minimal_watch_firmware_e.Ring
use minimal_watch_firmware_e.Ring.{Ring, drop_oldest}
use minimal_watch_firmware_e.Ring.Queue
use minimal_watch_firmware_e.Ring.Valid.{IsLive}
use minimal_watch_firmware_e.Ring.Refine.{contents, push_oldest_refines, pop_refines}
use minimal_watch_firmware_e.Ble.Message.{Msg, max_payload_size, fifo_size}
use minimal_watch_firmware_e.Ble.Fifo.{Fifos, CommType, ble_tx, ble_rx, add_msg, get_next}

-- Every message's length fits its payload array.
abbrev pub AllShort : List Msg → Type 0
AllShort [] = Unit {0}
AllShort (m ∷ ms) = (m.hdr.len ≤ max_payload_size) × AllShort ms

-- Both queues are live rings of `fifo_size` messages, none of them too long.
pub record IsReady (q : Fifos) : Type 0 where
  pub tx_live : IsLive fifo_size drop_oldest q.tx_fifo
  pub rx_live : IsLive fifo_size drop_oldest q.rx_fifo
  pub tx_short : AllShort (contents q.tx_fifo)
  pub rx_short : AllShort (contents q.rx_fifo)

AllShort-append : (xs ys : List Msg) → AllShort xs → AllShort ys → AllShort (xs ++ ys)
AllShort-append [] ys h k = k
AllShort-append (x ∷ xs) ys h k = (h.0, AllShort-append xs ys h.1 k)

AllShort-tail : (xs : List Msg) → AllShort xs → AllShort (tail xs)
AllShort-tail [] h = tt
AllShort-tail (x ∷ xs) h = h.1

AllShort-push :
    (xs : List Msg) (m : Msg)
    → AllShort xs
    → m.hdr.len ≤ max_payload_size
    → AllShort (Queue.push_oldest fifo_size xs m)
unfolding Queue.push_oldest
AllShort-push xs m h k = ground (
  arith,
  AllShort-append xs (m ∷ []) h (k, tt),
  AllShort-append (tail xs) (m ∷ []) (AllShort-tail xs h) (k, tt),
)

-- A message that is too long is refused, for whichever queue, and nothing changes.
pub add_msg_too_long :
    (m : Msg) (type : CommType) (q : Fifos)
    → max_payload_size < m.hdr.len
    → add_msg (some m) type q ≡ some (false, q)
unfolding add_msg
add_msg_too_long m type q h = ground arith

-- On ready queues a message that is not too long is queued for reception behind those that are there,
-- without touching the other queue; the oldest is lost if there are `fifo_size` already. The queues
-- are ready again.
pub add_rx_refines :
    (m : Msg) {q : Fifos}
    → IsReady q
    → m.hdr.len ≤ max_payload_size
    → (q' : Fifos) × (add_msg (some m) ble_rx q ≡ some (true, q'))
      × IsReady q'
      × (q'.tx_fifo ≡ q.tx_fifo)
      × (contents q'.rx_fifo ≡ Queue.push_oldest fifo_size (contents q.rx_fifo) m)
unfolding add_msg
add_rx_refines m {q} v h =
    let (fifo, e, live, c) = push_oldest_refines m v.rx_live in
    (
      record q { rx_fifo = fifo },
      ground (arith, e),
      record {
        tx_live = v.tx_live;
        rx_live = live;
        tx_short = v.tx_short;
        rx_short = rw c (AllShort-push (contents q.rx_fifo) m v.rx_short h);
      },
      refl,
      c,
    )

-- On ready queues a message that is not too long is queued for sending behind those that are there,
-- without touching the other queue; the oldest is lost if there are `fifo_size` already. The queues
-- are ready again.
pub add_tx_refines :
    (m : Msg) {q : Fifos}
    → IsReady q
    → m.hdr.len ≤ max_payload_size
    → (q' : Fifos) × (add_msg (some m) ble_tx q ≡ some (true, q'))
      × IsReady q'
      × (q'.rx_fifo ≡ q.rx_fifo)
      × (contents q'.tx_fifo ≡ Queue.push_oldest fifo_size (contents q.tx_fifo) m)
unfolding add_msg
add_tx_refines m {q} v h =
    let (fifo, e, live, c) = push_oldest_refines m v.tx_live in
    (
      record q { tx_fifo = fifo },
      ground (arith, e),
      record {
        tx_live = live;
        rx_live = v.rx_live;
        tx_short = rw c (AllShort-push (contents q.tx_fifo) m v.tx_short h);
        rx_short = v.rx_short;
      },
      refl,
      c,
    )

get_tx-none :
    (q : Fifos) {fifo : Ring Msg}
    → Ring.pop q.tx_fifo
      ≡ some ((Queue.pop (contents q.tx_fifo)).0, (Queue.pop (contents q.tx_fifo)).1, fifo)
    → contents q.tx_fifo ≡ []
    → get_next true ble_tx q ≡ some (false, none, record q { tx_fifo = fifo })
unfolding get_next Queue.pop
get_tx-none q e empty = rw (e, empty)

get_tx-some :
    (q : Fifos) {fifo : Ring Msg} (m : Msg) (ms : List Msg)
    → Ring.pop q.tx_fifo
      ≡ some ((Queue.pop (contents q.tx_fifo)).0, (Queue.pop (contents q.tx_fifo)).1, fifo)
    → contents q.tx_fifo ≡ m ∷ ms
    → get_next true ble_tx q ≡ some (true, some m, record q { tx_fifo = fifo })
unfolding get_next Queue.pop
get_tx-some q m ms e full = rw (e, full)

-- On ready queues `get_next_ble_msg` finds nothing to send exactly on an empty queue, which stays
-- empty, or takes out the first message, which is not too long; the queues are ready again and the
-- received messages are not touched.
pub get_tx_refines :
    {q : Fifos}
    → IsReady q
    → ((contents q.tx_fifo ≡ [])
        × (q' : Fifos) × (get_next true ble_tx q ≡ some (false, none, q'))
        × IsReady q'
        × (q'.rx_fifo ≡ q.rx_fifo)
        × (contents q'.tx_fifo ≡ []))
      ⊎ ((m : Msg) × (q' : Fifos) × (get_next true ble_tx q ≡ some (true, some m, q'))
          × (contents q.tx_fifo ≡ m ∷ contents q'.tx_fifo)
          × IsReady q'
          × (q'.rx_fifo ≡ q.rx_fifo)
          × (m.hdr.len ≤ max_payload_size))
unfolding Queue.pop
get_tx_refines {q} v =
    let (fifo, e, live, c) = pop_refines v.tx_live in
    elim (List-cases (contents q.tx_fifo)) [
      | inl empty ↦ inl (
        empty,
        record q { tx_fifo = fifo },
        get_tx-none q e empty,
        record {
          tx_live = live;
          rx_live = v.rx_live;
          tx_short = rw (c, empty) tt;
          rx_short = v.rx_short;
        },
        refl,
        c ∙ ap (λ l. (Queue.pop l).2) empty,
      )
      | inr (m, rest, full) ↦ inr (
        m,
        record q { tx_fifo = fifo },
        get_tx-some q m rest e full,
        full ∙ ap (λ l. m ∷ l) (sym (c ∙ ap (λ l. (Queue.pop l).2) full)),
        record {
          tx_live = live;
          rx_live = v.rx_live;
          tx_short = rw (c, full) (rw full at v.tx_short).1;
          rx_short = v.rx_short;
        },
        refl,
        (rw full at v.tx_short).0,
      )
    ]
