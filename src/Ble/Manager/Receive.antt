-- ===== src/Ble/Manager/Receive.antt =====
-- `process_rx_buffers` handles the messages that were received, in their order, and returns.
use mathlib.Core.Path.{subst}
use minimal_watch_firmware_e.Base.{
  ℕ, zero, suc, ◌<◌, ◌≡◌, ◌∙◌, refl, sym, ap, true, Option, some, List, [], ◌∷◌, arith, length,
  ◌>>=◌,
}
use minimal_watch_firmware_e.Ring.Queue
use minimal_watch_firmware_e.Ring.Refine.{contents, length-contents, pop_refines}
use minimal_watch_firmware_e.Ble.Message.{Msg}
use minimal_watch_firmware_e.Ble.Fifo.{Fifos, ble_rx, put_fifo, get_next}
use minimal_watch_firmware_e.Ble.Fifo.Laws.{IsReady, AllShort}
use minimal_watch_firmware_e.Ble.Multichunk.{Parser}
use minimal_watch_firmware_e.Ble.Multichunk.Stages.{IsOk, IsMsg}
use minimal_watch_firmware_e.Ble.Responses.{Outside, handle_ble_response}
use minimal_watch_firmware_e.Ble.Responses.Returns.{handle_ble_response-Returns}
use minimal_watch_firmware_e.Ble.Manager.{BleManager, process_loop, process_rx_buffers, rx_rounds}

pop-AllShort : (l : List Msg) → AllShort l → AllShort (Queue.pop l).2
unfolding Queue.pop
pop-AllShort [] h = tt
pop-AllShort (m ∷ l) h = h.1

get_rx_refines :
    {q : Fifos} (l : List Msg)
    → IsReady q
    → contents q.rx_fifo ≡ l
    → (q' : Fifos) × (get_next true ble_rx q ≡ some ((Queue.pop l).0, (Queue.pop l).1, q'))
      × IsReady q'
      × (q'.tx_fifo ≡ q.tx_fifo)
      × (contents q'.rx_fifo ≡ (Queue.pop l).2)
unfolding get_next
get_rx_refines {q} l v same =
    let (fifo, e, live, c) = pop_refines v.rx_live in
    let left : contents fifo ≡ (Queue.pop l).2 = c ∙ ap (λ k. (Queue.pop k).2) same in
    (
      record q { rx_fifo = fifo },
      ap (λ o. o >>= λ r. some (r.0, r.1, put_fifo ble_rx q r.2)) e
          ∙ ap (λ k. some ((Queue.pop k).0, (Queue.pop k).1, record q { rx_fifo = fifo })) same,
      record {
        tx_live = v.tx_live;
        rx_live = live;
        tx_short = v.tx_short;
        rx_short = subst AllShort (sym left) (pop-AllShort l (subst AllShort same v.rx_short));
      },
      refl,
      left,
    )

-- Every message is one of bytes.
abbrev pub AllMsgs : List Msg → Type 0
AllMsgs [] = Unit {0}
AllMsgs (m ∷ ms) = IsMsg m × AllMsgs ms

module _ {ℓ} {W : Type ℓ} (outside : Outside W) where
  -- `handle_ble_response` on each of some messages in order.
  abbrev pub handle_all : List Msg → Parser → W → Option (Parser × W)
  handle_all [] p w = some (p, w)
  handle_all (m ∷ ms) p w = do
    (done, p', w') ← handle_ble_response outside (some m) p w
    handle_all ms p' w'

  -- What a run of the loop leaves.
  pub record Emptied (b : BleManager) (w : W) (l : List Msg) (b' : BleManager) (w' : W)
      : Type ℓ where
    pub handled : handle_all l b.parser w ≡ some (b'.parser, w')
    pub parser_ok : IsOk b'.parser
    pub ready : IsReady b'.fifos
    pub tx_kept : b'.fifos.tx_fifo ≡ b.fifos.tx_fifo
    pub empty : contents b'.fifos.rx_fifo ≡ []

  loop_empties :
      (l : List Msg) (fuel : ℕ) (b : BleManager) (w : W)
      → length l < fuel
      → contents b.fifos.rx_fifo ≡ l
      → AllMsgs l
      → IsOk b.parser
      → IsReady b.fifos
      → (b' : BleManager) × (w' : W) × (process_loop outside fuel b w ≡ some (b', w'))
        × Emptied b w l b' w'
  unfolding process_loop Queue.pop
  loop_empties l zero b w f same k v r = absurd (omega arith)
  loop_empties [] (suc fuel) b w f same k v r =
      let (q, e, r', tx, left) = get_rx_refines [] r same in
      (
        record b { fifos = q },
        w,
        rw e refl,
        record { handled = refl; parser_ok = v; ready = r'; tx_kept = tx; empty = left },
      )
  loop_empties (m ∷ l) (suc fuel) b w f same (k, ks) v r =
      let (q, e, r', tx, left) = get_rx_refines (m ∷ l) r same in
      let (done, p, w1, run, v') = handle_ble_response-Returns outside m b.parser w v k in
      let (b2, w2, rest, d) =
        loop_empties l fuel (record b { fifos = q; parser = p }) w1 (omega arith) left ks v' r' in
      (
        b2,
        w2,
        rw (e, run) rest,
        record {
          handled = rw run d.handled;
          parser_ok = d.parser_ok;
          ready = d.ready;
          tx_kept = d.tx_kept ∙ tx;
          empty = d.empty;
        },
      )

  -- With the queues ready, messages of bytes in the queue of those received, and the parser of chunks
  -- in order: `process_rx_buffers` returns. It has handled every message, in the order in which they
  -- were received; none is left, the messages to send are not touched, and the parser is in order.
  pub process_rx_buffers-Emptied :
      (b : BleManager) (w : W)
      → AllMsgs (contents b.fifos.rx_fifo)
      → IsOk b.parser
      → IsReady b.fifos
      → (b' : BleManager) × (w' : W) × (process_rx_buffers outside b w ≡ some (b', w'))
        × Emptied b w (contents b.fifos.rx_fifo) b' w'
  unfolding process_rx_buffers
  process_rx_buffers-Emptied b w k v r =
      loop_empties (contents b.fifos.rx_fifo) rx_rounds b w
        (omega
          (arith, length-contents b.fifos.rx_fifo, r.rx_live.valid.count_fits, r.rx_live.sized))
        refl k v r
