-- ===== src/Ble/Link/Receive.antt =====
-- How the receiver of ble_packet_handler.c takes in a header and a part of a payload.
use mathlib.Core.Path.{subst}
use native.Mathlib.Nat.{mod-eq_of_lt}
use minimal_watch_firmware_e.Base.{
  ℕ, zero, suc, ◌+◌, ◌≤◌, ◌<◌, ◌≡◌, ◌≢◌, ◌∙◌, refl, sym, ap, ap₂, true, false, List, [], ◌∷◌, ◌++◌,
  map, arith, ltb, leb, length, take, drop, length-append, take_all, drop_all, read, copy,
  length-read, read-add, read-copy_extend, u16,
}
use minimal_watch_firmware_e.Ring.Queue
use minimal_watch_firmware_e.Ring.Queue.{map-push_oldest}
use minimal_watch_firmware_e.Ring.Refine.{contents}
use minimal_watch_firmware_e.Ble.Message.{
  Header, Msg, magic, max_payload_size, fifo_size, Content, content,
}
use minimal_watch_firmware_e.Ble.Fifo.{Fifos}
use minimal_watch_firmware_e.Ble.Fifo.Laws.{IsReady, add_rx_refines}
use minimal_watch_firmware_e.Ble.Tx.{TxCtx, header, advanced}
use minimal_watch_firmware_e.Ble.Rx.{
  RxState, wait_magic, read_header, read_payload, RxCtx, on_wait_magic, on_read_header,
  on_read_payload, dispatch, parse_loop, chunk, filled, finish, with_header, go_on,
}
use minimal_watch_firmware_e.Ble.Rx.Total.{chunk_lem}
use minimal_watch_firmware_e.Ble.Link.{Midway, received}

-- The receiver is ready for a header, and its queue has taken in `c`.
pub record Took (c : Content) (p : Fifos) (r' : RxCtx) (p' : Fifos) : Type 0 where
  pub waits : r'.state ≡ wait_magic
  pub idle : r'.msg_active ≡ false
  pub ready : IsReady p'
  pub queued : received p' ≡ Queue.push_oldest fifo_size (received p) c

finish_takes :
    (rest : List ℕ) (r : RxCtx) (p : Fifos)
    → r.cur_msg.hdr.len ≤ max_payload_size
    → IsReady p
    → (r' : RxCtx) × (p' : Fifos) × (finish rest r p ≡ go_on rest r' p')
      × Took (content r.cur_msg) p r' p'
finish_takes rest r p short w =
    let (p', e, w', _, c) = add_rx_refines r.cur_msg w short in
    (
      record r { msg_active = false; state = wait_magic },
      p',
      rw e,
      record {
        waits = refl;
        idle = refl;
        ready = w';
        queued =
            ap (map content) c ∙ map-push_oldest content fifo_size (contents p.rx_fifo) r.cur_msg;
      },
    )

-- One round of the loop that goes on.
parse_step :
    (fuel : ℕ) {s : RxState} (b : ℕ) (bs rest : List ℕ) (r r' : RxCtx) (p p' : Fifos)
    → r.state ≡ s
    → dispatch s b bs r p ≡ go_on rest r' p'
    → parse_loop (suc fuel) (b ∷ bs) r p ≡ parse_loop fuel rest r' p'
unfolding parse_loop
parse_step fuel b bs rest r r' p p' e d = rw (ap (λ k. dispatch k b bs r p) e ∙ d)

payload_done :
    (bs : List ℕ) (r : RxCtx) (p : Fifos)
    → ltb r.cur_msg.hdr.len r.offset ≡ false
    → leb r.cur_msg.hdr.len (filled r bs).offset ≡ true
    → on_read_payload bs r p ≡ finish (drop (chunk r bs) bs) (filled r bs) p
unfolding on_read_payload
payload_done bs r p a b = rw (a, b)

payload_on :
    (bs : List ℕ) (r : RxCtx) (p : Fifos)
    → ltb r.cur_msg.hdr.len r.offset ≡ false
    → leb r.cur_msg.hdr.len (filled r bs).offset ≡ false
    → on_read_payload bs r p ≡ go_on (drop (chunk r bs) bs) (filled r bs) p
unfolding on_read_payload
payload_on bs r p a b = rw (a, b)

-- The next `k` bytes of a message, with what follows them in the packet.
module _ {t : TxCtx} {r : RxCtx} (k : ℕ) (rest : List ℕ) (y : Midway t r) where
  abbrev part : List ℕ
  part = read t.cur_msg.payload t.offset k

  length-part : length part ≡ k
  length-part = length-read t.cur_msg.payload t.offset k

  take-part : take k (part ++ rest) ≡ part
  take-part = ap (λ n. take n (part ++ rest)) (sym length-part) ∙ take_all part rest

  drop-part : drop k (part ++ rest) ≡ rest
  drop-part = ap (λ n. drop n (part ++ rest)) (sym length-part) ∙ drop_all part rest

  chunk_whole : t.offset + k ≡ t.cur_msg.hdr.len → chunk r (part ++ rest) ≡ k
  chunk_whole e =
      chunk_lem r (part ++ rest) (ground (arith, y.inside, y.same_offset, y.same_hdr))
        (ground (arith, y.short, y.same_hdr))
      ∙ ground (arith, length-append part rest, length-part, y.same_offset, y.same_hdr)

  chunk_end : rest ≡ [] → t.offset + k ≤ t.cur_msg.hdr.len → chunk r (part ++ rest) ≡ k
  chunk_end nil e =
      chunk_lem r (part ++ rest) (ground (arith, y.inside, y.same_offset, y.same_hdr))
        (ground (arith, y.short, y.same_hdr))
      ∙ ground (arith, length-append part rest, length-part, y.same_offset, y.same_hdr)

  module _ (c : chunk r (part ++ rest) ≡ k) where
    filled_bytes :
        read (filled r (part ++ rest)).cur_msg.payload 0 (t.offset + k)
        ≡ read t.cur_msg.payload 0 (t.offset + k)
    filled_bytes =
        ap (λ n. read (copy r.cur_msg.payload r.offset (take n (part ++ rest))) 0 (t.offset + k)) c
        ∙ ap (λ l. read (copy r.cur_msg.payload r.offset l) 0 (t.offset + k)) take-part
        ∙ ap₂ (λ o n. read (copy r.cur_msg.payload o part) 0 (t.offset + n)) y.same_offset
            (sym length-part)
        ∙ read-copy_extend r.cur_msg.payload t.offset part
        ∙ ap (λ l. l ++ part) y.same_bytes
        ∙ sym (
            read-add t.cur_msg.payload 0 t.offset k
            ∙ ap (λ o. read t.cur_msg.payload 0 t.offset ++ read t.cur_msg.payload o k)
                (omega arith))

    inside_now : ltb r.cur_msg.hdr.len r.offset ≡ false
    inside_now = ground (arith, y.inside, y.same_offset, y.same_hdr)

    offset_now : t.offset + k ≤ t.cur_msg.hdr.len → (filled r (part ++ rest)).offset ≡ t.offset + k
    offset_now e = ap₂ (λ o n. u16 (o + n)) y.same_offset c ∙ mod-eq_of_lt (omega (arith, y.short))

    drop_now : drop (chunk r (part ++ rest)) (part ++ rest) ≡ rest
    drop_now = ap (λ n. drop n (part ++ rest)) c ∙ drop-part

    -- A part that completes the message.
    last_round :
        (p : Fifos)
        → t.offset + k ≡ t.cur_msg.hdr.len
        → on_read_payload (part ++ rest) r p ≡ finish rest (filled r (part ++ rest)) p
    last_round p e =
        payload_done (part ++ rest) r p inside_now
          (ground (arith, offset_now (omega arith), y.same_hdr))
        ∙ ap (λ l. finish l (filled r (part ++ rest)) p) drop_now

    -- A part behind which more of the message is to come.
    some_round :
        (p : Fifos)
        → t.offset + k < t.cur_msg.hdr.len
        → on_read_payload (part ++ rest) r p ≡ go_on rest (filled r (part ++ rest)) p
    some_round p e =
        payload_on (part ++ rest) r p inside_now
          (ground (arith, offset_now (omega arith), y.same_hdr))
        ∙ ap (λ l. go_on l (filled r (part ++ rest)) p) drop_now

    -- The message as it stands when it is complete.
    content-filled :
        t.offset + k ≡ t.cur_msg.hdr.len
        → content (filled r (part ++ rest)).cur_msg ≡ content t.cur_msg
    content-filled e =
        ap₂ (λ (h : Header) (l : List ℕ). (h, l)) y.same_hdr
          (ap (λ n. read (filled r (part ++ rest)).cur_msg.payload 0 n)
              (ap (λ (h : Header). h.len) y.same_hdr ∙ sym e)
            ∙ filled_bytes
            ∙ ap (read t.cur_msg.payload 0) e)

-- The rest of a message, with whatever follows it in the packet.
pub last_part :
    (fuel : ℕ) (t : TxCtx) (r : RxCtx) (p : Fifos) (n : ℕ) (rest : List ℕ)
    → Midway t r
    → IsReady p
    → 0 < n
    → t.offset + n ≡ t.cur_msg.hdr.len
    → (r' : RxCtx) × (p' : Fifos) × (parse_loop
          (suc fuel)
          (read t.cur_msg.payload t.offset n ++ rest)
          r
          p
        ≡ parse_loop fuel rest r' p')
      × Took (content t.cur_msg) p r' p'
last_part fuel t r p zero rest y w h e = absurd (omega arith)
last_part fuel t r p (suc n) rest y w h e =
    let c = chunk_whole (suc n) rest y e in
    let now : List ℕ = read t.cur_msg.payload t.offset (suc n) ++ rest in
    let (r', p', f, took) =
      finish_takes rest (filled r now) p (ground (arith, y.short, y.same_hdr)) w in
    (
      r',
      p',
      parse_step fuel (t.cur_msg.payload t.offset) (read t.cur_msg.payload (t.offset + 1) n ++ rest)
          rest r r' p p' y.reading (last_round (suc n) rest y c p e ∙ f),
      subst (λ m. Took m p r' p') (content-filled (suc n) rest y c e) took,
    )

-- A part behind which more of the message is to come, at the end of a packet.
pub some_part :
    (fuel : ℕ) (t : TxCtx) (r : RxCtx) (p : Fifos) (n : ℕ)
    → Midway t r
    → 0 < n
    → t.offset + n < t.cur_msg.hdr.len
    → (r' : RxCtx) × (parse_loop (suc fuel) (read t.cur_msg.payload t.offset n ++ []) r p
        ≡ parse_loop fuel [] r' p)
      × Midway (advanced n t) r'
some_part fuel t r p zero y h e = absurd (omega arith)
some_part fuel t r p (suc n) y h e =
    let c = chunk_end (suc n) [] y refl (omega arith) in
    let now : List ℕ = read t.cur_msg.payload t.offset (suc n) ++ [] in
    let o : u16 (t.offset + suc n) ≡ t.offset + suc n = mod-eq_of_lt (omega (arith, y.short)) in
    (
      filled r now,
      parse_step fuel (t.cur_msg.payload t.offset) (read t.cur_msg.payload (t.offset + 1) n ++ [])
          [] r (filled r now) p p y.reading (some_round (suc n) [] y c p e),
      record {
        reading = y.reading;
        active = y.active;
        same_hdr = y.same_hdr;
        same_offset = offset_now (suc n) [] y c (omega arith) ∙ sym o;
        same_bytes =
            ap (read (filled r now).cur_msg.payload 0) o
            ∙ filled_bytes (suc n) [] y c
            ∙ ap (read t.cur_msg.payload 0) (sym o);
        inside = omega (arith, o);
        short = y.short;
      },
    )

header_start :
    (fuel : ℕ) (h : Header) (rest : List ℕ) (r : RxCtx) (p : Fifos)
    → r.state ≡ wait_magic
    → parse_loop (suc fuel) (header h ++ rest) r p
      ≡ parse_loop fuel (h.opcode ∷ h.req_app ∷ h.len ∷ rest) (record r { state = read_header }) p
unfolding on_wait_magic
header_start fuel h rest r p s =
    parse_step fuel magic (h.opcode ∷ h.req_app ∷ h.len ∷ rest)
      (h.opcode ∷ h.req_app ∷ h.len ∷ rest) r (record r { state = read_header }) p p s
      (ground arith)

-- A header that announces a payload.
pub whole_header :
    (fuel : ℕ) (h : Header) (rest : List ℕ) (r : RxCtx) (p : Fifos)
    → r.state ≡ wait_magic
    → h.len ≤ max_payload_size
    → h.len ≢ 0
    → parse_loop (suc (suc fuel)) (header h ++ rest) r p
      ≡ parse_loop fuel rest
          (record (with_header h.opcode h.req_app h.len r) {
            offset = 0;
            msg_active = true;
            state = read_payload;
          })
          p
unfolding on_read_header
whole_header fuel h rest r p s k n =
    header_start (suc fuel) h rest r p s
    ∙ parse_step fuel h.opcode (h.req_app ∷ h.len ∷ rest) rest _ _ p p refl (ground arith)

-- A message without payload.
pub empty_message :
    (fuel : ℕ) (m : Msg) (rest : List ℕ) (r : RxCtx) (p : Fifos)
    → r.state ≡ wait_magic
    → IsReady p
    → m.hdr.len ≡ 0
    → (r' : RxCtx) × (p' : Fifos) × (parse_loop (suc (suc fuel)) (header m.hdr ++ rest) r p
        ≡ parse_loop fuel rest r' p')
      × Took (content m) p r' p'
unfolding on_read_header
empty_message fuel m rest r p s w e =
    let r1 : RxCtx = record (with_header m.hdr.opcode m.hdr.req_app m.hdr.len r) {
      offset = 0;
      msg_active = true;
      state = read_header;
    } in
    let (r', p', f, took) = finish_takes rest r1 p (omega arith) w in
    (
      r',
      p',
      header_start (suc fuel) m.hdr rest r p s
          ∙ parse_step fuel m.hdr.opcode (m.hdr.req_app ∷ m.hdr.len ∷ rest) rest _ r' p p' refl
              (ground (arith, f)),
      subst (λ c. Took c p r' p')
          (ap (λ (l : List ℕ). (m.hdr, l))
            (ap (read r.cur_msg.payload 0) e ∙ sym (ap (read m.payload 0) e)))
          took,
    )
