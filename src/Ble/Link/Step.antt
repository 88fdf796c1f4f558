-- ===== src/Ble/Link/Step.antt =====
-- One round of the builder's loop of ble_packet_handler.c, in the parser.
use native.Mathlib.Nat.{mod-eq_of_lt}
use mathlib.Core.Path.{subst}
use minimal_watch_firmware_e.Base.{
  ℕ, suc, ◌+◌, ◌-◌, ◌*◌, ◌≤◌, ◌<◌, ◌≡◌, ◌≢◌, ◌∙◌, refl, sym, ap, ap₂, ◌⊎◌, inl, inr, true, false,
  List, [], ◌∷◌, ◌++◌, arith, length, read, u16, ℕ_discrete, min,
}
use minimal_watch_firmware_e.Ring.Queue
use minimal_watch_firmware_e.Ring.Queue.{push_all-append}
use minimal_watch_firmware_e.Ble.Message.{max_payload_size, fifo_size, Content, content}
use minimal_watch_firmware_e.Ble.Fifo.{Fifos}
use minimal_watch_firmware_e.Ble.Fifo.Laws.{IsReady}
use minimal_watch_firmware_e.Ble.Tx
use minimal_watch_firmware_e.Ble.Tx.{
  TxCtx, header, header_part, emitted, advanced, no_room, build_next_packet,
}
use minimal_watch_firmware_e.Ble.Tx.Loading.{IsOk, pending, pending_busy, pending_quiet, chunk_lem}
use minimal_watch_firmware_e.Ble.Tx.Builds.{length-emitted}
use minimal_watch_firmware_e.Ble.Rx.{wait_magic, read_payload, RxCtx, parse_loop, with_header}
use minimal_watch_firmware_e.Ble.Link.{Midway, received}
use minimal_watch_firmware_e.Ble.Link.Receive.{
  Took, last_part, some_part, whole_header, empty_message,
}

-- Inside a packet: the receiver looks for a header, or is as far as the sender.
pub data InStep (t : TxCtx) (r : RxCtx) : Type 0 where
  outside :
      (t.msg_active ≡ false) ⊎ (t.offset ≡ 0)
      → r.state ≡ wait_magic
      → r.msg_active ≡ false
      → InStep t r
  midway : t.msg_active ≡ true → 0 < t.offset → Midway t r → InStep t r

-- Between `t`, `p` and `t'`, `p'` the messages `ms` were completed.
pub record Delivers (t : TxCtx) (q : Fifos) (p : Fifos) (t' : TxCtx) (q' : Fifos) (r' : RxCtx)
    (p' : Fifos) (ms : List Content) : Type 0 where
  pub synced : InStep t' r'
  pub ready : IsReady p'
  pub sent : pending t q ≡ ms ++ pending t' q'
  pub queued : received p' ≡ Queue.push_all fifo_size (received p) ms

completed :
    (n : ℕ) (t : TxCtx) (q p : Fifos) (r' : RxCtx) (p' : Fifos)
    → t.msg_active ≡ true
    → t.cur_msg.hdr.len ≤ max_payload_size
    → t.offset + n ≡ t.cur_msg.hdr.len
    → Took (content t.cur_msg) p r' p'
    → Delivers t q p (advanced n t) q r' p' (content t.cur_msg ∷ [])
unfolding Queue.push_all
completed n t q p r' p' a k e took =
    let o : u16 (t.offset + n) ≡ t.cur_msg.hdr.len = mod-eq_of_lt (omega arith) ∙ e in
    let over : (advanced n t).msg_active ≡ false = ground (arith, o) in
    record {
      synced = outside (inl over) took.waits took.idle;
      ready = took.ready;
      sent =
          pending_busy t q a
          ∙ ap (λ l. content t.cur_msg ∷ l) (sym (pending_quiet (advanced n t) q over));
      queued = took.queued;
    }

-- A part of the payload.
part-Delivers :
    (g n : ℕ) (rest : List ℕ) (t : TxCtx) (r : RxCtx) (q p : Fifos)
    → t.msg_active ≡ true
    → Midway t r
    → IsReady p
    → 0 < n
    → (t.offset + n ≡ t.cur_msg.hdr.len) ⊎ ((t.offset + n < t.cur_msg.hdr.len) × (rest ≡ []))
    → (r' : RxCtx) × (p' : Fifos) × (ms : List Content) × (parse_loop
          (suc g)
          (read t.cur_msg.payload t.offset n ++ rest)
          r
          p
        ≡ parse_loop g rest r' p')
      × Delivers t q p (advanced n t) q r' p' ms
unfolding Queue.push_all
part-Delivers g n rest t r q p a y w h (inl e) =
    let (r', p', l, took) = last_part g t r p n rest y w h e in
    (r', p', content t.cur_msg ∷ [], l, completed n t q p r' p' a y.short e took)
part-Delivers g n rest t r q p a y w h (inr (e, nil)) =
    let (r', l, y') = some_part g t r p n y h e in
    let o : u16 (t.offset + n) ≡ t.offset + n = mod-eq_of_lt (omega (arith, y.short)) in
    let on : (advanced n t).msg_active ≡ true = ground (arith, o) in
    (
      r',
      p,
      [],
      subst
          (λ z.
            parse_loop (suc g) (read t.cur_msg.payload t.offset n ++ z) r p ≡ parse_loop g z r' p)
          (sym nil) l,
      record {
        synced = midway on (omega (arith, o)) y';
        ready = w;
        sent = pending_busy t q a ∙ sym (pending_busy (advanced n t) q on);
        queued = refl;
      },
    )

-- The condition under which the next packet sends no header twice: the packet does not end just
-- behind a header.
abbrev pub NotCut : TxCtx → ℕ → ℕ → Type 0
NotCut t' size mtu = t'.msg_active ≡ true → t'.offset ≡ 0 → size < mtu

looking : (t : TxCtx) (r : RxCtx) → t.offset ≡ 0 → InStep t r → r.state ≡ wait_magic
looking t r z (outside u s d) = s
looking t r z (midway a h y) = absurd (omega arith)

reading : (t : TxCtx) (r : RxCtx) → t.msg_active ≡ true → t.offset ≢ 0 → InStep t r → Midway t r
reading t r a n (outside (inl b) s d) = absurd (cc)
reading t r a n (outside (inr z) s d) = absurd (n z)
reading t r a n (midway b h y) = y

-- The receiver behind the header of the sender's message.
headed :
    (t : TxCtx) (r : RxCtx)
    → t.offset ≡ 0
    → t.cur_msg.hdr.len ≢ 0
    → t.cur_msg.hdr.len ≤ max_payload_size
    → Midway t
        (record (with_header t.cur_msg.hdr.opcode t.cur_msg.hdr.req_app t.cur_msg.hdr.len r) {
          offset = 0;
          msg_active = true;
          state = read_payload;
        })
headed t r z n k = record {
  reading = refl;
  active = refl;
  same_hdr = refl;
  same_offset = sym z;
  same_bytes = ap (read r.cur_msg.payload 0) z ∙ sym (ap (read t.cur_msg.payload 0) z);
  inside = omega arith;
  short = k;
}

module _ (mtu i : ℕ) (t : TxCtx) (q p : Fifos) (rest : List ℕ) where
  -- One round of the builder, in the parser; `fuel'` is what is left of the parser's fuel.
  abbrev pub Arrives : RxCtx → ℕ → Type 0
  Arrives r fuel =
      (fuel' : ℕ) × (r' : RxCtx) × (p' : Fifos) × (ms : List Content) × (fuel
        ≤ fuel' + 2 * length (emitted mtu i t))
      × (parse_loop fuel (emitted mtu i t ++ rest) r p ≡ parse_loop fuel' rest r' p')
      × Delivers t q p (advanced (Tx.chunk mtu i t) t) q r' p' ms

  module _ (v : IsOk t) (a : t.msg_active ≡ true) (m : mtu < 65536) (h : i < mtu)
      (room : no_room mtu i t ≡ false) (behind : (rest ≡ []) ⊎ (i + length (emitted mtu i t) < mtu))
      (uncut : t.offset ≡ 0 → t.cur_msg.hdr.len ≢ 0 → Tx.chunk mtu i t ≢ 0) (w : IsReady p) where
    abbrev n : ℕ
    n = Tx.chunk mtu i t

    n_lem : n ≡ min (t.cur_msg.hdr.len - t.offset) (mtu - (i + length (header_part t)))
    n_lem = chunk_lem mtu i t v a m h room

    size_lem : length (emitted mtu i t) ≡ length (header_part t) + n
    size_lem = length-emitted mtu i t v a m h room

    last_or_end :
        (t.offset ≡ 0) ⊎ (t.offset < t.cur_msg.hdr.len)
        → (t.offset + n ≡ t.cur_msg.hdr.len) ⊎ ((t.offset + n < t.cur_msg.hdr.len) × (rest ≡ []))
    last_or_end c = elim (ℕ_discrete (t.offset + n) t.cur_msg.hdr.len) [
      | yes e ↦ inl e
      | no e ↦ elim behind [
        | inl nil ↦ inr (omega (arith, n_lem), nil)
        | inr under ↦ absurd (omega (arith, n_lem, size_lem))
      ]
    ]

    continued-Arrives :
        (r : RxCtx) (fuel : ℕ)
        → 2 * length (emitted mtu i t) ≤ fuel
        → t.offset ≢ 0
        → Midway t r
        → Arrives r fuel
    continued-Arrives r fuel f z y =
        let none_written : header_part t ≡ [] = ground arith in
        let pos : 0 < n = ground (arith, n_lem, y.inside) in
        let (r', p', ms, l, d) =
          part-Delivers (fuel - 1) n rest t r q p a y w pos (last_or_end (inr y.inside)) in
        (
          fuel - 1,
          r',
          p',
          ms,
          ground (arith, size_lem),
          ap₂ (λ k e. parse_loop k ((e ++ read t.cur_msg.payload t.offset n) ++ rest) r p)
                (ground (arith, size_lem)) none_written
              ∙ l,
          d,
        )

    started-Arrives :
        (r : RxCtx) (fuel : ℕ)
        → 2 * length (emitted mtu i t) ≤ fuel
        → t.offset ≡ 0
        → r.state ≡ wait_magic
        → Arrives r fuel
    started-Arrives r fuel f z s = elim (ℕ_discrete t.cur_msg.hdr.len 0) [
      | yes e ↦
          let n0 : n ≡ 0 = omega (arith, n_lem) in
          let (r', p', l, took) = empty_message (fuel - 2) t.cur_msg rest r p s w e in
          (
            fuel - 2,
            r',
            p',
            content t.cur_msg ∷ [],
            ground (arith, size_lem),
            ap₂ (λ k e. parse_loop k (e ++ rest) r p) (ground (arith, size_lem))
                  (ap₂ (λ g k. g ++ read t.cur_msg.payload t.offset k) written n0)
                ∙ l,
            completed n t q p r' p' a (v.short a) (omega arith) took,
          )
      | no e ↦
          let y = headed t r z e (v.short a) in
          let (r', p', ms, l, d) =
            part-Delivers (fuel - 3) n rest t _ q p a y w (pos e) (last_or_end (inl z)) in
          (
            fuel - 3,
            r',
            p',
            ms,
            ground (arith, size_lem, pos e),
            ap₂ (λ k e. parse_loop k ((e ++ read t.cur_msg.payload t.offset n) ++ rest) r p)
                  (ground (arith, size_lem, pos e)) written
                ∙ whole_header (suc (fuel - 3)) t.cur_msg.hdr
                    (read t.cur_msg.payload t.offset n ++ rest) r p s (v.short a) e
                ∙ l,
            d,
          )
    ]
      where
        written : header_part t ≡ header t.cur_msg.hdr
        written = ground arith

        pos : t.cur_msg.hdr.len ≢ 0 → 0 < n
        pos e = ground (arith, uncut z e)

    pub round-Arrives :
        (r : RxCtx) (fuel : ℕ) → 2 * length (emitted mtu i t) ≤ fuel → InStep t r → Arrives r fuel
    round-Arrives r fuel f y = elim (ℕ_discrete t.offset 0) [
      | yes z ↦ started-Arrives r fuel f z (looking t r z y)
      | no z ↦ continued-Arrives r fuel f z (reading t r a z y)
    ]
