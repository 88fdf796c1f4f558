-- ===== src/Ble/Link/Repeat.antt =====
-- A header at the very end of a packet of `ble_build_next_packet` is sent again.
use minimal_watch_firmware_e.Base.{
  ℕ, ◌+◌, ◌-◌, ◌≤◌, ◌<◌, ◌≡◌, ◌∙◌, refl, sym, ap, ap₂, Bool, true, some, List, [], ◌∷◌, ◌++◌,
  append-nil, append_assoc, arith, length, length-append, u16, read, if◌then◌else◌,
}
use minimal_watch_firmware_e.Ble.Fifo.{Fifos}
use minimal_watch_firmware_e.Ble.Fifo.Laws.{IsReady}
use minimal_watch_firmware_e.Ble.Tx
use minimal_watch_firmware_e.Ble.Tx.{
  TxCtx, header, header_part, emitted, advanced, no_room, build_next_packet,
}
use minimal_watch_firmware_e.Ble.Tx.Loading.{IsOk, chunk_lem}
use minimal_watch_firmware_e.Ble.Tx.Builds.{
  Builds, Builds-Built, full, nothing, cramped, fills, more, advanced-IsOk,
}
use minimal_watch_firmware_e.Ble.Tx.Total.{flag}
use minimal_watch_firmware_e.Ble.Link.Packet.{packet_Builds}

header_at_0 : (t : TxCtx) → t.offset ≡ 0 → header_part t ≡ header t.cur_msg.hdr
header_at_0 t z = ground arith

sum_zero : (a n l : ℕ) → l ≤ 250 → a ≤ l → n ≤ l - a → u16 (a + n) ≡ 0 → (a ≡ 0) × (n ≡ 0)
sum_zero a n l s i b z = (ground (arith), ground (arith))

inside_le : {t : TxCtx} → IsOk t → t.msg_active ≡ true → t.offset ≤ t.cur_msg.hdr.len
inside_le {t} v a = ground (arith, v.inside a)

-- The state after a round that ends the packet, if no payload byte of the message went out.
cut_round :
    (n : ℕ) (t : TxCtx)
    → IsOk t
    → t.msg_active ≡ true
    → n ≤ t.cur_msg.hdr.len - t.offset
    → u16 (t.offset + n) ≡ 0
    → (t.offset ≡ 0) × (n ≡ 0)
cut_round n t v a b z = sum_zero t.offset n t.cur_msg.hdr.len (v.short a) (inside_le v a) b z

Builds-cut :
    {mtu i : ℕ} {t t' : TxCtx} {q q' : Fifos} {bytes : List ℕ}
    → mtu < 65536
    → IsOk t
    → Builds mtu i t q bytes t' q'
    → i < mtu
    → i + length bytes ≡ mtu
    → t'.offset ≡ 0
    → (before : List ℕ) × (bytes ≡ before ++ header t'.cur_msg.hdr)
Builds-cut m v (full h) k s z = absurd (omega arith)
Builds-cut m v (nothing h l) k s z = absurd (omega arith)
Builds-cut m v (cramped h l tight) k s z = absurd (omega arith)
Builds-cut {mtu} {i} m v (fills {t1 = t1} h l room e b d) k s z =
    let n = Tx.chunk mtu i t1 in
    let fits : n ≤ t1.cur_msg.hdr.len - t1.offset =
      omega (arith, chunk_lem mtu i t1 l.ok l.active m h room) in
    let (z1, n0) = cut_round n t1 l.ok l.active fits (sym (ap (λ (c : TxCtx). c.offset) d) ∙ z) in
    (
      [],
      b
          ∙ ap₂ (λ x k. x ++ read t1.cur_msg.payload t1.offset k) (header_at_0 t1 z1) n0
          ∙ append-nil (header t1.cur_msg.hdr)
          ∙ ap (λ (c : TxCtx). header c.cur_msg.hdr) (sym d),
    )
Builds-cut {mtu} {i} m v (more {t1 = t1} {rest = rest} h l room e b d) k s z =
    let (before, c) =
      Builds-cut m (advanced-IsOk mtu i t1 l.ok l.active m h room) d e
        (omega (arith, ap length b, length-append (emitted mtu i t1) rest)) z in
    (
      emitted mtu i t1 ++ before,
      b
          ∙ ap (λ x. emitted mtu i t1 ++ x) c
          ∙ sym (append_assoc (emitted mtu i t1) before (header _)),
    )

emitted_at_0 :
    (mtu i : ℕ) (t t1 : TxCtx)
    → t1 ≡ t
    → t.offset ≡ 0
    → (behind : List ℕ) × (emitted mtu i t1 ≡ header t.cur_msg.hdr ++ behind)
emitted_at_0 mtu i t t1 same z =
    let z1 = ap (λ (c : TxCtx). c.offset) same ∙ z in
    let sent = read t1.cur_msg.payload t1.offset (Tx.chunk mtu i t1) in
    (sent, ap (λ x. x ++ sent) (header_at_0 t1 z1 ∙ ap (λ (c : TxCtx). header c.cur_msg.hdr) same))

Builds-again :
    {mtu : ℕ} {t t' : TxCtx} {q q' : Fifos} {bytes : List ℕ}
    → 5 ≤ mtu
    → mtu < 65536
    → Builds mtu 1 t q bytes t' q'
    → t.msg_active ≡ true
    → t.offset ≡ 0
    → (behind : List ℕ) × (bytes ≡ header t.cur_msg.hdr ++ behind)
Builds-again h m (full k) a z = absurd (omega arith)
Builds-again h m (nothing k l) a z = absurd (cc (l.empty refl))
Builds-again h m (cramped k l tight) a z = absurd (ground arith)
Builds-again {mtu} {t} h m (fills {t1 = t1} k l room e b d) a z =
    let (behind, c) = emitted_at_0 mtu 1 t t1 (l.same a) z in (behind, b ∙ c)
Builds-again {mtu} {t} h m (more {t1 = t1} {rest = rest} k l room e b d) a z =
    let (behind, c) = emitted_at_0 mtu 1 t t1 (l.same a) z in
    (behind ++ rest, b ∙ ap (λ x. x ++ rest) c ∙ append_assoc (header t.cur_msg.hdr) behind rest)

-- If a packet is full and the message that it cuts is still active at payload offset 0, the packet
-- ends in that message's header; and any next packet of at least 5 bytes starts, behind a flag of 1,
-- with the same header again.
pub header_sent_twice :
    (mtu mtu' : ℕ) (t t' t'' : TxCtx) (q q' q'' : Fifos) (done done' : Bool) (pkt pkt' : List ℕ)
    → 2 ≤ mtu
    → mtu < 65536
    → 5 ≤ mtu'
    → mtu' < 65536
    → IsOk t
    → IsReady q
    → build_next_packet true mtu t q ≡ some (done, pkt, t', q')
    → length pkt ≡ mtu
    → t'.msg_active ≡ true
    → t'.offset ≡ 0
    → build_next_packet true mtu' t' q' ≡ some (done', pkt', t'', q'')
    → (before behind : List ℕ) × (pkt ≡ before ++ header t'.cur_msg.hdr)
      × (pkt' ≡ 1 ∷ header t'.cur_msg.hdr ++ behind)
header_sent_twice mtu mtu' t t' t'' q q' q'' done done' pkt pkt' h m h' m' v w built size a z
      built' =
    let (bytes, e, b) = packet_Builds m v w built in
    let (before, c) = Builds-cut m v b (omega arith) (omega (arith, ap length e)) z in
    let next = Builds-Built m v w b in
    let (bytes', e', b') = packet_Builds m' next.ok next.ready built' in
    let (behind, c') = Builds-again h' m' b' a z in
    (
      flag t ∷ before,
      behind,
      e ∙ ap (λ x. flag t ∷ x) c,
      e' ∙ ap₂ (λ f x. f ∷ x) (ap (λ (k : Bool). if k then 1 else 0) a) c',
    )
