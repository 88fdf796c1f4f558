-- ===== src/Ble/Tx/Loading.antt =====
-- The first half of a round of `ble_build_next_packet`: which message is cut, and what is pending.
use minimal_watch_firmware_e.Base.{
  ℕ, ◌+◌, ◌-◌, ◌≤◌, ◌<◌, ◌≡◌, ◌≢◌, ◌∙◌, refl, sym, ap, inl, inr, Bool, true, false, some, List, [],
  ◌∷◌, ◌++◌, arith, Bool-cases, if◌then◌else◌, length, min, map,
}
use minimal_watch_firmware_e.Ring.Refine.{contents}
use minimal_watch_firmware_e.Ble.Message.{max_payload_size, Content, content}
use minimal_watch_firmware_e.Ble.Fifo.{Fifos}
use minimal_watch_firmware_e.Ble.Fifo.Laws.{IsReady, get_tx_refines}
use minimal_watch_firmware_e.Ble.Tx.{TxCtx, load, header_part, chunk, no_room}

-- A message being sent fits its payload array, and once its header is out some of it is left.
pub record IsOk (t : TxCtx) : Type 0 where
  pub short : t.msg_active ≡ true → t.cur_msg.hdr.len ≤ max_payload_size
  pub inside : t.msg_active ≡ true → t.offset ≢ 0 → t.offset < t.cur_msg.hdr.len

-- The messages that are still to be sent, the one that is cut first.
abbrev pub pending : TxCtx → Fifos → List Content
pending t q =
    (if t.msg_active then content t.cur_msg ∷ [] else []) ++ map content (contents q.tx_fifo)

-- `load` keeps what is pending; it fails only if nothing is.
pub record Loaded (t : TxCtx) (q : Fifos) (found : Bool) (t' : TxCtx) (q' : Fifos) : Type 0 where
  pub ok : IsOk t'
  pub ready : IsReady q'
  pub rx_kept : q'.rx_fifo ≡ q.rx_fifo
  pub active : t'.msg_active ≡ found
  pub kept : pending t' q' ≡ pending t q
  pub empty : found ≡ false → t.msg_active ≡ false
  pub none_left : found ≡ false → contents q'.tx_fifo ≡ []
  pub fresh : t.msg_active ≡ false → found ≡ true → t'.offset ≡ 0
  pub same : t.msg_active ≡ true → t' ≡ t

pub load-Loaded :
    (t : TxCtx) (q : Fifos)
    → IsOk t
    → IsReady q
    → (found : Bool) × (t' : TxCtx) × (q' : Fifos) × (load t q ≡ some (found, t', q'))
      × Loaded t q found t' q'
unfolding load
load-Loaded t q v w = elim (Bool-cases t.msg_active) [
  | inl busy ↦ (
    true,
    t,
    q,
    rw busy,
    record {
      ok = v;
      ready = w;
      rx_kept = refl;
      active = busy;
      kept = refl;
      empty = λ e. absurd (cc);
      none_left = λ e. absurd (cc);
      fresh = λ e _. absurd (cc);
      same = λ _. refl;
    },
  )
  | inr idle ↦ elim (get_tx_refines w) [
    | inl (nothing, q', e, w', kept, empty) ↦ (
      false,
      t,
      q',
      rw (idle, e),
      record {
        ok = v;
        ready = w';
        rx_kept = kept;
        active = idle;
        kept = ap (λ l. here ++ map content l) (empty ∙ sym nothing);
        empty = λ _. idle;
        none_left = λ _. empty;
        fresh = λ _ e. absurd (cc);
        same = λ _. refl;
      },
    )
    | inr (m, q', e, full, w', kept, short) ↦ (
      true,
      record { cur_msg = m; offset = 0; msg_active = true },
      q',
      rw (idle, e),
      record {
        ok = record { short = λ _. short; inside = λ _ n. absurd (n refl) };
        ready = w';
        rx_kept = kept;
        active = refl;
        kept = rw (idle, full);
        empty = λ e. absurd (cc);
        none_left = λ e. absurd (cc);
        fresh = λ _ _. refl;
        same = λ e. absurd (cc);
      },
    )
  ]
]
  where
    here : List Content
    here = if t.msg_active then content t.cur_msg ∷ [] else []

pub chunk_lem :
    (mtu i : ℕ) (t : TxCtx)
    → IsOk t
    → t.msg_active ≡ true
    → mtu < 65536
    → i < mtu
    → no_room mtu i t ≡ false
    → chunk mtu i t ≡ min (t.cur_msg.hdr.len - t.offset) (mtu - (i + length (header_part t)))
chunk_lem mtu i t v a m h n = ground (arith, v.short a, v.inside a)

pub pending_idle :
    (t : TxCtx) (q : Fifos) → t.msg_active ≡ false → contents q.tx_fifo ≡ [] → pending t q ≡ []
pending_idle t q idle empty = rw (idle, empty)

pub pending_busy :
    (t : TxCtx) (q : Fifos)
    → t.msg_active ≡ true
    → pending t q ≡ content t.cur_msg ∷ map content (contents q.tx_fifo)
pending_busy t q busy = rw busy

pub pending_quiet :
    (t : TxCtx) (q : Fifos) → t.msg_active ≡ false → pending t q ≡ map content (contents q.tx_fifo)
pending_quiet t q quiet = rw quiet
