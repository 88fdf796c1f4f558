-- ===== src/Ble/Rx/Rounds.antt =====
-- The invariant of the parser of `ble_retrieve_packet`, and the rounds that look for a message and
-- read its header.
use minimal_watch_firmware_e.Base.{
  ℕ, ◌+◌, ◌*◌, ◌≤◌, ◌<◌, ◌≡◌, ◌≢◌, refl, inl, inr, true, false, Option, some, List, [], ◌∷◌, arith,
  Bool-cases, ltb, ltb→le, length, ◌==◌,
}
use minimal_watch_firmware_e.Ble.Message.{magic, max_payload_size}
use minimal_watch_firmware_e.Ble.Fifo.{Fifos}
use minimal_watch_firmware_e.Ble.Fifo.Laws.{IsReady, add_rx_refines}
use minimal_watch_firmware_e.Ble.Rx.{
  RxState, wait_magic, read_header, read_payload, RxCtx, Round, on_wait_magic, on_read_header,
  finish, return, with_header,
}

-- A message is being received exactly in `read_payload`, and then the offset lies inside it.
pub record IsOk (r : RxCtx) : Type 0 where
  pub idle : r.state ≢ read_payload → r.msg_active ≡ false
  pub busy : r.state ≡ read_payload → r.msg_active ≡ true
  pub inside : r.state ≡ read_payload → r.offset < r.cur_msg.hdr.len
  pub short : r.state ≡ read_payload → r.cur_msg.hdr.len ≤ max_payload_size

-- Nothing behind the payload array differs.
abbrev pub Inside : RxCtx → RxCtx → Type 0
Inside r r' = (j : ℕ) → max_payload_size ≤ j → r'.cur_msg.payload j ≡ r.cur_msg.payload j

-- Bytes left, doubled, and one more where the next round may leave them all.
abbrev pub weight : List ℕ → RxState → ℕ
weight bs wait_magic = 2 * length bs
weight bs read_header = 2 * length bs + 1
weight bs read_payload = 2 * length bs + 1

-- What a round guarantees, started with the bytes `bs`.
pub record Fine (bs : List ℕ) (r : RxCtx) (q : Fifos) (o : Round) : Type 0 where
  pub ok : IsOk o.ctx
  pub inside : Inside r o.ctx
  pub ready : IsReady o.fifos
  pub tx_kept : o.fifos.tx_fifo ≡ q.tx_fifo
  pub falls : o.returned ≡ false → weight o.rest o.ctx.state < weight bs r.state

abbrev pub Returns : Option Round → (Round → Type 0) → Type 0
Returns p P = (o : Round) × (p ≡ some o) × P o

pub IsOk-waiting : (r : RxCtx) → r.state ≡ wait_magic → r.msg_active ≡ false → IsOk r
IsOk-waiting r s a = record {
  idle = λ _. a;
  busy = λ x. cc;
  inside = λ x. absurd (cc);
  short = λ x. absurd (cc);
}

IsOk-heading : (r : RxCtx) → r.state ≡ read_header → r.msg_active ≡ false → IsOk r
IsOk-heading r s a = record {
  idle = λ _. a;
  busy = λ x. cc;
  inside = λ x. absurd (cc);
  short = λ x. absurd (cc);
}

module _ (b : ℕ) (bs : List ℕ) (r : RxCtx) (q : Fifos) where
  pub wait_magic-Fine :
      r.state ≡ wait_magic
      → IsOk r
      → IsReady q
      → Returns (on_wait_magic b bs r q) (Fine (b ∷ bs) r q)
  unfolding on_wait_magic
  wait_magic-Fine s v w =
      let a : r.msg_active ≡ false = v.idle (λ e. cc) in
      elim (Bool-cases (b == magic)) [
        | inl hit ↦ elim (Bool-cases (ltb (length bs + 1) 4)) [
          | inl cut ↦ (
            record { returned = true; rest = b ∷ bs; ctx = r; fifos = q },
            rw (hit, cut),
            record { ok = v; inside = λ j _. refl; ready = w; tx_kept = refl; falls = λ e. cc },
          )
          | inr full ↦ (
            record {
              returned = false;
              rest = bs;
              ctx = record r { state = read_header };
              fifos = q;
            },
            rw (hit, full),
            record {
              ok = IsOk-heading (record r { state = read_header }) refl a;
              inside = λ j _. refl;
              ready = w;
              tx_kept = refl;
              falls = λ _. rw (s, weight) (omega arith);
            },
          )
        ]
        | inr miss ↦ (
          record { returned = false; rest = bs; ctx = r; fifos = q },
          rw miss,
          record {
            ok = v;
            inside = λ j _. refl;
            ready = w;
            tx_kept = refl;
            falls = λ _. rw (s, weight) (omega arith);
          },
        )
      ]

pub finish-Fine :
    (bs rest : List ℕ) (r r' : RxCtx) (q : Fifos)
    → r'.cur_msg.hdr.len ≤ max_payload_size
    → Inside r r'
    → 2 * length rest < weight bs r.state
    → IsReady q
    → Returns (finish rest r' q) (Fine bs r q)
finish-Fine bs rest r r' q short inside h w =
    let (q', e, w', t, c) = add_rx_refines r'.cur_msg w short in
    let done : RxCtx = record r' { msg_active = false; state = wait_magic } in
    (
      record { returned = false; rest = rest; ctx = done; fifos = q' },
      rw e,
      record {
        ok = IsOk-waiting done refl refl;
        inside = inside;
        ready = w';
        tx_kept = t;
        falls = λ _. h;
      },
    )

module _ (r : RxCtx) (q : Fifos) where
  short-Fine : (bs : List ℕ) → IsOk r → IsReady q → Returns (return bs r q) (Fine bs r q)
  short-Fine bs v w = (
    record { returned = true; rest = bs; ctx = r; fifos = q },
    refl,
    record { ok = v; inside = λ j _. refl; ready = w; tx_kept = refl; falls = λ e. cc },
  )

  pub read_header-Fine :
      (bs : List ℕ)
      → r.state ≡ read_header
      → IsOk r
      → IsReady q
      → Returns (on_read_header bs r q) (Fine bs r q)
  unfolding on_read_header
  read_header-Fine [] s v w = short-Fine [] v w
  read_header-Fine (a ∷ []) s v w = short-Fine (a ∷ []) v w
  read_header-Fine (a ∷ b ∷ []) s v w = short-Fine (a ∷ b ∷ []) v w
  read_header-Fine (opcode ∷ req_app ∷ len ∷ bs) s v w =
      elim (Bool-cases (ltb max_payload_size len)) [
        | inl long ↦ (
          record { returned = false; rest = opcode ∷ req_app ∷ len ∷ bs; ctx = bad; fifos = q },
          rw long,
          record {
            ok = IsOk-waiting bad refl refl;
            inside = λ j _. refl;
            ready = w;
            tx_kept = refl;
            falls = λ _. rw (s, weight) (omega arith);
          },
        )
        | inr short ↦ elim (Bool-cases (len == 0)) [
          | inl empty ↦
              rw (short, empty)
                (finish-Fine (opcode ∷ req_app ∷ len ∷ bs) bs r (record good { state = r.state }) q
                  (ltb→le max_payload_size len short) (λ j _. refl) (rw (s, weight) (omega arith))
                  w)
          | inr some_left ↦ (
            record { returned = false; rest = bs; ctx = good; fifos = q },
            rw (short, some_left),
            record {
              ok = record {
                idle = λ h. absurd (h refl);
                busy = λ _. refl;
                inside = λ _. ground arith;
                short = λ _. ltb→le max_payload_size len short;
              };
              inside = λ j _. refl;
              ready = w;
              tx_kept = refl;
              falls = λ _. rw (s, weight) (omega arith);
            },
          )
        ]
      ]
    where
      bad : RxCtx
      bad = record (with_header opcode req_app len r) { state = wait_magic; msg_active = false }

      good : RxCtx
      good = record (with_header opcode req_app len r) {
        offset = 0;
        msg_active = true;
        state = read_payload;
      }
