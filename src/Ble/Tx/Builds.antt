-- ===== src/Ble/Tx/Builds.antt =====
-- The loop of `ble_build_next_packet` as a relation, with one constructor for each way through it.
use native.Mathlib.Nat.{mod-eq_of_lt}
use minimal_watch_firmware_e.Base.{
  ℕ, zero, suc, ◌+◌, ◌-◌, ◌≤◌, ◌<◌, ◌≡◌, ◌≢◌, ◌∙◌, refl, sym, ap, ◌⊎◌, inl, inr, true, false, some,
  List, [], ◌++◌, arith, Bool-cases, ltb, leb, ltb→lt, ltb→le, length, length-append, length-read,
  read, u16,
}
use minimal_watch_firmware_e.Ble.Fifo.{Fifos}
use minimal_watch_firmware_e.Ble.Fifo.Laws.{IsReady}
use minimal_watch_firmware_e.Ble.Tx.{
  TxCtx, load, header_part, chunk, emitted, advanced, no_room, build_loop,
}
use minimal_watch_firmware_e.Ble.Tx.Loading.{
  pending, pending_idle, pending_busy, IsOk, Loaded, load-Loaded, chunk_lem,
}

-- From `i` bytes in a packet of `mtu`: the bytes that are appended, and the state that is left.
pub data Builds (mtu : ℕ) : ℕ → TxCtx → Fifos → List ℕ → TxCtx → Fifos → Type 0 where
  full : {i : ℕ} {t : TxCtx} {q : Fifos} → mtu ≤ i → Builds mtu i t q [] t q
  nothing :
      {i : ℕ} {t t1 : TxCtx} {q q1 : Fifos}
      → i < mtu
      → Loaded t q false t1 q1
      → Builds mtu i t q [] t1 q1
  cramped :
      {i : ℕ} {t t1 : TxCtx} {q q1 : Fifos}
      → i < mtu
      → Loaded t q true t1 q1
      → no_room mtu i t1 ≡ true
      → Builds mtu i t q [] t1 q1
  fills :
      {i : ℕ} {t t1 t2 : TxCtx} {q q1 : Fifos} {bytes : List ℕ}
      → i < mtu
      → Loaded t q true t1 q1
      → no_room mtu i t1 ≡ false
      → i + length (emitted mtu i t1) ≡ mtu
      → bytes ≡ emitted mtu i t1
      → t2 ≡ advanced (chunk mtu i t1) t1
      → Builds mtu i t q bytes t2 q1
  more :
      {i : ℕ} {t t1 t2 : TxCtx} {q q1 q2 : Fifos} {bytes rest : List ℕ}
      → i < mtu
      → Loaded t q true t1 q1
      → no_room mtu i t1 ≡ false
      → i + length (emitted mtu i t1) < mtu
      → bytes ≡ emitted mtu i t1 ++ rest
      → Builds mtu (i + length (emitted mtu i t1)) (advanced (chunk mtu i t1) t1) q1 rest t2 q2
      → Builds mtu i t q bytes t2 q2

module _ (mtu i : ℕ) (t : TxCtx) (v : IsOk t) (a : t.msg_active ≡ true) (m : mtu < 65536)
    (h : i < mtu) (room : no_room mtu i t ≡ false) where
  pub length-emitted : length (emitted mtu i t) ≡ length (header_part t) + chunk mtu i t
  length-emitted =
      length-append (header_part t) (read t.cur_msg.payload t.offset (chunk mtu i t))
      ∙ ap (λ n. length (header_part t) + n)
          (length-read t.cur_msg.payload t.offset (chunk mtu i t))

  -- A round appends at least one byte, and no more than there is room for.
  pub emitted_bounds : (0 < length (emitted mtu i t)) × (i + length (emitted mtu i t) ≤ mtu)
  emitted_bounds =
      ground (arith, length-emitted, chunk_lem mtu i t v a m h room, v.short a, v.inside a)

  pub advanced-IsOk : IsOk (advanced (chunk mtu i t) t)
  advanced-IsOk = record { short = λ _. v.short a; inside = λ still _. ground arith }

  small : u16 (i + length (emitted mtu i t)) ≡ i + length (emitted mtu i t)
  small = mod-eq_of_lt (omega (arith, emitted_bounds))

-- A round that leaves room in the packet, with the rounds that follow.
step_more :
    (fuel mtu i : ℕ) (t : TxCtx) (q : Fifos) {t1 t2 : TxCtx} {q1 q2 : Fifos} {bytes : List ℕ}
    → ltb i mtu ≡ true
    → load t q ≡ some (true, t1, q1)
    → no_room mtu i t1 ≡ false
    → u16 (i + length (emitted mtu i t1)) ≡ i + length (emitted mtu i t1)
    → leb mtu (i + length (emitted mtu i t1)) ≡ false
    → build_loop fuel mtu (i + length (emitted mtu i t1)) (advanced (chunk mtu i t1) t1) q1
      ≡ some (bytes, t2, q2)
    → build_loop (suc fuel) mtu i t q ≡ some (emitted mtu i t1 ++ bytes, t2, q2)
unfolding build_loop
step_more fuel mtu i t q under e room u on e2 = rw (under, e, room, u, on, e2)

pub build_loop-Builds :
    (fuel mtu i : ℕ) (t : TxCtx) (q : Fifos)
    → mtu < 65536
    → mtu - i < fuel
    → IsOk t
    → IsReady q
    → (bytes : List ℕ) × (t' : TxCtx) × (q' : Fifos) × (build_loop fuel mtu i t q
        ≡ some (bytes, t', q'))
      × Builds mtu i t q bytes t' q'
unfolding build_loop
build_loop-Builds zero mtu i t q m f v w = absurd (omega arith)
build_loop-Builds (suc fuel) mtu i t q m f v w = elim (Bool-cases (ltb i mtu)) [
  | inr end ↦ ([], t, q, rw end, full (ltb→le i mtu end))
  | inl under ↦
      let h : i < mtu = ltb→lt i mtu under in
      let (found, t1, q1, e, l) = load-Loaded t q v w in
      elim (Bool-cases found) [
        | inr none_left ↦ ([], t1, q1, rw (under, e, none_left), nothing h (rw none_left at l))
        | inl some_left ↦
            let l' : Loaded t q true t1 q1 = rw some_left at l in
            elim (Bool-cases (no_room mtu i t1)) [
              | inl tight ↦ ([], t1, q1, rw (under, e, some_left, tight), cramped h l' tight)
              | inr room ↦
                  let (pos, fit) = emitted_bounds mtu i t1 l'.ok l'.active m h room in
                  let u = small mtu i t1 l'.ok l'.active m h room in
                  elim (Bool-cases (leb mtu (i + length (emitted mtu i t1)))) [
                    | inl end ↦ (
                      emitted mtu i t1,
                      advanced (chunk mtu i t1) t1,
                      q1,
                      rw (under, e, some_left, room, u, end),
                      fills h l' room (ground arith) refl refl,
                    )
                    | inr on ↦
                        let (bytes, t2, q2, e2, b) =
                          build_loop-Builds fuel mtu (i + length (emitted mtu i t1))
                            (advanced (chunk mtu i t1) t1) q1 m (omega arith)
                            (advanced-IsOk mtu i t1 l'.ok l'.active m h room) l'.ready in
                        (
                          emitted mtu i t1 ++ bytes,
                          t2,
                          q2,
                          step_more fuel mtu i t q under (e ∙ ap (λ b. some (b, t1, q1)) some_left)
                              room u on e2,
                          more h l' room (ground arith) refl b,
                        )
                  ]
            ]
      ]
]

-- What every way through the loop guarantees.
pub record Built (mtu i : ℕ) (q : Fifos) (bytes : List ℕ) (t' : TxCtx) (q' : Fifos) : Type 0 where
  pub ok : IsOk t'
  pub ready : IsReady q'
  pub rx_kept : q'.rx_fifo ≡ q.rx_fifo
  pub fits : (i + length bytes ≤ mtu) ⊎ (bytes ≡ [])

pub Builds-Built :
    {mtu i : ℕ} {t t' : TxCtx} {q q' : Fifos} {bytes : List ℕ}
    → mtu < 65536
    → IsOk t
    → IsReady q
    → Builds mtu i t q bytes t' q'
    → Built mtu i q bytes t' q'
Builds-Built m v w (full h) = record { ok = v; ready = w; rx_kept = refl; fits = inr refl }
Builds-Built m v w (nothing h l) = record {
  ok = l.ok;
  ready = l.ready;
  rx_kept = l.rx_kept;
  fits = inr refl;
}
Builds-Built m v w (cramped h l tight) = record {
  ok = l.ok;
  ready = l.ready;
  rx_kept = l.rx_kept;
  fits = inr refl;
}
Builds-Built {mtu} {i} m v w (fills {t1 = t1} h l room e b a) = record {
  ok = rw a (advanced-IsOk mtu i t1 l.ok l.active m h room);
  ready = l.ready;
  rx_kept = l.rx_kept;
  fits = rw b (inl (omega arith));
}
Builds-Built {mtu} {i} m v w (more {t1 = t1} {rest = rest} h l room e b d) =
    let r = Builds-Built m (advanced-IsOk mtu i t1 l.ok l.active m h room) l.ready d in
    record {
      ok = r.ok;
      ready = r.ready;
      rx_kept = r.rx_kept ∙ l.rx_kept;
      fits = inl (ground (arith, b, r.fits, length-append (emitted mtu i t1) rest));
    }

some_pending : {t t1 : TxCtx} {q q1 : Fifos} → Loaded t q true t1 q1 → pending t1 q1 ≢ []
some_pending {t1 = t1} {q1 = q1} l p = cc (pending_busy t1 q1 l.active)

-- A packet with room for a header and a byte is left without a message only if none is pending.
pub Builds-some :
    {mtu : ℕ} {t t' : TxCtx} {q q' : Fifos} {bytes : List ℕ}
    → 5 ≤ mtu
    → mtu < 65536
    → Builds mtu 1 t q bytes t' q'
    → ((pending t q ≡ []) × (bytes ≡ [])) ⊎ ((pending t q ≢ []) × (0 < length bytes))
Builds-some h m (full k) = absurd (omega arith)
Builds-some h m (nothing {t1 = t1} {q1 = q1} k l) =
    inl (sym l.kept ∙ pending_idle t1 q1 l.active (l.none_left refl), refl)
Builds-some h m (cramped k l tight) = absurd (ground arith)
Builds-some {mtu} h m (fills {t1 = t1} k l room e b a) =
    inr (λ p. some_pending l (l.kept ∙ p), rw b (emitted_bounds mtu 1 t1 l.ok l.active m k room).0)
Builds-some {mtu} h m (more {t1 = t1} {rest = rest} k l room e b d) = inr (
  λ p. some_pending l (l.kept ∙ p),
  ground (
    arith,
    b,
    length-append (emitted mtu 1 t1) rest,
    emitted_bounds mtu 1 t1 l.ok l.active m k room,
  ),
)
