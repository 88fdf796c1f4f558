-- ===== src/Events/Subscribe.antt =====
-- `event_subscribe` and `event_unsubscribe` against lists of handlers.
use mathlib.Core.Path.{subst}
use minimal_watch_firmware_e.Base.{
  ℕ, suc, ◌+◌, ◌-◌, ◌≤◌, ◌<◌, ◌≡◌, ◌∙◌, refl, sym, ap, inl, inr, Bool, true, false, List, [], ◌∷◌,
  ◌++◌, arith, Bool-cases, leb, ◌==◌, if◌then◌else◌, length, length-read, store, read, u8,
  ℕ_discrete,
}
use minimal_watch_firmware_e.Events.{
  Subscription, Registry, max_event_subscribers, shift, refused, added, removed, put_subscription,
  subscribe, unsubscribe,
}
use minimal_watch_firmware_e.Events.Table.{
  elem, erase, Proper, held, subscribed, IsValid, Proper-append, Proper-erase, Found, find_lem,
  read-removed, read-added,
}

-- What subscribing promises, on the lists: a handler that is there is not added again, and at most
-- `max_event_subscribers` are taken.
unfoldable pub add_to : List ℕ → ℕ → Bool × List ℕ
add_to l h =
    if elem h l
    then (true, l)
    else if leb max_event_subscribers (length l)
    then (false, l)
    else (true, l ++ (h ∷ []))

unfoldable pub drop_from : List ℕ → ℕ → Bool × List ℕ
drop_from l h = (elem h l, erase h l)

-- A call took the table `r` to `r'`: a valid table, whose lists are those of `r`, except that
-- event `e` has the list `l`.
pub record Changed (r : Registry) (e : ℕ) (l : List ℕ) (r' : Registry) : Type 0 where
  pub valid : IsValid r'
  pub still : r'.initialized ≡ r.initialized
  pub lists : (k : ℕ) → subscribed r' k ≡ store (subscribed r) e l k

put-Changed :
    (r : Registry) (e : ℕ) (sub : Subscription)
    → IsValid r
    → sub.count ≤ max_event_subscribers
    → Proper (held sub)
    → Changed r e (held sub) (put_subscription r e sub)
put-Changed r e sub v c p = record {
  valid = record {
    fits = λ k. elim (ℕ_discrete k e) [
      | yes s ↦ ground (arith, s, c)
      | no s ↦ ground (arith, v.fits k)
    ];
    proper = λ k. elim (Bool-cases (k == e)) [ inl s ↦ rw s p | inr s ↦ rw s (v.proper k) ];
  };
  still = refl;
  lists = λ k. elim (Bool-cases (k == e)) [ inl s ↦ rw s refl | inr s ↦ rw s refl ];
}

same-Changed : (r : Registry) (e : ℕ) → IsValid r → Changed r e (subscribed r e) r
same-Changed r e v = record {
  valid = v;
  still = refl;
  lists = λ k. elim (Bool-cases (k == e)) [
    | inl s ↦ rw s (ap (subscribed r) (ground arith))
    | inr s ↦ rw s refl
  ];
}

Changed-list :
    {r r' : Registry} {e : ℕ} {l l' : List ℕ} → l ≡ l' → Changed r e l r' → Changed r e l' r'
Changed-list {r} {r'} {e} s c = subst (λ k. Changed r e k r') s c

added-held :
    (sub : Subscription) (h : ℕ) → sub.count < 8 → held (added sub h) ≡ held sub ++ (h ∷ [])
added-held sub h k =
    ap (λ n. read (store sub.handlers sub.count h) 0 n) (omega arith)
    ∙ read-added sub.handlers sub.count h

add_Changed :
    (r : Registry) (e h : ℕ)
    → IsValid r
    → refused r e h ≡ false
    → elem h (subscribed r e) ≡ false
    → (r.subscriptions e).count < 8
    → Changed r e (subscribed r e ++ (h ∷ [])) (put_subscription r e (added (r.subscriptions e) h))
add_Changed r e h v ok out room =
    let sub = r.subscriptions e in
    let l = added-held sub h room in
    Changed-list l (
      put-Changed r e (added sub h) v (ground arith)
        (subst Proper (sym l) (Proper-append (held sub) h (v.proper e) out (ground arith))))

-- `event_subscribe` with a real handler, on a valid table that is initialized and for an event that
-- exists, returns and does what `add_to` says to the event's list, and leaves the other lists alone.
-- The table is valid again.
pub subscribe_refines :
    (r : Registry) (e h : ℕ)
    → IsValid r
    → refused r e h ≡ false
    → ((subscribe r e h).0 ≡ (add_to (subscribed r e) h).0)
      × Changed r e (add_to (subscribed r e) h).1 (subscribe r e h).1
unfolding subscribe add_to
subscribe_refines r e h v ok =
    let sub = r.subscriptions e in
    elim (find_lem sub.handlers h 0 sub.count) [
      | inl (none_there, out) ↦ elim (Bool-cases (leb max_event_subscribers sub.count)) [
        | inl full ↦
            rw (ok, none_there, out, length-read sub.handlers 0 sub.count, full)
              (refl, same-Changed r e v)
        | inr room ↦
            rw (ok, none_there, out, length-read sub.handlers 0 sub.count, room)
              (refl, add_Changed r e h v ok out (ground arith))
      ]
      | inr (b, a, f) ↦ rw (ok, f.at, f.member) (refl, same-Changed r e v)
    ]

removed-held :
    (sub : Subscription) (b a : ℕ)
    → sub.count ≤ 8
    → sub.count ≡ b + suc a
    → held (removed sub (0 + b)) ≡ read sub.handlers 0 b ++ read sub.handlers (0 + b + 1) a
removed-held sub b a k s =
    at (0 + b) (sub.count - 1 - (0 + b)) (u8 (sub.count + 255)) (omega arith) (omega arith)
      (omega arith)
    ∙ ap (λ j. read sub.handlers 0 b ++ read sub.handlers j a) (omega arith)
  where
    at :
        (i n c : ℕ)
        → i ≡ b
        → n ≡ a
        → c ≡ b + a
        → read (store (shift sub.handlers i n) c 0) 0 c
          ≡ read sub.handlers 0 b ++ read sub.handlers (b + 1) a
    at i n c ei en ec = rw (ei, en, ec) (read-removed sub.handlers b a)

remove_Changed :
    (r : Registry) (e h b a : ℕ)
    → IsValid r
    → Found (r.subscriptions e).handlers h 0 (r.subscriptions e).count b a
    → Changed r e
        (erase h (subscribed r e))
        (put_subscription r e (removed (r.subscriptions e) (0 + b)))
remove_Changed r e h b a v f =
    let sub = r.subscriptions e in
    let l : held (removed sub (0 + b)) ≡ erase h (held sub) =
      removed-held sub b a (v.fits e) f.split ∙ sym f.erased in
    Changed-list l (
      put-Changed r e (removed sub (0 + b)) v (omega (arith, v.fits e, f.split))
        (subst Proper (sym l) (Proper-erase h (held sub) (v.proper e))))

erase_absent : (x : ℕ) (l : List ℕ) → elem x l ≡ false → erase x l ≡ l
erase_absent x [] h = refl
erase_absent x (y ∷ l) h = elim (Bool-cases (y == x)) [
  | inl e ↦ absurd (ground arith)
  | inr e ↦ rw e (ap (λ k. y ∷ k) (erase_absent x l (rw e at h)))
]

-- `event_unsubscribe` with a real handler, on a valid table that is initialized and for an event that
-- exists, takes the handler out of the event's list and tells whether it was there; the order of the
-- others stays, and the other lists are left alone. The table is valid again.
pub unsubscribe_refines :
    (r : Registry) (e h : ℕ)
    → IsValid r
    → refused r e h ≡ false
    → ((unsubscribe r e h).0 ≡ (drop_from (subscribed r e) h).0)
      × Changed r e (drop_from (subscribed r e) h).1 (unsubscribe r e h).1
unfolding unsubscribe drop_from
unsubscribe_refines r e h v ok =
    let sub = r.subscriptions e in
    elim (find_lem sub.handlers h 0 sub.count) [
      | inl (none_there, out) ↦
          rw (ok, none_there, out)
            (refl, Changed-list (sym (erase_absent h (held sub) out)) (same-Changed r e v))
      | inr (b, a, f) ↦ rw (ok, f.at, f.member) (refl, remove_Changed r e h b a v f)
    ]
